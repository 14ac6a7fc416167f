-- ===== src/State/Checked.antt =====
-- The checks of a CA's public key in src/ski/state.py: what they let through.
use server_key_injection.Base.{
  ◌≡◌, refl, sym, ap, ◌∙◌, false, not, Option, none, some, [], ok, err, ◌==◌, nat_eq, list_eq,
  list_beq_iff, raise_if, require-eq-ok, raise_if-eq-ok, ok-injective, ◌>>◌ as ◌>>ʳ◌,
}
use server_key_injection.Base.Text.{Text, codes}
use server_key_injection.Policy.Values.{Value, str_value, bytes_value, value_eq}
use server_key_injection.State.Tables.{ed25519}
use server_key_injection.State.Validation.{malformed}
use server_key_injection.State.Records.{PublicKey, validate_ca_public_key, check_ca_public_key}
use server_key_injection.State.{text_of}

-- What the key checks let through.
pub record IsChecked (import_public_key : Text → Option PublicKey) (fingerprint : Value)
    (key : PublicKey) : Type 0 where
  pub source : Text
  pub imported : import_public_key source ≡ some key
  pub algorithm : key.algorithm ≡ ed25519
  pub fingerprint_is : key.fingerprint ≡ text_of fingerprint
  pub some_fingerprint : (text_of fingerprint == []) ≡ false

module _ (import_public_key : Text → Option PublicKey) where
  import-IsChecked :
      (b f : Text) (key : PublicKey)
      → (f == []) ≡ false
      → check_ca_public_key import_public_key b f ≡ ok key
      → IsChecked import_public_key (str_value f) key
  unfolding check_ca_public_key
  import-IsChecked b f key given h = go (import_public_key b) refl h
    where
      go :
          (o : Option PublicKey)
          → import_public_key b ≡ o
          → (elim o [
            | none ↦ err (malformed (codes "CA public key is invalid"))
            | some key ↦
                raise_if
                  (not (key.algorithm == ed25519))
                  (malformed (codes "CA algorithm is unsupported"))
                >>ʳ (raise_if
                      (not (key.fingerprint == f))
                      (malformed (codes "CA fingerprint does not match public key"))
                    >>ʳ ok key)
          ])
            ≡ ok key
          → IsChecked import_public_key (str_value f) key
      go none e k = absurd (cc)
      go (some other) e k =
          let (supported, k1) = require-eq-ok (other.algorithm == ed25519) _ _ k in
          let (matches, k2) = require-eq-ok (other.fingerprint == f) _ _ k1 in
          let same : other ≡ key = ok-injective k2 in
          record {
            source = b;
            imported = e ∙ ap some same;
            algorithm =
                sym (ap (λ (x : PublicKey). x.algorithm) same)
                ∙ (list_beq_iff other.algorithm ed25519).0 supported;
            fingerprint_is =
                sym (ap (λ (x : PublicKey). x.fingerprint) same)
                ∙ (list_beq_iff other.fingerprint f).0 matches;
            some_fingerprint = given;
          }

  pub validated_key :
      (public_key fingerprint : Value) (key : PublicKey)
      → validate_ca_public_key import_public_key public_key fingerprint ≡ ok key
      → IsChecked import_public_key fingerprint key
  unfolding validate_ca_public_key
  validated_key (bytes_value b) (str_value f) key h =
      let (_, h1) = raise_if-eq-ok (b == []) _ _ h in
      let (given, h2) = raise_if-eq-ok (f == []) _ _ h1 in import-IsChecked b f key given h2
  validated_key (bytes_value b) _ key h =
      let (_, h1) = raise_if-eq-ok (b == []) _ _ h in absurd (cc h1)
  validated_key _ _ key h = absurd (cc)
