-- ===== src/State/Founding.antt =====
-- The first CA of src/ski/state.py: initializing refines the ledger, and what makes the values that it
-- registers well formed.
use mathlib.Core.Path.{subst}
use server_key_injection.Base.{
  ℕ, ◌<◌, ◌≡◌, refl, sym, ap, ◌∙◌, false, Option, some, [], ◌∷◌, ok, contains, arith, ◌==◌, nat_eq,
  list_eq, inl, inr, Ensures, Ensures->>=, Bool-cases, ok-injective,
}
use server_key_injection.Base.Int.{ℤ, pos}
use server_key_injection.Base.Text.{Text, codes}
use server_key_injection.Policy.Values.{Value}
use server_key_injection.State.Tables.{CaValues}
use server_key_injection.State.Validation.{TimeInput, timestamp, validate_text}
use server_key_injection.State.Records.{
  PublicKey, validate_ca_public_key, validate_private_key_path, path_name,
}
use server_key_injection.State.{
  initialize_active_ca, check_initialization, ca_values, ca_record, text_of,
}
use server_key_injection.State.Rows.{IsCa, IsText}
use server_key_injection.State.Ledger.{Ledger, tables_of}
use server_key_injection.State.Validated.{texted}
use server_key_injection.State.Checked.{IsChecked, validated_key}
use server_key_injection.State.Initializing.{
  IsActive, AreSupported, initialize_validated, insert-initialize_validated,
}

-- What is assumed of asyncssh: the key that it reads is read again from its own export, which is not
-- empty.
pub record IsExporting (import_public_key : Text → Option PublicKey) : Type 0 where
  pub reads_back :
      (b : Text) (key : PublicKey)
      → import_public_key b ≡ some key
      → import_public_key key.exported ≡ some key
  pub not_empty :
      (b : Text) (key : PublicKey) → import_public_key b ≡ some key → (key.exported == []) ≡ false

module _ (import_public_key : Text → Option PublicKey) where
  -- Values that make a CA, and a request id that makes its event.
  pub record IsInitial (v : CaValues) (request_id : Text) : Type 0 where
    pub valid : IsCa import_public_key (ca_record 1 v)
    pub request : IsText request_id

  abbrev pub AreInitial : CaValues × Text → Type 0
  AreInitial (v, request_id) = IsInitial v request_id

module _ (import_public_key : Text → Option PublicKey) (now : ℤ) where
  supported_values :
      (public_key fingerprint : Value) (path : Text) (request_id : Value) (activated_at : TimeInput)
      → Ensures AreSupported (
          check_initialization import_public_key now public_key fingerprint path request_id
            activated_at)
  unfolding check_initialization Ensures
  supported_values public_key fingerprint path request_id activated_at =
      Ensures->>= AreSupported (validate_ca_public_key import_public_key public_key fingerprint) _
        λ key checked. Ensures->>= AreSupported (validate_private_key_path path) _ λ _ _.
          Ensures->>= AreSupported (timestamp now activated_at) _ λ _ _.
            Ensures->>= AreSupported (validate_text request_id _) _
              λ _ _. (validated_key import_public_key public_key fingerprint key checked).algorithm

  -- Initializing on the rows of a ledger whose CA, if it has one, is active: it registers the first CA
  -- with its event, and it changes nothing where an argument is refused or there is a CA.
  pub initialize_active_ca-refines :
      (public_key fingerprint : Value) (path : Text) (request_id : Value) (activated_at : TimeInput)
      (l : Ledger)
      → IsActive l.ca
      → let (r, l') =
          initialize_validated
            (check_initialization import_public_key now public_key fingerprint path request_id
              activated_at)
            l in
        initialize_active_ca import_public_key now public_key fingerprint path request_id
          activated_at
          (tables_of l)
        ≡ (r, tables_of l')
  unfolding initialize_active_ca
  initialize_active_ca-refines public_key fingerprint path request_id activated_at l active =
      insert-initialize_validated
        (check_initialization import_public_key now public_key fingerprint path request_id
          activated_at)
        l (supported_values public_key fingerprint path request_id activated_at) active

  kept : (path path' : Text) → validate_private_key_path path ≡ ok path' → path ≡ path'
  unfolding validate_private_key_path
  kept path path' h =
      elim (Bool-cases (contains ([] ∷ codes "." ∷ codes ".." ∷ []) (path_name path))) [
        | inl bad ↦ absurd (ground arith)
        | inr good ↦ ground arith
      ]

  pub same_path :
      (path path' : Text)
      → validate_private_key_path path ≡ ok path'
      → validate_private_key_path path' ≡ ok path'
  same_path path path' h = subst (λ p. validate_private_key_path p ≡ ok path') (kept path path' h) h

  module _ (exporting : IsExporting import_public_key) where
    pub checked-IsCa :
        (fingerprint : Value) (key : PublicKey) (path : Text) (n id : ℕ)
        → IsChecked import_public_key fingerprint key
        → validate_private_key_path path ≡ ok path
        → 0 < id
        → IsCa import_public_key (ca_record id (ca_values key (text_of fingerprint) path (pos n)))
    checked-IsCa fingerprint key path n id h valid_path first = record {
      ca_id = first;
      algorithm = h.algorithm;
      some_key = exporting.not_empty h.source key h.imported;
      some_fingerprint = h.some_fingerprint;
      imported =
          exporting.reads_back h.source key h.imported
          ∙ ap some (λ i. record {
            algorithm = h.algorithm i;
            fingerprint = h.fingerprint_is i;
            exported = key.exported;
          });
      path = valid_path;
      activated_at = (n, refl);
      status = refl;
    }

    checked_values :
        (fingerprint : Value) (key : PublicKey) (path : Text) (n : ℕ) (request_id : Text)
        → IsChecked import_public_key fingerprint key
        → validate_private_key_path path ≡ ok path
        → IsText request_id
        → IsInitial import_public_key (ca_values key (text_of fingerprint) path (pos n)) request_id
    checked_values fingerprint key path n request_id h valid_path request = record {
      valid = checked-IsCa fingerprint key path n 1 h valid_path (omega arith);
      request = request;
    }

    pub initial_values :
        (public_key fingerprint : Value) (path : Text) (request_id : Value)
        (activated_at : TimeInput) (n : ℕ)
        → timestamp now activated_at ≡ ok (pos n)
        → Ensures (AreInitial import_public_key) (
            check_initialization import_public_key now public_key fingerprint path request_id
              activated_at)
    unfolding check_initialization Ensures
    initial_values public_key fingerprint path request_id activated_at n timed =
        Ensures->>= (AreInitial import_public_key)
          (validate_ca_public_key import_public_key public_key fingerprint) _
          λ key checked.
            Ensures->>= (AreInitial import_public_key) (validate_private_key_path path) _
              λ path' path_h.
                Ensures->>= (AreInitial import_public_key) (timestamp now activated_at) _
                  λ time time_h.
                    Ensures->>= (AreInitial import_public_key) (validate_text request_id _) _
                      λ rid rid_h.
                        subst
                          (λ t.
                            IsInitial import_public_key
                              (ca_values key (text_of fingerprint) path' t) rid)
                          (ok-injective (sym timed ∙ time_h))
                          (checked_values fingerprint key path' n rid
                            (validated_key import_public_key public_key fingerprint key checked)
                            (same_path path path' path_h) (texted request_id _ rid rid_h))
