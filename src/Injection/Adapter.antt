-- ===== src/Injection/Adapter.antt =====
-- `AsyncSSHAgentAdapter` of src/ski/injection.py: which agent entries belong to the issuer, and how a
-- credential comes into the agent and out of it. The agent itself is a parameter.
use server_key_injection.Base.{
  ℕ, ◌+◌, Bool, true, false, ◌&&◌, Option, none, some, List, [], ◌∷◌, ◌++◌, ok, err, filter, length,
  ◌==◌, nat_eq, list_eq, option_eq,
}
use server_key_injection.Base.Int.{ℤ, pos, negsuc}
use server_key_injection.Base.Text.{Text, codes}
use server_key_injection.Base.Decimal.{print_ℕ}
use server_key_injection.Policy.Values.{
  Value, bool_value, int_value, str_value, tuple_value, value_eq,
}
use server_key_injection.Policy.{validate_principals}
use server_key_injection.State.Exec.{Run}
use server_key_injection.State.Records.{CaKeyRecord}
use server_key_injection.Issuance.{IdentitySnapshot, OrdinaryIdentity}

-- What `_is_owned` reads of an entry's certificate: an attribute that is missing is `none_value`, and
-- the signing key is its fingerprint.
pub record CertificateView : Type 0 where
  pub serial : Value
  pub key_id : Value
  pub signing_key : Option Text
  pub principals : List Value

pub record PairView : Type 0 where
  pub certificate : Option CertificateView
  pub comment : Option Text

-- asyncssh's client of a forwarded agent, whose state is `W`; an error is the name of its class.
pub record Agent (W Pair Key Certificate : Type 0) : Type 0 where
  pub connect : Run W Text (Unit {0})
  pub get_keys : Run W Text (List Pair)
  pub get_keys_of : Text → Run W Text (List Pair)
  pub remove_keys : List Pair → Run W Text (Unit {0})
  pub add_keys : Key → Certificate → ℤ → Run W Text (Unit {0})
  -- what the attributes of an entry hold, where reading them raises nothing
  pub view : Pair → Option PairView
  pub public_data : Key → Text
  pub certificate_data : Certificate → Text

-- `AgentCleanupOutcome`
pub record AgentCleanupOutcome : Type 0 where
  pub removed : ℕ
  pub error_codes : List Text

abbrev pub complete : AgentCleanupOutcome → Bool
complete outcome = outcome.error_codes == []

-- `f"{serial}"` of an int, where it is one
unfoldable pub print_serial : Value → Option Text
print_serial (int_value (pos n)) = some (print_ℕ n)
print_serial (int_value (negsuc n)) = some (45 ∷ print_ℕ (n + 1))
print_serial (bool_value true) = some (codes "True")
print_serial (bool_value false) = some (codes "False")
print_serial _ = none

abbrev pub first_is : List Text → Text → Bool
first_is [] username = false
first_is (p ∷ ps) username = p == username

-- The tests of `_is_owned` on a certificate and a comment.
unfoldable pub owned_view : CaKeyRecord → IdentitySnapshot → CertificateView → Text → Bool
unfolding print_serial
owned_view active_ca identity certificate comment =
    elim (validate_principals (tuple_value certificate.principals)) [
      | err _ ↦ false
      | ok principals ↦ elim (print_serial certificate.serial) [
        | none ↦ false
        | some serial ↦
            certificate.key_id == str_value identity.username
            && certificate.signing_key == some active_ca.fingerprint
            && first_is principals identity.username
            && comment
              == codes "ski:"
                ++ identity.username
                ++ codes ":"
                ++ active_ca.fingerprint
                ++ codes ":"
                ++ serial
      ]
    ]

abbrev pub view_owned : CaKeyRecord → IdentitySnapshot → Option PairView → Bool
view_owned active_ca identity none = false
view_owned active_ca identity (some view) = elim view.certificate [
  | none ↦ false
  | some certificate ↦ elim view.comment [
    | none ↦ false
    | some comment ↦ owned_view active_ca identity certificate comment
  ]
]

module _ {W Pair Key Certificate : Type 0} (agent : Agent W Pair Key Certificate) where
  -- `_is_owned`
  unfoldable pub is_owned : CaKeyRecord → IdentitySnapshot → Pair → Bool
  unfolding owned_view
  is_owned active_ca identity pair = view_owned active_ca identity (agent.view pair)

  -- `owned_keys`
  unfoldable pub owned_keys : CaKeyRecord → IdentitySnapshot → Run W Text (List Pair)
  unfolding is_owned
  owned_keys active_ca identity w =
      let (r, w') = agent.get_keys w in
      elim r [
        | err name ↦ (err name, w')
        | ok keys ↦ (ok (filter (is_owned active_ca identity) keys), w')
      ]

  -- `remove_keys`
  unfoldable pub remove_owned : List Pair → Run W Text (Unit {0})
  remove_owned [] w = (ok tt, w)
  remove_owned (pair ∷ pairs) w = agent.remove_keys (pair ∷ pairs) w

  -- `add_credential`
  unfoldable pub add_credential : OrdinaryIdentity Key Certificate → ℤ → Run W Text (Unit {0})
  add_credential credential lifetime =
      agent.add_keys credential.private_key credential.certificate lifetime

  -- The removal of the entries under one blob: their number.
  unfoldable pub remove_blob : Text → Run W Text ℕ
  remove_blob blob w =
      let (r, w') = agent.get_keys_of blob w in
      elim r [
        | err name ↦ (err name, w')
        | ok [] ↦ (ok 0, w')
        | ok (pair ∷ pairs) ↦
            let (removal, w'') = agent.remove_keys (pair ∷ pairs) w' in
            elim removal [ err name ↦ (err name, w'') | ok _ ↦ (ok (length (pair ∷ pairs)), w'') ]
      ]

  -- One turn of the loop of `remove_credential`.
  abbrev cleanup_step : Text → AgentCleanupOutcome × W → AgentCleanupOutcome × W
  cleanup_step blob (outcome, w) =
      let (r, w') = remove_blob blob w in
      elim r [
        | ok n ↦ (record outcome { removed = outcome.removed + n }, w')
        | err name ↦ (record outcome { error_codes = outcome.error_codes ++ name ∷ [] }, w')
      ]

  unfoldable pub remove_credential : OrdinaryIdentity Key Certificate → W → AgentCleanupOutcome × W
  unfolding remove_blob
  remove_credential credential w = cleanup_step (agent.certificate_data credential.certificate) (
      cleanup_step (agent.public_data credential.private_key)
        (record { removed = 0; error_codes = [] }, w))
