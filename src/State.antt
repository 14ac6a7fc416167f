-- ===== src/State.antt =====
-- src/ski/state.py: the operations on CA keys and certificates of `StateDatabase` over the tables.
pub mod Exec
pub mod Tables
pub mod Json
pub mod Validation
pub mod Records
pub mod Events
pub mod Verify
pub mod Rows
pub mod Ledger
pub mod Refinement
pub mod Sound
pub mod Validated
pub mod Issuing
pub mod Checked
pub mod Initializing
pub mod Founding
pub mod Founded
pub mod Recording
pub mod Recorded
pub mod Reachable
pub mod Atomic
pub mod Inserted
pub mod Readback
pub mod Reread
use server_key_injection.Base.{
  ◌>>=◌ as ◌>>=ʳ◌, ℕ, zero, suc, ◌<◌, Bool, true, false, not, ◌&&◌, ◌||◌, Option, none, some, List,
  [], ◌∷◌, Result, ok, err, map, all, filter, take, length, contains, distinct, to_set, leb, ltb,
  lex_le, if◌then◌else◌, Eq, ◌==◌, nat_eq, list_eq, option_eq, pair_eq, traverse, nat_beq,
}
use server_key_injection.Base.Int.{ℤ, pos, leb_ℤ, ltb_ℤ, int_beq}
use server_key_injection.Base.Text.{Text, codes}
use server_key_injection.Base.Decimal.{print_ℕ}
use server_key_injection.Policy.Values.{
  Value, none_value, bool_value, int_value, str_value, bytes_value, other_value, Object, value_eq,
}
use Exec.{Run, pure, raise, lift, gets, convert, ◌>>=◌, ◌>>◌}
use Tables.{
  CaRow, CertificateRow, EventRow, CaTables, SqlError, CaValues, CertificateValues, text, active,
  insert_ca, insert_ca_with_event, insert_certificate, insert_event, ed25519,
}
use Validation.{
  StateError, malformed, state_error, duplicate_certificate_serial, TimeInput, timestamp,
  validate_text, validate_positive_id, validate_serial, validate_identity, CertificateFields,
  validated_certificate_fields,
}
use Records.{
  CaKeyRecord, CertificateRecord, EventRecord, PublicKey, validate_ca_public_key,
  validate_private_key_path, ca_record_from_row, certificate_record_from_row, event_record_from_row,
  unless_null,
}

abbrev pub State : Type 0 → Type 0
State = Run CaTables StateError

abbrev pub already_registered : SqlError → StateError
already_registered _ = state_error (codes "an active CA is already registered")

abbrev pub already_recorded : SqlError → StateError
already_recorded _ = duplicate_certificate_serial (codes "certificate serial is already recorded")

abbrev pub event_not_recorded : SqlError → StateError
event_not_recorded _ = state_error (codes "event could not be recorded")

abbrev pub ca_values : PublicKey → Text → Text → ℤ → CaValues
ca_values key fingerprint path activated_at = record {
  algorithm = key.algorithm;
  public_key = key.exported;
  fingerprint = fingerprint;
  private_key_path = path;
  activated_at = activated_at;
}

abbrev pub ca_record : ℕ → CaValues → CaKeyRecord
ca_record ca_id v = record {
  ca_id = ca_id;
  algorithm = v.algorithm;
  public_key = v.public_key;
  fingerprint = v.fingerprint;
  private_key_path = v.private_key_path;
  activated_at = v.activated_at;
  status = codes "active";
}

abbrev pub text_of : Value → Text
text_of (str_value s) = s
text_of _ = []

-- ORDER BY activated_at, ca_id. NULL stands before numbers, these before texts, these before blobs.
abbrev pub storage_class : Value → ℕ
storage_class none_value = 0
storage_class (bool_value _) = 1
storage_class (int_value _) = 1
storage_class other_value = 1
storage_class (str_value _) = 2
storage_class (bytes_value _) = 3

unfoldable pub value_lt : Value → Value → Bool
value_lt (int_value a) (int_value b) = ltb_ℤ a b
value_lt (str_value a) (str_value b) = lex_le a b && not (a == b)
value_lt (bytes_value a) (bytes_value b) = lex_le a b && not (a == b)
value_lt a b = ltb (storage_class a) (storage_class b)

unfoldable pub insert_by_activation : CaRow → List CaRow → List CaRow
unfolding value_lt
insert_by_activation row [] = row ∷ []
insert_by_activation row (r ∷ rows) =
    if value_lt row.activated_at r.activated_at
      || (row.activated_at == r.activated_at && leb row.ca_id r.ca_id)
    then row ∷ r ∷ rows
    else r ∷ insert_by_activation row rows

-- `ca_rows`
unfoldable pub ca_rows : List CaRow → List CaRow
unfolding insert_by_activation
ca_rows [] = []
ca_rows (row ∷ rows) = insert_by_activation row (ca_rows rows)

-- `active_ca_row`
unfoldable pub active_ca_row : List CaRow → Option CaRow
active_ca_row [] = none
active_ca_row (row ∷ rows) = if row.status == active then some row else active_ca_row rows

module _ (import_public_key : Text → Option PublicKey) (now : ℤ) where
  -- `register_active_ca`
  unfoldable pub register_active_ca : Value → Value → Text → TimeInput → State CaKeyRecord
  register_active_ca public_key fingerprint private_key_path activated_at = do
    key ← lift (validate_ca_public_key import_public_key public_key fingerprint)
    path ← lift (validate_private_key_path private_key_path)
    time ← lift (timestamp now activated_at)
    let v = ca_values key (text_of fingerprint) path time
    ca_id ← convert already_registered (insert_ca v)
    pure (ca_record ca_id v)

  -- The checks of `initialize_active_ca`: what is inserted, and the request id.
  unfoldable pub check_initialization :
      Value → Value → Text → Value → TimeInput → Result StateError (CaValues × Text)
  check_initialization public_key fingerprint private_key_path request_id activated_at =
      validate_ca_public_key import_public_key public_key fingerprint >>=ʳ λ key.
      validate_private_key_path private_key_path >>=ʳ λ path.
      timestamp now activated_at >>=ʳ λ time.
      validate_text request_id (codes "request id is malformed") >>=ʳ λ checked_request_id.
      ok (ca_values key (text_of fingerprint) path time, checked_request_id)

  -- `initialize_active_ca`
  unfoldable pub initialize_active_ca : Value → Value → Text → Value → TimeInput → State CaKeyRecord
  unfolding check_initialization
  initialize_active_ca public_key fingerprint private_key_path request_id activated_at = do
    (v, request_id) ←
        lift (check_initialization public_key fingerprint private_key_path request_id activated_at)
    ca_id ← convert already_registered (insert_ca_with_event v request_id)
    pure (ca_record ca_id v)

module _ (import_public_key : Text → Option PublicKey) where
  unfoldable pub get_active_ca : State (Option CaKeyRecord)
  unfolding active_ca_row
  get_active_ca t = elim (active_ca_row t.ca_keys) [
    | none ↦ (ok none, t)
    | some row ↦ (do ca ← lift (ca_record_from_row import_public_key row); pure (some ca)) t
  ]

  unfoldable pub list_ca_keys : State (List CaKeyRecord)
  unfolding ca_rows
  list_ca_keys t = (traverse (ca_record_from_row import_public_key) (ca_rows t.ca_keys), t)

abbrev pub certificate_record : ℕ → List Text → CertificateValues → CertificateRecord
certificate_record certificate_id principals v = record {
  certificate_id = certificate_id;
  ca_id = v.ca_id;
  serial = v.serial;
  identity = v.identity;
  public_key_fingerprint = v.public_key_fingerprint;
  principals = principals;
  valid_after = v.valid_after;
  valid_before = v.valid_before;
  request_id = v.request_id;
  outcome = v.outcome;
}

-- The common part of the two operations that record a certificate.
unfoldable pub insert_validated : Bool → CertificateFields → Value → State CertificateRecord
insert_validated record_event f outcome = do
  (principals, v) ← lift (validated_certificate_fields f outcome)
  certificate_id ← convert already_recorded (insert_certificate record_event v)
  pure (certificate_record certificate_id principals v)

unfoldable pub record_certificate : CertificateFields → Value → State CertificateRecord
record_certificate f outcome = insert_validated false f outcome

unfoldable pub record_certificate_with_event : CertificateFields → State CertificateRecord
record_certificate_with_event f = insert_validated true f (str_value (codes "success"))

unfoldable pub list_certificates : State (List CertificateRecord)
list_certificates t = (traverse certificate_record_from_row t.certificates, t)
