-- ===== src/State/Records.antt =====
-- The records of src/ski/state.py, and how its rows are read into them. `asyncssh`'s import of a
-- public key is a parameter; a path is the text of a normalised path.
use server_key_injection.Base.{
  ℕ, Bool, true, false, not, ◌||◌, Option, none, some, List, [], ◌∷◌, Result, ok, err, ◌>>=◌, ◌>>◌,
  raise_if, contains, map, if◌then◌else◌, ◌==◌, nat_eq, list_eq,
}
use server_key_injection.Base.Int.{ℤ, pos, ◌-ℤ◌, int_eq}
use server_key_injection.Base.Text.{Text, codes}
use server_key_injection.Base.Decimal.{read_int}
use server_key_injection.Policy.{ordinary_certificate_lifetime}
use server_key_injection.Policy.Values.{
  Value, none_value, int_value, str_value, bytes_value, tuple_value, value_eq,
}
use server_key_injection.State.Json.{loads}
use server_key_injection.State.Tables.{CaRow, CertificateRow, EventRow, ed25519, text}
use server_key_injection.State.Validation.{
  StateError, malformed, validate_text, validate_positive_id, validate_serial, validate_identity,
  validate_principals, validate_outcome,
}

pub record CaKeyRecord : Type 0 where
  pub ca_id : ℕ
  pub algorithm : Text
  pub public_key : Text
  pub fingerprint : Text
  pub private_key_path : Text
  pub activated_at : ℤ
  pub status : Text

pub record CertificateRecord : Type 0 where
  pub certificate_id : ℕ
  pub ca_id : ℕ
  pub serial : ℕ
  pub identity : Text
  pub public_key_fingerprint : Text
  pub principals : List Text
  pub valid_after : ℤ
  pub valid_before : ℤ
  pub request_id : Text
  pub outcome : Text

pub record EventRecord : Type 0 where
  pub event_id : ℕ
  pub occurred_at : ℤ
  pub kind : Text
  pub decision : Text
  pub request_id : Text
  pub identity : Option Text
  pub ca_id : Option ℕ
  pub serial : Option ℕ

-- What `asyncssh.import_public_key` gives.
pub record PublicKey : Type 0 where
  pub algorithm : Text
  pub fingerprint : Text
  pub exported : Text

-- `PurePath.name` of a normalised path: what stands behind the last slash.
abbrev path_name_from : Text → Text → Text
path_name_from name [] = name
path_name_from name (c ∷ s) = path_name_from (if c == b'/' then s else name) s

unfoldable pub path_name : Text → Text
path_name s = if s == codes "." then [] else path_name_from s s

-- `_validate_private_key_path`
unfoldable pub validate_private_key_path : Text → Result StateError Text
unfolding path_name
validate_private_key_path path =
    if contains ([] ∷ codes "." ∷ codes ".." ∷ []) (path_name path)
    then err (malformed (codes "CA private-key path is malformed"))
    else ok path

module _ (import_public_key : Text → Option PublicKey) where
  -- `_validate_ca_public_key` behind the tests of its arguments' types
  unfoldable pub check_ca_public_key : Text → Text → Result StateError PublicKey
  check_ca_public_key public_key fingerprint = elim (import_public_key public_key) [
    | none ↦ err (malformed (codes "CA public key is invalid"))
    | some key ↦ do
      raise_if (not (key.algorithm == ed25519)) (malformed (codes "CA algorithm is unsupported"))
      raise_if (not (key.fingerprint == fingerprint))
          (malformed (codes "CA fingerprint does not match public key"))
      ok key
  ]

  unfoldable pub validate_ca_public_key : Value → Value → Result StateError PublicKey
  unfolding check_ca_public_key
  validate_ca_public_key (bytes_value public_key) (str_value fingerprint) = do
    raise_if (public_key == []) (malformed (codes "CA public key is malformed"))
    raise_if (fingerprint == []) (malformed (codes "CA fingerprint is malformed"))
    check_ca_public_key public_key fingerprint
  validate_ca_public_key (bytes_value public_key) _ = do
    raise_if (public_key == []) (malformed (codes "CA public key is malformed"))
    err (malformed (codes "CA fingerprint is malformed"))
  validate_ca_public_key _ _ = err (malformed (codes "CA public key is malformed"))

  abbrev is_bytes : Value → Bool
  is_bytes (bytes_value _) = true
  is_bytes _ = false

  abbrev as_text : Value → Text → Result StateError Text
  as_text (str_value s) error = ok s
  as_text _ error = err (malformed error)

  abbrev as_time : Value → Text → Result StateError ℤ
  as_time (int_value (pos n)) error = ok (pos n)
  as_time _ error = err (malformed error)

  abbrev as_status : Value → Result StateError Text
  as_status (str_value s) =
      if s == codes "active" || s == codes "retired"
      then ok s
      else err (malformed (codes "CA record status is malformed"))
  as_status _ = err (malformed (codes "CA record status is malformed"))

  -- `_ca_record_from_row`
  unfoldable pub ca_record_from_row : CaRow → Result StateError CaKeyRecord
  unfolding validate_ca_public_key validate_private_key_path
  ca_record_from_row row = do
    raise_if (row.ca_id == 0) (malformed (codes "CA record id is malformed"))
    raise_if (not (row.algorithm == text ed25519))
        (malformed (codes "CA record algorithm is unsupported"))
    raise_if (not (is_bytes row.public_key)) (malformed (codes "CA record public key is malformed"))
    fingerprint ← as_text row.fingerprint (codes "CA record metadata is malformed")
    path ← as_text row.private_key_path (codes "CA record metadata is malformed")
    activated_at ← as_time row.activated_at (codes "CA activation time is malformed")
    status ← as_status row.status
    key ← validate_ca_public_key row.public_key (str_value fingerprint)
    private_key_path ← validate_private_key_path path
    ok (record {
      ca_id = row.ca_id;
      algorithm = ed25519;
      public_key = key.exported;
      fingerprint = fingerprint;
      private_key_path = private_key_path;
      activated_at = activated_at;
      status = status;
    })

-- `_validate_serial(int(serial))` of a TEXT column
unfoldable pub read_serial : Value → Text → Result StateError ℕ
unfolding validate_serial
read_serial (str_value s) error = elim (read_int s) [
  | none ↦ err (malformed error)
  | some n ↦ validate_serial (int_value n)
]
read_serial _ error = err (malformed error)

-- `_validate_principals(tuple(json.loads(principals)))`
unfoldable pub read_principals : Value → Result StateError (List Text)
unfolding validate_principals
read_principals (str_value s) = elim (loads s) [
  | none ↦ err (malformed (codes "certificate principals are malformed"))
  | some ps ↦ validate_principals (tuple_value (map str_value ps))
]
read_principals _ = err (malformed (codes "certificate principals are malformed"))

unfoldable pub read_interval : Value → Value → Result StateError (ℤ × ℤ)
read_interval (int_value after) (int_value before) =
    if (before -ℤ after) == pos ordinary_certificate_lifetime
    then ok (after, before)
    else err (malformed (codes "certificate validity interval is not 25 hours"))
read_interval _ _ = err (malformed (codes "certificate validity is malformed"))

-- `_certificate_record_from_row`
unfoldable pub certificate_record_from_row : CertificateRow → Result StateError CertificateRecord
unfolding read_serial read_principals read_interval validate_positive_id validate_identity
    validate_text validate_outcome
certificate_record_from_row row = do
  raise_if (row.certificate_id == 0) (malformed (codes "certificate id is malformed"))
  ca_id ← validate_positive_id row.ca_id
  serial ← read_serial row.serial (codes "certificate serial is malformed")
  identity ← validate_identity row.identity
  fingerprint ←
      validate_text row.public_key_fingerprint (codes "public key fingerprint is malformed")
  principals ← read_principals row.principals
  (valid_after, valid_before) ← read_interval row.valid_after row.valid_before
  request_id ← validate_text row.request_id (codes "request id is malformed")
  outcome ← validate_outcome row.outcome
  ok (record {
    certificate_id = row.certificate_id;
    ca_id = ca_id;
    serial = serial;
    identity = identity;
    public_key_fingerprint = fingerprint;
    principals = principals;
    valid_after = valid_after;
    valid_before = valid_before;
    request_id = request_id;
    outcome = outcome;
  })

-- A column that may be NULL.
abbrev pub unless_null :
    {A : Type 0} → Value → (Value → Result StateError A) → Result StateError (Option A)
unless_null none_value f = ok none
unless_null v f = f v >>= λ a. ok (some a)

abbrev event_time : Value → Result StateError ℤ
event_time (int_value (pos n)) = ok (pos n)
event_time _ = err (malformed (codes "event time is malformed"))

-- `_event_record_from_row`
unfoldable pub event_record_from_row : EventRow → Result StateError EventRecord
unfolding read_serial validate_positive_id validate_identity validate_text
event_record_from_row row = do
  raise_if (row.event_id == 0) (malformed (codes "event id is malformed"))
  occurred_at ← event_time row.occurred_at
  kind ← validate_text row.kind (codes "event kind is malformed")
  decision ← validate_text row.decision (codes "event decision is malformed")
  request_id ← validate_text row.request_id (codes "request id is malformed")
  identity ← unless_null row.identity validate_identity
  ca_id ← unless_null row.ca_id validate_positive_id
  serial ← unless_null row.serial (λ v. read_serial v (codes "event serial is malformed"))
  ok (record {
    event_id = row.event_id;
    occurred_at = occurred_at;
    kind = kind;
    decision = decision;
    request_id = request_id;
    identity = identity;
    ca_id = ca_id;
    serial = serial;
  })
