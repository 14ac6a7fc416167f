-- ===== src/State/Validation.antt =====
-- The validators of src/ski/state.py on the objects that a caller passes or a row holds.
use server_key_injection.Base.{
  ℕ, suc, ◌-◌, ◌^◌, ◌||◌, List, [], Result, ok, err, ◌>>=◌, map_err, contains, leb, if◌then◌else◌,
  ◌==◌, nat_eq, list_eq,
}
use server_key_injection.Base.Int.{ℤ, pos, negsuc, ◌-ℤ◌, int_eq}
use server_key_injection.Base.Text.{Text, codes}
use server_key_injection.Policy.Values.{Value, int_value, str_value, Object}
use server_key_injection.Policy
use server_key_injection.Policy.{PolicyError, message, ordinary_certificate_lifetime}
use server_key_injection.State.Json.{dumps}
use server_key_injection.State.Tables.{CertificateValues}

-- `StateError` and its subclasses, with the message.
pub data StateError : Type 0 where
  state_error duplicate_certificate_serial state_ownership unsupported_schema : Text → StateError

abbrev pub malformed : Text → StateError
malformed m = state_error m

-- What `_timestamp` is given: `float_time` holds `int(value)` of a float, and `aware` the seconds of
-- a datetime with a timezone.
pub data TimeInput : Type 0 where
  absent naive bool_time other_time : TimeInput
  int_time float_time aware : ℤ → TimeInput

abbrev counted : ℤ → Result StateError ℤ
counted (pos n) = ok (pos n)
counted (negsuc n) = err (malformed (codes "timestamp is malformed"))

-- `_timestamp`, at the clock's time `now`
unfoldable pub timestamp : ℤ → TimeInput → Result StateError ℤ
timestamp now absent = ok now
timestamp now (aware seconds) = ok seconds
timestamp now naive = err (malformed (codes "timestamp must include a timezone"))
timestamp now bool_time = err (malformed (codes "timestamp is malformed"))
timestamp now other_time = err (malformed (codes "timestamp is malformed"))
timestamp now (int_time t) = counted t
timestamp now (float_time t) = counted t

-- `_validate_text`; the error is `f"{label} is malformed"`
unfoldable pub validate_text : Value → Text → Result StateError Text
validate_text (str_value s) error = if s == [] || contains s 0 then err (malformed error) else ok s
validate_text _ error = err (malformed error)

-- `_validate_positive_id`
unfoldable pub validate_positive_id : Value → Result StateError ℕ
validate_positive_id (int_value (pos (suc n))) = ok (suc n)
validate_positive_id _ = err (malformed (codes "ca_id is malformed"))

abbrev pub serial_max : ℕ
serial_max = 2 ^ 64 - 1

-- `_validate_serial`
unfoldable pub validate_serial : Value → Result StateError ℕ
validate_serial (int_value (pos n)) =
    if leb n serial_max
    then ok n
    else err (malformed (codes "certificate serial is outside the 64-bit range"))
validate_serial (int_value (negsuc n)) =
    err (malformed (codes "certificate serial is outside the 64-bit range"))
validate_serial _ = err (malformed (codes "certificate serial is malformed"))

-- `_validate_identity`
unfoldable pub validate_identity : Value → Result StateError Text
validate_identity value =
    map_err (λ _. malformed (codes "identity is not canonical")) (Policy.validate_username value)

-- `_validate_principals`
unfoldable pub validate_principals : Object → Result StateError (List Text)
validate_principals value = map_err (λ e. malformed (message e)) (Policy.validate_principals value)

-- `_validate_outcome`
unfoldable pub validate_outcome : Value → Result StateError Text
validate_outcome (str_value s) =
    if s == codes "success" || s == codes "failed"
    then ok s
    else err (malformed (codes "certificate outcome is malformed"))
validate_outcome _ = err (malformed (codes "certificate outcome is malformed"))

-- The test of the validity interval, on two ints that are no bools.
unfoldable pub validate_interval : Value → Value → Result StateError (ℤ × ℤ)
validate_interval (int_value after) (int_value before) =
    if (before -ℤ after) == pos ordinary_certificate_lifetime
    then ok (after, before)
    else err (malformed (codes "certificate validity interval is not 25 hours"))
validate_interval _ _ = err (malformed (codes "certificate validity interval is not 25 hours"))

-- The arguments of `record_certificate`.
pub record CertificateFields : Type 0 where
  pub ca_id : Value
  pub serial : Value
  pub identity : Value
  pub public_key_fingerprint : Value
  pub principals : Object
  pub valid_after : Value
  pub valid_before : Value
  pub request_id : Value

-- `_validated_certificate_fields`: the principals, and what is inserted.
unfoldable pub validated_certificate_fields :
    CertificateFields → Value → Result StateError (List Text × CertificateValues)
unfolding validate_text validate_positive_id validate_serial validate_identity validate_principals
    validate_interval validate_outcome
validated_certificate_fields f outcome = do
  ca_id ← validate_positive_id f.ca_id
  serial ← validate_serial f.serial
  identity ← validate_identity f.identity
  fingerprint ← validate_text f.public_key_fingerprint (codes "public key fingerprint is malformed")
  principals ← validate_principals f.principals
  (valid_after, valid_before) ← validate_interval f.valid_after f.valid_before
  request_id ← validate_text f.request_id (codes "request id is malformed")
  outcome ← validate_outcome outcome
  ok (
    principals,
    record {
      ca_id = ca_id;
      serial = serial;
      identity = identity;
      public_key_fingerprint = fingerprint;
      encoded_principals = dumps principals;
      valid_after = valid_after;
      valid_before = valid_before;
      request_id = request_id;
      outcome = outcome;
    },
  )
