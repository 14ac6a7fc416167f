-- ===== src/Issuance.antt =====
-- src/ski/credentials.py: ordinary certificates, and the evidence of their issuance in the state.
pub mod Laws
use server_key_injection.Base.{
  ℕ, ◌+◌, ◌^◌, Bool, true, false, not, ◌&&◌, ◌||◌, Option, none, some, List, [], ◌∷◌, ◌++◌, map,
  Result, ok, err, ◌>>=◌, ◌>>◌, raise_if, map_err, all, contains, distinct, leb, ltb, if◌then◌else◌,
  Eq, ◌==◌, nat_eq, list_eq,
}
use server_key_injection.Base.Int.{ℤ, pos, negsuc, ◌+ℤ◌}
use server_key_injection.Base.Text.{Text, codes}
use server_key_injection.Base.Decimal.{print_ℕ}
use server_key_injection.Policy.Values.{Value, none_value, str_value, int_value, tuple_value}
use server_key_injection.Policy.{
  PolicyError, build_principals, ordinary_certificate_lifetime, ordinary_certificate_extensions,
}
use server_key_injection.State.Exec.{Run}
use server_key_injection.State.Tables.{CaTables}
use server_key_injection.State.Validation.{
  StateError, state_error, duplicate_certificate_serial, state_ownership, unsupported_schema,
  CertificateFields, TimeInput, absent,
}
use server_key_injection.State.Records.{CaKeyRecord, CertificateRecord, EventRecord}
use server_key_injection.State.{State, record_certificate_with_event}
use server_key_injection.State.Events.{record_event, EventFields}

-- `IdentitySnapshot` of identities.py.
pub record IdentitySnapshot : Type 0 where
  pub username : Text
  pub groups : List Text

-- The arguments of asyncssh's `generate_user_certificate`.
pub record CertificateRequest (Key : Type 0) : Type 0 where
  pub user_key : Key
  pub key_id : Text
  pub serial : ℕ
  pub principals : List Text
  pub valid_after : ℤ
  pub valid_before : ℤ
  pub permit_x11_forwarding : Bool
  pub permit_agent_forwarding : Bool
  pub permit_port_forwarding : Bool
  pub permit_pty : Bool
  pub permit_user_rc : Bool
  pub touch_required : Bool
  pub comment : Text

-- `OrdinaryIdentity`
pub record OrdinaryIdentity (Key Certificate : Type 0) : Type 0 where
  pub private_key : Key
  pub certificate : Certificate
  pub key_id : Text
  pub principals : List Text
  pub serial : ℕ
  pub valid_after : ℤ
  pub valid_before : ℤ
  pub comment : Text

-- `OrdinaryCertificateFactory`, behind the check of its extensions.
pub record Factory : Type 0 where
  pub active_ca : CaKeyRecord
  pub extensions : List Text

unfoldable pub make_factory : CaKeyRecord → List Text → Result StateError Factory
make_factory active_ca extensions = do
  raise_if
      (not (all (contains ordinary_certificate_extensions) extensions) || not (distinct extensions))
      (state_error (codes "ordinary certificate extensions are malformed"))
  ok (record { active_ca = active_ca; extensions = extensions })

-- `f"ski:{username}:{fingerprint}:{serial}"`, the comment of a key and the mark of ownership.
unfoldable pub marker : Text → Text → ℕ → Text
marker username fingerprint serial =
    codes "ski:" ++ username ++ codes ":" ++ fingerprint ++ codes ":" ++ print_ℕ serial

unfoldable pub check_serial : ℤ → Result StateError ℕ
check_serial (pos n) =
    if ltb n (2 ^ 64) then ok n else err (state_error (codes "certificate serial is malformed"))
check_serial (negsuc n) = err (state_error (codes "certificate serial is malformed"))

-- What one call of `issue` takes from outside: the serial of the allocator, `int(clock())`, and the
-- key that asyncssh generates for a comment.
pub record Supply (Key : Type 0) : Type 0 where
  pub serial : ℤ
  pub time : ℤ
  pub new_key : Text → Key

module _ {Key Certificate : Type 0} (sign : CertificateRequest Key → Certificate) where
  -- `OrdinaryCertificateFactory.issue`
  unfoldable pub issue :
      Factory → Supply Key → IdentitySnapshot → Result StateError (OrdinaryIdentity Key Certificate)
  unfolding marker check_serial
  issue factory supply identity = do
    principals ←
        map_err
          (λ (e : PolicyError). state_error (codes "ordinary identity principals are malformed"))
          (build_principals (str_value identity.username) (map str_value identity.groups))
    serial ← check_serial supply.serial
    let valid_after = supply.time
    let valid_before = valid_after +ℤ pos ordinary_certificate_lifetime
    let comment = marker identity.username factory.active_ca.fingerprint serial
    let private_key = supply.new_key comment
    let certificate = sign (record {
      user_key = private_key;
      key_id = identity.username;
      serial = serial;
      principals = principals;
      valid_after = valid_after;
      valid_before = valid_before;
      permit_x11_forwarding = contains factory.extensions (codes "x11-forwarding");
      permit_agent_forwarding = contains factory.extensions (codes "agent-forwarding");
      permit_port_forwarding = contains factory.extensions (codes "port-forwarding");
      permit_pty = contains factory.extensions (codes "pty");
      permit_user_rc = contains factory.extensions (codes "user-rc");
      touch_required = true;
      comment = comment;
    })
    ok (record {
      private_key = private_key;
      certificate = certificate;
      key_id = identity.username;
      principals = principals;
      serial = serial;
      valid_after = valid_after;
      valid_before = valid_before;
      comment = comment;
    })

module _ {Key Certificate : Type 0} (fingerprint_of : Key → Text) where
  -- What `commit` passes to `record_certificate_with_event`.
  abbrev pub fields_of : CaKeyRecord → OrdinaryIdentity Key Certificate → Text → CertificateFields
  fields_of active_ca credential request_id = record {
    ca_id = int_value (pos active_ca.ca_id);
    serial = int_value (pos credential.serial);
    identity = str_value credential.key_id;
    public_key_fingerprint = str_value (fingerprint_of credential.private_key);
    principals = tuple_value (map str_value credential.principals);
    valid_after = int_value credential.valid_after;
    valid_before = int_value credential.valid_before;
    request_id = str_value request_id;
  }

  -- `OrdinaryIssuanceService.commit`
  unfoldable pub commit :
      CaKeyRecord → OrdinaryIdentity Key Certificate → Text → State CertificateRecord
  commit active_ca credential request_id =
      record_certificate_with_event (fields_of active_ca credential request_id)

-- `type(exc).__name__`
unfoldable pub class_name : StateError → Text
class_name (state_error _) = codes "StateError"
class_name (duplicate_certificate_serial _) = codes "DuplicateCertificateSerialError"
class_name (state_ownership _) = codes "StateOwnershipError"
class_name (unsupported_schema _) = codes "UnsupportedSchemaError"

-- `FailureEventOutcome`
pub record FailureEventOutcome : Type 0 where
  pub recorded : Bool
  pub error_code : Option Text

-- The event of a failed issuance.
abbrev pub failure_event : CaKeyRecord → IdentitySnapshot → Text → EventFields
failure_event active_ca identity request_id = record {
  kind = str_value (codes "certificate_failed");
  decision = str_value (codes "deny");
  request_id = str_value request_id;
  occurred_at = absent;
  identity = str_value identity.username;
  ca_id = int_value (pos active_ca.ca_id);
  serial = none_value;
}

abbrev outcome_of : Result StateError EventRecord → FailureEventOutcome
outcome_of (ok _) = record { recorded = true; error_code = none }
outcome_of (err e) = record { recorded = false; error_code = some (class_name e) }

-- `OrdinaryIssuanceService.record_failure`, at the time `now`
unfoldable pub record_failure :
    ℤ → CaKeyRecord → IdentitySnapshot → Text → CaTables → FailureEventOutcome × CaTables
unfolding class_name
record_failure now active_ca identity request_id t =
    let (r, t') = record_event now (failure_event active_ca identity request_id) t in
    (outcome_of r, t')
