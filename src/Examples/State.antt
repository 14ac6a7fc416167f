-- ===== src/Examples/State.antt =====
-- src/ski/state.py on concrete values: a CA, and certificates recorded under it.
use server_key_injection.Base.{
  ℕ, ◌≡◌, refl, true, false, Bool, Option, none, some, List, [], ◌∷◌, Result, ok, err, arith, All,
  inl, inr, ◌==◌, list_eq, nat_eq, if◌then◌else◌, contains, ◌<◌,
}
use server_key_injection.Base.Int.{ℤ, pos}
use server_key_injection.Base.Text.{Text, codes}
use server_key_injection.Policy.Values.{none_value, int_value, str_value, bytes_value, tuple_value}
use server_key_injection.State.Validation.{CertificateFields, StateError, timestamp, absent}
use server_key_injection.State.Tables.{CaTables}
use server_key_injection.State.Records.{
  CaKeyRecord, CertificateRecord, EventRecord, PublicKey, ca_record_from_row,
  certificate_record_from_row, event_record_from_row,
}
use server_key_injection.State.{
  record_certificate_with_event, initialize_active_ca, check_initialization,
}
use server_key_injection.State.Rows.{IsCa}
use server_key_injection.State.Verify.{verify_ca_state}
use server_key_injection.State.Ledger.{Ledger, tables_of, issue_certificate}
use server_key_injection.State.Refinement.{record_certificate_with_event-refines}
use server_key_injection.State.Sound.{IsSound}
use server_key_injection.State.Reachable.{
  IsReachable, reachable_verifies, started, recorded, initialized, noted, empty_ledger,
}
use server_key_injection.State.Events.{record_event, check_event, EventFields}
use server_key_injection.State.Recording.{record_validated, record_event-refines}
use server_key_injection.State.Founding.{IsExporting, initialize_active_ca-refines}
use server_key_injection.State.Initializing.{initialize_validated}
use mathlib.Core.Path.{subst}
use server_key_injection.Examples.Data.{alice, ca_fingerprint}

abbrev pub ca : CaKeyRecord
ca = record {
  ca_id = 1;
  algorithm = codes "ssh-ed25519";
  public_key = 1 ∷ 2 ∷ [];
  fingerprint = ca_fingerprint;
  private_key_path = codes "/etc/ski/ca";
  activated_at = pos 500;
  status = codes "active";
}

-- asyncssh's reader, which knows the key of the CA.
abbrev pub import_public_key : Text → Option PublicKey
import_public_key _ = some (record {
  algorithm = codes "ssh-ed25519";
  fingerprint = ca_fingerprint;
  exported = 1 ∷ 2 ∷ [];
})

pub ca_IsCa : IsCa import_public_key ca
unfolding server_key_injection.Base.list_beq
    server_key_injection.State.Records.validate_private_key_path contains
ca_IsCa = record {
  ca_id = omega arith;
  algorithm = refl;
  some_key = refl;
  some_fingerprint = refl;
  imported = refl;
  path = refl;
  activated_at = (500, refl);
  status = refl;
}

-- The ledger with the CA, and the arguments of a first certificate.
abbrev pub ledger : Ledger
ledger = record { ca = some ca; certificates = []; events = [] }

abbrev pub fields : CertificateFields
fields = record {
  ca_id = int_value (pos 1);
  serial = int_value (pos 7);
  identity = str_value alice;
  public_key_fingerprint = str_value (codes "SHA256:key");
  principals = tuple_value (str_value alice ∷ str_value (codes "group:dev") ∷ []);
  valid_after = int_value (pos 1000);
  valid_before = int_value (pos 91000);
  request_id = str_value (codes "r1");
}

ledger-IsSound : IsSound import_public_key ledger
ledger-IsSound = record {
  cas = (ca_IsCa, tt);
  certificates = tt;
  events = tt;
  known_events = tt;
  known_certificates = tt;
  distinct_keys = tt;
}

record_certificate_with_event-refines_example :
    record_certificate_with_event fields (tables_of ledger)
    ≡ ((issue_certificate fields ledger).0, tables_of (issue_certificate fields ledger).1)
record_certificate_with_event-refines_example = record_certificate_with_event-refines fields ledger

abbrev IsNotEmpty : Option PublicKey → Type 0
IsNotEmpty none = Unit
IsNotEmpty (some k) = (k.exported == []) ≡ false

pub import_public_key-IsExporting : IsExporting import_public_key
unfolding server_key_injection.Base.list_beq
import_public_key-IsExporting = record {
  reads_back = λ b key h. h;
  not_empty = λ b key h. subst (λ o. IsNotEmpty o) h refl;
}

-- The clock, and the tables after the CA is initialized at a time of the clock.
abbrev pub now : ℤ
now = pos 500

abbrev pub initialize_ca : CaTables → Result StateError CaKeyRecord × CaTables
initialize_ca =
    initialize_active_ca import_public_key now (bytes_value (1 ∷ 2 ∷ [])) (str_value ca_fingerprint)
      (codes "/etc/ski/ca") (str_value (codes "init")) absent

initialize_active_ca-refines_example : initialize_ca (tables_of empty_ledger) ≡ (
    let (r, l) =
      initialize_validated
        (check_initialization import_public_key now
          (bytes_value (1 ∷ 2 ∷ []))
          (str_value ca_fingerprint)
          (codes "/etc/ski/ca")
          (str_value (codes "init"))
          absent)
        empty_ledger in
    (r, tables_of l))
initialize_active_ca-refines_example =
    initialize_active_ca-refines import_public_key now (bytes_value (1 ∷ 2 ∷ []))
      (str_value ca_fingerprint) (codes "/etc/ski/ca") (str_value (codes "init")) absent
      empty_ledger tt

pub initialized-IsReachable :
    IsReachable import_public_key (initialize_ca (tables_of empty_ledger)).1
unfolding timestamp
initialized-IsReachable =
    initialized now (bytes_value (1 ∷ 2 ∷ [])) (str_value ca_fingerprint) (codes "/etc/ski/ca")
      (str_value (codes "init")) absent 500 (tables_of empty_ledger) refl started

-- The event of a failed issuance.
abbrev pub failure : EventFields
failure = record {
  kind = str_value (codes "certificate_failed");
  decision = str_value (codes "deny");
  request_id = str_value (codes "r2");
  occurred_at = absent;
  identity = str_value alice;
  ca_id = int_value (pos 1);
  serial = none_value;
}

record_event-refines_example : record_event now failure (tables_of ledger) ≡ (
  (record_validated (check_event now failure) ledger).0,
  tables_of (record_validated (check_event now failure) ledger).1,
)
record_event-refines_example = record_event-refines now failure ledger

-- A new database in which the CA is initialized, then a certificate is recorded, and recorded again
-- with its serial taken, and the failure is noted.
abbrev twice : CaTables
twice =
    (record_event now failure
      (record_certificate_with_event fields
        (record_certificate_with_event fields (initialize_ca (tables_of empty_ledger)).1).1).1).1

twice-IsReachable : IsReachable import_public_key twice
unfolding timestamp
twice-IsReachable =
    noted now failure 500 _ refl refl
      (recorded fields 1000 _ refl (recorded fields 1000 _ refl initialized-IsReachable))

reachable_verifies_example : verify_ca_state import_public_key (some (codes "ok")) twice ≡ ok tt
reachable_verifies_example =
    reachable_verifies import_public_key import_public_key-IsExporting twice twice-IsReachable
