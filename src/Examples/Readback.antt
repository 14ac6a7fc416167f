-- ===== src/Examples/Readback.antt =====
-- What src/ski/state.py records is read back on concrete values: a certificate, an event and a CA.
use server_key_injection.Base.{◌≡◌, refl, ok, none, some, List, [], ◌∷◌, ◌++◌, Result}
use server_key_injection.Base.Int.{pos}
use server_key_injection.Base.Text.{Text, codes}
use server_key_injection.Policy.Values.{str_value, bytes_value}
use server_key_injection.State.Tables.{CaTables}
use server_key_injection.State.Validation.{StateError, absent, timestamp}
use server_key_injection.State.Records.{CaKeyRecord, CertificateRecord, EventRecord}
use server_key_injection.State.{
  record_certificate_with_event, register_active_ca, get_active_ca, list_certificates,
}
use server_key_injection.State.Events.{record_event, list_events, no_filter}
use server_key_injection.State.Ledger.{tables_of}
use server_key_injection.State.Reachable.{empty_ledger}
use server_key_injection.State.Readback.{list_certificates-record_certificate_with_event}
use server_key_injection.State.Reread.{list_events-record_event, get_active_ca-register_active_ca}
use server_key_injection.Examples.Data.{alice, alice_principals, ca_fingerprint}
use server_key_injection.Examples.State.{
  ca, fields, failure, ledger, now, import_public_key, import_public_key-IsExporting,
}

abbrev first : CaTables
first = tables_of ledger

abbrev certificate : CertificateRecord
certificate = record {
  certificate_id = 1;
  ca_id = 1;
  serial = 7;
  identity = alice;
  public_key_fingerprint = codes "SHA256:key";
  principals = alice_principals;
  valid_after = pos 1000;
  valid_before = pos 91000;
  request_id = codes "r1";
  outcome = codes "success";
}

abbrev event : EventRecord
event = record {
  event_id = 1;
  occurred_at = pos 500;
  kind = codes "certificate_failed";
  decision = codes "deny";
  request_id = codes "r2";
  identity = some alice;
  ca_id = some 1;
  serial = none;
}

certified :
    record_certificate_with_event fields first
    ≡ (ok certificate, (record_certificate_with_event fields first).1)
unfolding record_certificate_with_event server_key_injection.State.insert_validated
    server_key_injection.State.Validation.validated_certificate_fields
    server_key_injection.Policy.validate_username server_key_injection.Policy.username_pattern
    server_key_injection.Base.all server_key_injection.Base.list_beq
    server_key_injection.Base.contains server_key_injection.Policy.validate_principals
    server_key_injection.Base.distinct server_key_injection.Policy.validate_group_principals
    server_key_injection.Policy.validate_group_name server_key_injection.Policy.group_pattern
    server_key_injection.Base.Text.remove_prefix server_key_injection.Base.Int.◌-ℤ◌
    server_key_injection.State.Tables.insert_certificate
    server_key_injection.State.Tables.insert_certificate_row
    server_key_injection.State.Tables.certificate_allowed server_key_injection.Base.Decimal.print_ℕ
    server_key_injection.Policy.Values.value_beq server_key_injection.State.Tables.event_allowed
    server_key_injection.State.Tables.insert_event_row
    server_key_injection.State.Tables.insert_issued_event
    server_key_injection.State.Tables.next_rowid
certified = refl

list_certificates-record_certificate_with_event_example :
    list_certificates (record_certificate_with_event fields first).1
    ≡ (ok ([] ++ certificate ∷ []), (record_certificate_with_event fields first).1)
unfolding list_certificates server_key_injection.Base.traverse
list_certificates-record_certificate_with_event_example =
    list_certificates-record_certificate_with_event fields 1000 first
      (record_certificate_with_event fields first).1 certificate [] refl refl certified

event_recorded : record_event now failure first ≡ (ok event, (record_event now failure first).1)
unfolding record_event server_key_injection.State.Validation.validate_text
    server_key_injection.Base.list_beq server_key_injection.Base.contains
    server_key_injection.State.Validation.validate_identity
    server_key_injection.Policy.validate_username server_key_injection.Policy.username_pattern
    server_key_injection.Base.all server_key_injection.State.Validation.validate_positive_id
    timestamp server_key_injection.State.Tables.insert_event
    server_key_injection.State.Tables.insert_event_row
    server_key_injection.State.Tables.event_allowed server_key_injection.Policy.Values.value_beq
    server_key_injection.State.Tables.next_rowid
event_recorded = refl

list_events-record_event_example :
    list_events no_filter (record_event now failure first).1
    ≡ (ok ([] ++ event ∷ []), (record_event now failure first).1)
unfolding list_events server_key_injection.Base.traverse timestamp server_key_injection.Base.filter
list_events-record_event_example =
    list_events-record_event now failure 500 first (record_event now failure first).1 event [] refl
      refl event_recorded

abbrev registered : Result StateError CaKeyRecord × CaTables
registered =
    register_active_ca import_public_key now (bytes_value (1 ∷ 2 ∷ [])) (str_value ca_fingerprint)
      (codes "/etc/ski/ca") absent (tables_of empty_ledger)

registers : registered ≡ (ok ca, registered.1)
unfolding register_active_ca server_key_injection.State.Records.validate_ca_public_key
    server_key_injection.Base.list_beq server_key_injection.State.Records.validate_private_key_path
    server_key_injection.Base.contains timestamp server_key_injection.State.Tables.insert_ca
    server_key_injection.State.Tables.insert_ca_row server_key_injection.State.Tables.ca_allowed
    server_key_injection.Policy.Values.value_beq server_key_injection.State.Tables.next_rowid
registers = refl

get_active_ca-register_active_ca_example :
    get_active_ca import_public_key registered.1 ≡ (ok (some ca), registered.1)
unfolding timestamp
get_active_ca-register_active_ca_example =
    get_active_ca-register_active_ca import_public_key now (bytes_value (1 ∷ 2 ∷ []))
      (str_value ca_fingerprint) (codes "/etc/ski/ca") absent 500 (tables_of empty_ledger)
      registered.1 ca import_public_key-IsExporting refl registers
