-- ===== src/State/Verify.antt =====
-- `verify_ca_state` of src/ski/state.py: the checks of the persisted CA state, in their order.
use server_key_injection.Base.{
  ℕ, Bool, true, false, not, ◌&&◌, Option, none, some, List, [], ◌∷◌, Result, ok, err, map, filter,
  length, contains, distinct, ltb, ◌==◌, nat_eq, list_eq, option_eq, pair_eq, ◌>>=◌, ◌>>◌, raise_if,
}
use server_key_injection.Base.Text.{Text, codes}
use server_key_injection.State.Tables.{CaTables}
use server_key_injection.State.Validation.{StateError, state_error}
use server_key_injection.State.Records.{CaKeyRecord, CertificateRecord, EventRecord, PublicKey}
use server_key_injection.State.{list_ca_keys, list_certificates}
use server_key_injection.State.Events.{no_filter}
use server_key_injection.State.Events.{list_events}

abbrev pub is_active : CaKeyRecord → Bool
is_active record_ = record_.status == codes "active"

-- (ca_id, serial) and ((ca_id, serial), (request_id, identity)) of a certificate
abbrev pub certificate_key : CertificateRecord → ℕ × ℕ
certificate_key c = (c.ca_id, c.serial)

abbrev pub full_key : CertificateRecord → (ℕ × ℕ) × (Text × Text)
full_key c = (certificate_key c, (c.request_id, c.identity))

-- The same of an event, where each may be missing but the request id.
abbrev pub EventKey : Type 0
EventKey = (Option ℕ × Option ℕ) × (Text × Option Text)

abbrev pub event_key : EventRecord → EventKey
event_key e = ((e.ca_id, e.serial), (e.request_id, e.identity))

abbrev pub issued_key : CertificateRecord → EventKey
issued_key c = ((some c.ca_id, some c.serial), (c.request_id, some c.identity))

abbrev pub is_issued : EventRecord → Bool
is_issued e = e.kind == codes "certificate_issued" && e.decision == codes "allow"

unfoldable pub knows_ca : List ℕ → Option ℕ → Bool
knows_ca ca_ids none = true
knows_ca ca_ids (some ca_id) = contains ca_ids ca_id

unfoldable pub knows_certificate : List (ℕ × ℕ) → Option ℕ → Option ℕ → Bool
knows_certificate index ca_id none = true
knows_certificate index none (some serial) = false
knows_certificate index (some ca_id) (some serial) = contains index (ca_id, serial)

-- `for event in events`
unfoldable pub check_events :
    List ℕ → List (ℕ × ℕ) → List EventRecord → Result StateError (Unit {0})
unfolding knows_ca knows_certificate
check_events ca_ids index [] = ok tt
check_events ca_ids index (e ∷ es) = do
  raise_if (not (knows_ca ca_ids e.ca_id)) (state_error (codes "event references an unknown CA"))
  raise_if (not (knows_certificate index e.ca_id e.serial))
      (state_error (codes "event references an unknown certificate"))
  check_events ca_ids index es

-- `for certificate in certificates`
unfoldable pub check_certificates :
    List ℕ → List EventKey → List CertificateRecord → Result StateError (Unit {0})
check_certificates ca_ids issued [] = ok tt
check_certificates ca_ids issued (c ∷ cs) = do
  raise_if (not (contains ca_ids c.ca_id))
      (state_error (codes "certificate references an unknown CA"))
  raise_if (c.outcome == codes "success" && not (contains issued (issued_key c)))
      (state_error (codes "certificate success event is missing"))
  check_certificates ca_ids issued cs

-- The checks on the records that have been read.
unfoldable pub check_records :
    List CaKeyRecord → List CertificateRecord → List EventRecord → Result StateError (Unit {0})
unfolding check_events check_certificates
check_records cas certificates events = do
  let ca_ids = map (λ (r : CaKeyRecord). r.ca_id) cas
  check_events ca_ids (map certificate_key certificates) events
  check_certificates ca_ids (map event_key (filter is_issued events)) certificates
  raise_if (not (distinct (map full_key certificates)))
      (state_error (codes "duplicate certificate state exists"))

-- What `PRAGMA integrity_check` gives: an error of the database, or its first row.
unfoldable pub check_integrity : Option Text → Result StateError (Unit {0})
check_integrity none = err (state_error (codes "SQLite integrity is unavailable"))
check_integrity (some row) =
    raise_if (not (row == codes "ok")) (state_error (codes "SQLite integrity check failed"))

unfoldable pub verify_ca_state :
    (Text → Option PublicKey) → Option Text → CaTables → Result StateError (Unit {0})
unfolding check_integrity check_records
verify_ca_state import_public_key integrity t = do
  check_integrity integrity
  cas ← (list_ca_keys import_public_key t).0
  raise_if (ltb 1 (length (filter is_active cas)))
      (state_error (codes "multiple active CA records exist"))
  certificates ← (list_certificates t).0
  events ← (list_events no_filter t).0
  check_records cas certificates events
