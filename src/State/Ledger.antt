-- ===== src/State/Ledger.antt =====
-- What the CA state of src/ski/state.py promises: at most one CA, certificates under distinct
-- (CA, serial) keys, and an append-only list of events. `tables_of` gives the rows that hold it.
use server_key_injection.Base.{
  ℕ, Bool, false, not, ◌&&◌, Option, none, some, List, [], ◌∷◌, ◌++◌, map, Result, ok, err,
  contains, if◌then◌else◌, ◌==◌, nat_eq, list_eq, pair_eq,
}
use server_key_injection.Base.Text.{Text, codes}
use server_key_injection.Policy.Values.{str_value}
use server_key_injection.State.Tables.{CaTables, CertificateValues, integrity, next_rowid}
use server_key_injection.State.Validation.{
  StateError, CertificateFields, validated_certificate_fields,
}
use server_key_injection.State.Records.{CaKeyRecord, CertificateRecord, EventRecord}
use server_key_injection.State.{already_recorded, certificate_record}
use server_key_injection.State.Verify.{certificate_key}
use server_key_injection.State.Rows.{ca_row, certificate_row, event_row}

pub record Ledger : Type 0 where
  pub ca : Option CaKeyRecord
  pub certificates : List CertificateRecord
  pub events : List EventRecord

abbrev pub empty_ledger : Ledger
empty_ledger = record { ca = none; certificates = []; events = [] }

abbrev pub listed : {A : Type 0} → Option A → List A
listed none = []
listed (some a) = a ∷ []

abbrev pub tables_of : Ledger → CaTables
tables_of l = record {
  ca_keys = map ca_row (listed l.ca);
  certificates = map certificate_row l.certificates;
  events = map event_row l.events;
}

abbrev pub is_ca : Option CaKeyRecord → ℕ → Bool
is_ca none n = false
is_ca (some c) n = n == c.ca_id

abbrev pub next_certificate_id : Ledger → ℕ
next_certificate_id l =
    next_rowid (map (λ (c : CertificateRecord). c.certificate_id) l.certificates)

abbrev pub next_event_id : Ledger → ℕ
next_event_id l = next_rowid (map (λ (e : EventRecord). e.event_id) l.events)

-- The event of an issued certificate.
abbrev pub issued_event : ℕ → CertificateValues → EventRecord
issued_event event_id v = record {
  event_id = event_id;
  occurred_at = v.valid_after;
  kind = codes "certificate_issued";
  decision = codes "allow";
  request_id = v.request_id;
  identity = some v.identity;
  ca_id = some v.ca_id;
  serial = some v.serial;
}

-- The ledger with one more certificate and its event.
abbrev pub issue : Ledger → List Text → CertificateValues → Ledger
issue l principals v = record l {
  certificates = l.certificates ++ certificate_record (next_certificate_id l) principals v ∷ [];
  events = l.events ++ issued_event (next_event_id l) v ∷ [];
}

-- Whether the CA is known and the key is new.
abbrev pub is_issuable : Ledger → CertificateValues → Bool
is_issuable l v =
    is_ca l.ca v.ca_id && not (contains (map certificate_key l.certificates) (v.ca_id, v.serial))

-- What issuing does where validation gives `r`: both are appended, or an error changes nothing.
abbrev pub issue_validated :
    Result StateError (List Text × CertificateValues)
    → Ledger
    → Result StateError CertificateRecord × Ledger
issue_validated (err e) l = (err e, l)
issue_validated (ok (principals, v)) l =
    if is_issuable l v
    then (ok (certificate_record (next_certificate_id l) principals v), issue l principals v)
    else (err (already_recorded integrity), l)

abbrev pub issue_certificate :
    CertificateFields → Ledger → Result StateError CertificateRecord × Ledger
issue_certificate f = issue_validated (validated_certificate_fields f (str_value (codes "success")))
