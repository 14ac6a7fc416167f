-- ===== src/State/Sound.antt =====
-- Ledgers that `verify_ca_state` of src/ski/state.py accepts.
use server_key_injection.Base.{
  ℕ, ◌≡◌, refl, Bool, true, false, ◌&&◌, Option, none, some, List, [], ◌∷◌, map, Result, ok,
  contains, filter, length, arith, ◌==◌, nat_eq, list_eq, option_eq, pair_eq, pair_beq, list_beq,
  All, IsDistinct, distinct_of_IsDistinct, traverse, ltb,
}
use server_key_injection.Base.Text.{Text, codes}
use server_key_injection.State.Tables.{EventRow}
use server_key_injection.State.Validation.{StateError}
use server_key_injection.State.Records.{
  CaKeyRecord, CertificateRecord, EventRecord, PublicKey, ca_record_from_row,
  certificate_record_from_row, event_record_from_row,
}
use server_key_injection.State.{list_ca_keys, list_certificates, ca_rows, insert_by_activation}
use server_key_injection.State.Events.{no_filter, event_passes, event_rows}
use server_key_injection.State.Events.{list_events}
use server_key_injection.State.Verify.{
  verify_ca_state, check_records, check_events, check_certificates, check_integrity, knows_ca,
  knows_certificate, certificate_key, full_key, EventKey, event_key, issued_key, is_issued,
  is_active,
}
use server_key_injection.State.Rows.{
  ca_row, certificate_row, event_row, IsCertificate, IsEvent, IsCa,
  certificate_record_from_row-certificate_row, event_record_from_row-event_row,
  ca_record_from_row-ca_row,
}
use server_key_injection.State.Ledger.{Ledger, listed, tables_of}

abbrev pub ids_of : Ledger → List ℕ
ids_of l = map (λ (r : CaKeyRecord). r.ca_id) (listed l.ca)

abbrev pub keys_of : Ledger → List (ℕ × ℕ)
keys_of l = map certificate_key l.certificates

abbrev pub issued_keys : List EventRecord → List EventKey
issued_keys events = map event_key (filter is_issued events)

-- The references of an event, and of a certificate with its success event, are known.
abbrev pub IsKnownEvent : List ℕ → List (ℕ × ℕ) → EventRecord → Type 0
IsKnownEvent ids keys e =
    (knows_ca ids e.ca_id ≡ true) × (knows_certificate keys e.ca_id e.serial ≡ true)

abbrev pub IsKnownCertificate : List ℕ → List EventKey → CertificateRecord → Type 0
IsKnownCertificate ids issued c =
    (contains ids c.ca_id ≡ true) × (contains issued (issued_key c) ≡ true)

pub record IsSound (import_public_key : Text → Option PublicKey) (l : Ledger) : Type 0 where
  pub cas : All (IsCa import_public_key) (listed l.ca)
  pub certificates : All IsCertificate l.certificates
  pub events : All IsEvent l.events
  pub known_events : All (IsKnownEvent (ids_of l) (keys_of l)) l.events
  pub known_certificates : All (IsKnownCertificate (ids_of l) (issued_keys l.events)) l.certificates
  pub distinct_keys : IsDistinct (keys_of l)

-- Rows that read back, read back together.
pub traverse-All :
    {A B : Type 0} (P : A → Type 0) (encode : A → B) (read : B → Result StateError A)
    → ((a : A) → P a → read (encode a) ≡ ok a)
    → (xs : List A) → All P xs
    → traverse read (map encode xs) ≡ ok xs
unfolding traverse
traverse-All P encode read h [] ps = refl
traverse-All P encode read h (x ∷ xs) ps = rw (h x ps.0, traverse-All P encode read h xs ps.1)

pub filter_every :
    {A : Type 0} (p : A → Bool) (xs : List A) → ((a : A) → p a ≡ true) → filter p xs ≡ xs
unfolding filter
filter_every p [] h = refl
filter_every p (x ∷ xs) h = rw (h x, filter_every p xs h)

pub passes_no_filter : (row : EventRow) → event_passes no_filter row ≡ true
unfolding event_passes
passes_no_filter row = refl

check_events-known :
    (ids : List ℕ) (keys : List (ℕ × ℕ)) (es : List EventRecord)
    → All (IsKnownEvent ids keys) es
    → check_events ids keys es ≡ ok tt
unfolding check_events
check_events-known ids keys [] h = refl
check_events-known ids keys (e ∷ es) h = rw (h.0.0, h.0.1, check_events-known ids keys es h.1)

&&_false : (b : Bool) → (b && false) ≡ false
&&_false true = refl
&&_false false = refl

check_certificates-known :
    (ids : List ℕ) (issued : List EventKey) (cs : List CertificateRecord)
    → All (IsKnownCertificate ids issued) cs
    → check_certificates ids issued cs ≡ ok tt
unfolding check_certificates
check_certificates-known ids issued [] h = refl
check_certificates-known ids issued (c ∷ cs) h = rw (
  h.0.0,
  h.0.1,
  &&_false (c.outcome == codes "success"),
  check_certificates-known ids issued cs h.1,
)

-- A full key that is there has its (CA, serial) there.
full_key-contains :
    (cs : List CertificateRecord) (c : CertificateRecord)
    → contains (map certificate_key cs) (certificate_key c) ≡ false
    → contains (map full_key cs) (full_key c) ≡ false
unfolding contains pair_beq
full_key-contains [] c h = refl
full_key-contains (d ∷ cs) c h = ground (arith, full_key-contains cs c)

full_key-IsDistinct :
    (cs : List CertificateRecord)
    → IsDistinct (map certificate_key cs)
    → IsDistinct (map full_key cs)
full_key-IsDistinct [] h = tt
full_key-IsDistinct (c ∷ cs) h = (full_key-contains cs c h.0, full_key-IsDistinct cs h.1)

one_active : (o : Option CaKeyRecord) → ltb 1 (length (filter is_active (listed o))) ≡ false
unfolding filter
one_active none = ground arith
one_active (some c) = ground arith

module _ (import_public_key : Text → Option PublicKey) where
  read_listed :
      (o : Option CaKeyRecord)
      → All (IsCa import_public_key) (listed o)
      → traverse (ca_record_from_row import_public_key) (ca_rows (map ca_row (listed o)))
        ≡ ok (listed o)
  unfolding ca_rows insert_by_activation traverse
  read_listed none h = refl
  read_listed (some c) h = rw (ca_record_from_row-ca_row import_public_key c h.0)

  list_ca_keys-listed :
      (l : Ledger)
      → All (IsCa import_public_key) (listed l.ca)
      → (list_ca_keys import_public_key (tables_of l)).0 ≡ ok (listed l.ca)
  unfolding list_ca_keys
  list_ca_keys-listed l h = read_listed l.ca h

  -- The check of the state accepts the rows of a sound ledger.
  pub verify_ca_state-IsSound :
      (l : Ledger)
      → IsSound import_public_key l
      → verify_ca_state import_public_key (some (codes "ok")) (tables_of l) ≡ ok tt
  unfolding verify_ca_state check_integrity list_certificates list_events event_rows check_records
      list_beq
  verify_ca_state-IsSound l h = rw (
    list_ca_keys-listed l h.cas,
    one_active l.ca,
    traverse-All IsCertificate certificate_row certificate_record_from_row
        certificate_record_from_row-certificate_row l.certificates h.certificates,
    filter_every (event_passes no_filter) (map event_row l.events) passes_no_filter,
    traverse-All IsEvent event_row event_record_from_row event_record_from_row-event_row l.events
        h.events,
    check_events-known (ids_of l) (keys_of l) l.events h.known_events,
    check_certificates-known (ids_of l) (issued_keys l.events) l.certificates h.known_certificates,
    distinct_of_IsDistinct (map full_key l.certificates)
        (full_key-IsDistinct l.certificates h.distinct_keys),
  )
