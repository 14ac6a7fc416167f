-- ===== src/State/Reachable.antt =====
-- The states that initializing a CA and recording certificates and events in src/ski/state.py reach,
-- and what `verify_ca_state` says of them.
use mathlib.Core.Path.{subst}
use server_key_injection.Base.{ℕ, ◌≡◌, refl, sym, ap, All, Option, none, some, [], ok}
use server_key_injection.Base.Int.{ℤ, pos}
use server_key_injection.Base.Text.{Text, codes}
use server_key_injection.Policy.Values.{Value, none_value, int_value, str_value}
use server_key_injection.State.Tables.{CaTables}
use server_key_injection.State.Validation.{
  CertificateFields, validated_certificate_fields, TimeInput, timestamp,
}
use server_key_injection.State.Records.{PublicKey, CaKeyRecord}
use server_key_injection.State.{
  record_certificate_with_event, initialize_active_ca, check_initialization,
}
use server_key_injection.State.Events.{record_event, check_event, EventFields}
use server_key_injection.State.Rows.{IsCa}
use server_key_injection.State.Verify.{verify_ca_state}
use server_key_injection.State.Ledger.{Ledger, listed, tables_of, issue_certificate}
use server_key_injection.State.Refinement.{record_certificate_with_event-refines}
use server_key_injection.State.Sound.{IsSound, verify_ca_state-IsSound}
use server_key_injection.State.Validated.{validated-IsValid}
use server_key_injection.State.Initializing.{IsActive, initialize_validated}
use server_key_injection.State.Recorded.{record_validated-IsSound}
use server_key_injection.State.Recording.{record_validated, record_event-refines}
use server_key_injection.State.Founded.{initialize_validated-IsSound}
use server_key_injection.State.Founding.{IsExporting, initialize_active_ca-refines, initial_values}
use server_key_injection.State.Issuing.{issue_validated-IsSound}

-- The tables of a new database.
abbrev pub empty_ledger : Ledger
empty_ledger = record { ca = none; certificates = []; events = [] }

module _ (import_public_key : Text → Option PublicKey) where
  -- What calls of `initialize_active_ca` and `record_event`, each at its own clock time `now`, and of
  -- `record_certificate_with_event` reach from the tables of a new database, each at a time since 1970,
  -- whether they succeed or raise; the events name no certificate.
  pub data IsReachable : CaTables → Type 0 where
    started : IsReachable (tables_of empty_ledger)
    initialized :
        (now : ℤ) (public_key fingerprint : Value) (path : Text) (request_id : Value)
        (time : TimeInput) (n : ℕ) (t : CaTables)
        → timestamp now time ≡ ok (pos n)
        → IsReachable t
        → IsReachable
            (initialize_active_ca import_public_key now public_key fingerprint path request_id time
              t).1
    recorded :
        (f : CertificateFields) (n : ℕ) (t : CaTables)
        → f.valid_after ≡ int_value (pos n)
        → IsReachable t
        → IsReachable (record_certificate_with_event f t).1
    noted :
        (now : ℤ) (f : EventFields) (n : ℕ) (t : CaTables)
        → f.serial ≡ none_value
        → timestamp now f.occurred_at ≡ ok (pos n)
        → IsReachable t
        → IsReachable (record_event now f t).1

  abbrev IsLedger : CaTables → Type 0
  IsLedger t = (l : Ledger) × (t ≡ tables_of l) × IsSound import_public_key l

  empty-IsSound : IsSound import_public_key empty_ledger
  empty-IsSound = record {
    cas = tt;
    certificates = tt;
    events = tt;
    known_events = tt;
    known_certificates = tt;
    distinct_keys = tt;
  }

  record-IsLedger :
      (f : CertificateFields) (n : ℕ) (l : Ledger)
      → f.valid_after ≡ int_value (pos n)
      → IsSound import_public_key l
      → IsLedger (record_certificate_with_event f (tables_of l)).1
  record-IsLedger f n l start sound = (
    (issue_certificate f l).1,
    ap (λ p. p.1) (record_certificate_with_event-refines f l),
    issue_validated-IsSound import_public_key
        (validated_certificate_fields f (str_value (codes "success"))) l sound
        (validated-IsValid f n start),
  )

  note-IsLedger :
      (now : ℤ) (f : EventFields) (n : ℕ) (l : Ledger)
      → f.serial ≡ none_value
      → timestamp now f.occurred_at ≡ ok (pos n)
      → IsSound import_public_key l
      → IsLedger (record_event now f (tables_of l)).1
  note-IsLedger now f n l no_serial timed sound = (
    (record_validated (check_event now f) l).1,
    ap (λ p. p.1) (record_event-refines now f l),
    record_validated-IsSound import_public_key now f n l no_serial timed sound,
  )

  active : (l : Ledger) → IsSound import_public_key l → IsActive l.ca
  active l sound = go l.ca sound.cas
    where
      go : (o : Option CaKeyRecord) → All (IsCa import_public_key) (listed o) → IsActive o
      go none h = tt
      go (some c) h = h.0.status

  module _ (exporting : IsExporting import_public_key) where
    initialize-IsLedger :
        (now : ℤ) (public_key fingerprint : Value) (path : Text) (request_id : Value)
        (time : TimeInput) (n : ℕ) (l : Ledger)
        → timestamp now time ≡ ok (pos n)
        → IsSound import_public_key l
        → IsLedger
            (initialize_active_ca import_public_key now public_key fingerprint path request_id time
              (tables_of l)).1
    initialize-IsLedger now public_key fingerprint path request_id time n l timed sound = (
      (initialize_validated
          (check_initialization import_public_key now public_key fingerprint path request_id time)
          l).1,
      ap (λ p. p.1)
          (initialize_active_ca-refines import_public_key now public_key fingerprint path request_id
            time l (active l sound)),
      initialize_validated-IsSound import_public_key
          (check_initialization import_public_key now public_key fingerprint path request_id time) l
          sound
          (initial_values import_public_key now exporting public_key fingerprint path request_id
            time n timed),
    )

    reachable-IsLedger : (t : CaTables) → IsReachable t → IsLedger t
    reachable-IsLedger _ started = (empty_ledger, refl, empty-IsSound)
    reachable-IsLedger _
          (initialized now public_key fingerprint path request_id time n t timed before) =
        let (l, same, sound) = reachable-IsLedger t before in
        subst
          (λ s.
            IsLedger
              (initialize_active_ca import_public_key now public_key fingerprint path request_id
                time s).1)
          (sym same)
          (initialize-IsLedger now public_key fingerprint path request_id time n l timed sound)
    reachable-IsLedger _ (recorded f n t start before) =
        let (l, same, sound) = reachable-IsLedger t before in
        subst (λ s. IsLedger (record_certificate_with_event f s).1) (sym same)
          (record-IsLedger f n l start sound)
    reachable-IsLedger _ (noted now f n t no_serial timed before) =
        let (l, same, sound) = reachable-IsLedger t before in
        subst (λ s. IsLedger (record_event now f s).1) (sym same)
          (note-IsLedger now f n l no_serial timed sound)

    -- From the tables of a new database, whatever CAs are initialized, certificates recorded with their
    -- events and further events recorded that name no certificate, all at times since 1970, and
    -- whichever of these calls fail, `verify_ca_state` finds no fault when SQLite finds none. This
    -- assumes that asyncssh reads a key again from its own export, which is not empty.
    pub reachable_verifies :
        (t : CaTables)
        → IsReachable t
        → verify_ca_state import_public_key (some (codes "ok")) t ≡ ok tt
    reachable_verifies t reached =
        let (l, same, sound) = reachable-IsLedger t reached in
        rw same (verify_ca_state-IsSound import_public_key l sound)
