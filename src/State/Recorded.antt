-- ===== src/State/Recorded.antt =====
-- Recording an event in src/ski/state.py keeps the ledger sound, where the event names no certificate.
use mathlib.Core.Path.{subst}
use server_key_injection.Base.{
  membership_laws, ℕ, ◌<◌, ◌≤◌, ◌≡◌, refl, sym, ap, ◌∙◌, true, Option, none, some, List, [], ◌∷◌,
  ◌++◌, map, Result, ok, err, contains, filter, nat_eq, list_eq, Bool-cases, inl, inr, ◌⊎◌, Ensures,
  Ensures->>=, ok-injective, ◌>>=◌ as ◌>>=ʳ◌, option_eq, pair_eq,
}
use server_key_injection.Base.Int.{ℤ, pos}
use server_key_injection.Base.Text.{Text}
use server_key_injection.Policy.{username_pattern}
use server_key_injection.Policy.Values.{Value, none_value, value_eq}
use server_key_injection.State.Validation.{
  StateError, timestamp, validate_text, validate_identity, validate_serial, validate_positive_id,
  serial_max,
}
use server_key_injection.State.Records.{CertificateRecord, EventRecord, PublicKey, unless_null}
use server_key_injection.State.Events.{check_event, EventFields, EventValues, event_record}
use server_key_injection.State.Verify.{
  knows_ca, knows_certificate, event_key, is_issued, issued_key,
}
use server_key_injection.State.Rows.{IsEvent}
use server_key_injection.State.Ledger.{Ledger}
use server_key_injection.State.Refinement.{map_snoc}
use server_key_injection.State.Sound.{IsSound, ids_of, issued_keys}
use server_key_injection.State.Issuing.{filter_snoc, All_mono, All_snoc, positive_rowid}
use server_key_injection.State.Founded.{filter_drop}
use server_key_injection.State.Validated.{texted, bounded, canonical, positive}
use server_key_injection.State.Recording.{add, record_validated}

-- The event of the checked arguments reads back, and names a certificate only if they do.
pub record IsRecordable (f : EventFields) (v : EventValues) : Type 0 where
  pub event : (id : ℕ) → 0 < id → IsEvent (event_record id v)
  pub serial : f.serial ≡ none_value → v.serial ≡ none

null_or :
    {A : Type 0} (P : A → Type 0) (v : Value) (f : Value → Result StateError A) (o : Option A)
    → ((a : A) → f v ≡ ok a → P a)
    → unless_null v f ≡ ok o
    → (o ≡ none) ⊎ ((a : A) × (o ≡ some a) × P a)
null_or P none_value f o h e = inl (sym (ok-injective e))
null_or P v f o h e = some_or (f v) refl e
  where
    some_or :
        (r : Result StateError _)
        → f v ≡ r
        → (r >>=ʳ λ a. ok (some a)) ≡ ok o
        → (o ≡ none) ⊎ ((a : _) × (o ≡ some a) × P a)
    some_or (err x) same k = absurd (cc)
    some_or (ok a) same k = inr (a, sym (ok-injective k), h a same)

pub checked_event :
    (now : ℤ) (f : EventFields) (n : ℕ)
    → timestamp now f.occurred_at ≡ ok (pos n)
    → Ensures (IsRecordable f) (check_event now f)
unfolding check_event Ensures
checked_event now f n timed = Ensures->>= (IsRecordable f) (validate_text f.kind _) _ λ kind kind_h.
    Ensures->>= (IsRecordable f) (validate_text f.decision _) _ λ decision decision_h.
      Ensures->>= (IsRecordable f) (validate_text f.request_id _) _ λ request_id request_h.
        Ensures->>= (IsRecordable f) (unless_null f.identity validate_identity) _
          λ identity identity_h.
            Ensures->>= (IsRecordable f) (unless_null f.ca_id validate_positive_id) _ λ ca_id ca_h.
              Ensures->>= (IsRecordable f) (unless_null f.serial validate_serial) _
                λ serial serial_h.
                  Ensures->>= (IsRecordable f) (timestamp now f.occurred_at) _ λ time time_h.
                    record {
                      event = λ id first. record {
                        event_id = first;
                        occurred_at = (n, ok-injective (sym time_h ∙ timed));
                        kind = texted f.kind _ kind kind_h;
                        decision = texted f.decision _ decision decision_h;
                        request_id = texted f.request_id _ request_id request_h;
                        identity =
                            null_or (λ s. username_pattern s ≡ true) f.identity validate_identity
                              identity (canonical f.identity) identity_h;
                        ca_id =
                            null_or (λ n. 0 < n) f.ca_id validate_positive_id ca_id
                              (positive f.ca_id) ca_h;
                        serial =
                            null_or (λ n. n ≤ serial_max) f.serial validate_serial serial
                              (bounded f.serial) serial_h;
                      };
                      serial = λ no_serial. sym (
                          ok-injective (
                            subst (λ s. unless_null s validate_serial ≡ ok serial) no_serial
                              serial_h));
                    }

issued_keys-snoc :
    (es : List EventRecord) (e : EventRecord)
    → is_issued e ≡ true
    → issued_keys (es ++ e ∷ []) ≡ issued_keys es ++ event_key e ∷ []
issued_keys-snoc es e h =
    ap (map event_key) (filter_snoc is_issued es e h) ∙ map_snoc event_key (filter is_issued es) e

issued_keys-more :
    (es : List EventRecord) (e : EventRecord) (c : CertificateRecord)
    → contains (issued_keys es) (issued_key c) ≡ true
    → contains (issued_keys (es ++ e ∷ [])) (issued_key c) ≡ true
issued_keys-more es e c h = elim (Bool-cases (is_issued e)) [
  | inl issued ↦ rw (issued_keys-snoc es e issued) (grind membership_laws)
  | inr other ↦ rw (filter_drop is_issued es e other) h
]

add-IsSound :
    (import_public_key : Text → Option PublicKey) (f : EventFields) (v : EventValues) (l : Ledger)
    → f.serial ≡ none_value
    → IsSound import_public_key l
    → IsRecordable f v
    → knows_ca (ids_of l) v.ca_id ≡ true
    → IsSound import_public_key (add v l)
unfolding knows_certificate
add-IsSound imports f v l no_serial sound h known = record {
  cas = sound.cas;
  certificates = sound.certificates;
  events = All_snoc IsEvent l.events _ sound.events (h.event _ (positive_rowid _));
  known_events = All_snoc _ l.events _ sound.known_events (known, rw (h.serial no_serial) refl);
  known_certificates =
      All_mono _ _ l.certificates (λ c k. (k.0, issued_keys-more l.events _ c k.1))
        sound.known_certificates;
  distinct_keys = sound.distinct_keys;
}

-- Recording an event that names no certificate keeps a ledger sound, whether it succeeds or not.
pub record_validated-IsSound :
    (import_public_key : Text → Option PublicKey) (now : ℤ) (f : EventFields) (n : ℕ) (l : Ledger)
    → f.serial ≡ none_value
    → timestamp now f.occurred_at ≡ ok (pos n)
    → IsSound import_public_key l
    → IsSound import_public_key (record_validated (check_event now f) l).1
unfolding Ensures
record_validated-IsSound imports now f n l no_serial timed sound =
    go (check_event now f) (checked_event now f n timed)
  where
    go :
        (x : Result StateError EventValues)
        → Ensures (IsRecordable f) x
        → IsSound imports (record_validated x l).1
    go (err e) h = sound
    go (ok v) h = elim (Bool-cases (knows_ca (ids_of l) v.ca_id)) [
      | inl known ↦ rw known (add-IsSound imports f v l no_serial sound h known)
      | inr unknown ↦ rw unknown sound
    ]
