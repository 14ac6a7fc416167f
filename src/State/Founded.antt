-- ===== src/State/Founded.antt =====
-- The first CA of src/ski/state.py: initializing keeps the ledger sound.
use mathlib.Core.Path.{subst}
use server_key_injection.Base.{
  ℕ, ◌<◌, ◌≡◌, refl, ap, Bool, true, false, Option, none, some, List, [], ◌∷◌, ◌++◌, map, Result,
  ok, err, contains, filter, arith, nat_eq, list_eq, inl, inr, Ensures, Bool-cases, list_beq,
}
use server_key_injection.Base.Text.{Text}
use server_key_injection.State.Tables.{CaValues}
use server_key_injection.State.Validation.{StateError}
use server_key_injection.State.Records.{CaKeyRecord, CertificateRecord, EventRecord, PublicKey}
use server_key_injection.State.Verify.{knows_ca, knows_certificate, is_issued, event_key}
use server_key_injection.State.Rows.{IsEvent}
use server_key_injection.State.Ledger.{Ledger}
use server_key_injection.State.Sound.{IsSound, issued_keys}
use server_key_injection.State.Issuing.{All_mono, All_snoc, positive_rowid}
use server_key_injection.State.Initializing.{initialize, initialized_event, initialize_validated}
use server_key_injection.State.Founding.{IsInitial, AreInitial}

knows_first : (n : ℕ) (e : Option ℕ) → knows_ca [] e ≡ true → knows_ca (n ∷ []) e ≡ true
unfolding knows_ca contains
knows_first n none h = refl
knows_first n (some id) h = absurd (cc)

pub filter_drop :
    {A : Type 0} (p : A → Bool) (xs : List A) (x : A)
    → p x ≡ false
    → filter p (xs ++ x ∷ []) ≡ filter p xs
unfolding filter
filter_drop p [] x h = rw h refl
filter_drop p (y ∷ xs) x h =
    rw (filter_drop p xs x h) (elim (Bool-cases (p y)) [ inl e ↦ rw e refl | inr e ↦ rw e refl ])

issued_keys-initialize :
    (es : List EventRecord) (id : ℕ) (v : CaValues) (request_id : Text)
    → issued_keys (es ++ initialized_event id v request_id ∷ []) ≡ issued_keys es
unfolding list_beq
issued_keys-initialize es id v request_id =
    ap (map event_key) (filter_drop is_issued es (initialized_event id v request_id) refl)

module _ (import_public_key : Text → Option PublicKey) (v : CaValues) (request_id : Text)
    (initial : IsInitial import_public_key v request_id) where
  initialized-IsEvent : (id : ℕ) → 0 < id → IsEvent (initialized_event id v request_id)
  unfolding contains list_beq
  initialized-IsEvent id positive = record {
    event_id = positive;
    occurred_at = initial.valid.activated_at;
    kind = refl;
    decision = refl;
    request_id = initial.request;
    identity = inl refl;
    ca_id = inr (1, refl, omega arith);
    serial = inl refl;
  }

  initialize-IsSound :
      (cs : List CertificateRecord) (es : List EventRecord)
      → IsSound import_public_key (record { ca = none; certificates = cs; events = es })
      → IsSound import_public_key
          (initialize v request_id (record { ca = none; certificates = cs; events = es }))
  unfolding knows_certificate knows_ca contains
  initialize-IsSound cs es sound = record {
    cas = (initial.valid, tt);
    certificates = sound.certificates;
    events = All_snoc IsEvent es _ sound.events (initialized-IsEvent _ (positive_rowid _));
    known_events =
        All_snoc _ es _
          (All_mono _ _ es (λ e h. (knows_first 1 e.ca_id h.0, h.1)) sound.known_events)
          (refl, refl);
    known_certificates = rw (issued_keys-initialize es _ v request_id) (
        All_mono _ _ cs (λ c h. let none_known : false ≡ true = h.0 in absurd (cc))
          sound.known_certificates);
    distinct_keys = sound.distinct_keys;
  }

-- Initializing keeps a ledger sound, whether it succeeds or not.
pub initialize_validated-IsSound :
    (import_public_key : Text → Option PublicKey) (r : Result StateError (CaValues × Text))
    (l : Ledger)
    → IsSound import_public_key l
    → Ensures (AreInitial import_public_key) r
    → IsSound import_public_key (initialize_validated r l).1
unfolding Ensures
initialize_validated-IsSound imports (err e) l sound h = sound
initialize_validated-IsSound imports (ok (v, request_id)) l sound h = go l.ca refl
  where
    go :
        (o : Option CaKeyRecord)
        → l.ca ≡ o
        → IsSound imports (initialize_validated (ok (v, request_id)) (record l { ca = o })).1
    go none e =
        initialize-IsSound imports v request_id h l.certificates l.events
          (subst (λ o. IsSound imports (record l { ca = o })) e sound)
    go (some c) e = subst (λ o. IsSound imports (record l { ca = o })) e sound
