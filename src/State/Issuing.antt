-- ===== src/State/Issuing.antt =====
-- Issuing on a sound ledger: src/ski/state.py keeps the state that `verify_ca_state` accepts.
use server_key_injection.Base.{
  membership_laws, ℕ, ◌<◌, ◌≡◌, refl, ap, ◌∙◌, Bool, true, false, Option, none, some, List, [], ◌∷◌,
  ◌++◌, map, Result, ok, err, contains, filter, arith, Eq, nat_eq, list_eq, option_eq, pair_eq,
  list_beq, Bool-cases, beq_refl, inl, inr, All, IsDistinct, contains-append, Ensures,
}
use server_key_injection.Base.Text.{Text}
use server_key_injection.State.Tables.{CertificateValues, next_rowid}
use server_key_injection.State.Validation.{StateError}
use server_key_injection.State.Records.{CaKeyRecord, PublicKey}
use server_key_injection.State.{certificate_record}
use server_key_injection.State.Verify.{
  knows_ca, knows_certificate, certificate_key, event_key, issued_key, is_issued,
}
use server_key_injection.State.Rows.{IsCertificate, IsEvent}
use server_key_injection.State.Ledger.{
  Ledger, listed, is_ca, is_issuable, issue, issued_event, issue_validated, next_certificate_id,
  next_event_id,
}
use server_key_injection.State.Refinement.{map_snoc}
use server_key_injection.State.Sound.{IsSound, keys_of, issued_keys}
use server_key_injection.State.Validated.{IsValid, AreValid}

pub All_mono :
    {A : Type 0} (P Q : A → Type 0) (xs : List A) → ((a : A) → P a → Q a) → All P xs → All Q xs
All_mono P Q [] f h = tt
All_mono P Q (x ∷ xs) f h = (f x h.0, All_mono P Q xs f h.1)

pub All_snoc :
    {A : Type 0} (P : A → Type 0) (xs : List A) (x : A) → All P xs → P x → All P (xs ++ x ∷ [])
All_snoc P [] x h p = (p, tt)
All_snoc P (y ∷ xs) x h p = (h.0, All_snoc P xs x h.1 p)

module _ {A : Type 0} ⦃e : Eq A⦄ where
  pub contains_old :
      (xs : List A) (x a : A) → contains xs a ≡ true → contains (xs ++ x ∷ []) a ≡ true
  contains_old xs x a h = grind membership_laws

  pub contains_new : (xs : List A) (x : A) → contains (xs ++ x ∷ []) x ≡ true
  unfolding contains
  contains_new xs x = ground (arith, contains-append xs (x ∷ []) x, beq_refl x)

  pub IsDistinct_snoc :
      (xs : List A) (x : A) → IsDistinct xs → contains xs x ≡ false → IsDistinct (xs ++ x ∷ [])
  unfolding contains
  IsDistinct_snoc [] x h new = (refl, tt)
  IsDistinct_snoc (y ∷ xs) x h new =
      (grind membership_laws, IsDistinct_snoc xs x h.1 (ground arith))

pub filter_snoc :
    {A : Type 0} (p : A → Bool) (xs : List A) (x : A)
    → p x ≡ true
    → filter p (xs ++ x ∷ []) ≡ filter p xs ++ x ∷ []
unfolding filter
filter_snoc p [] x h = rw h
filter_snoc p (y ∷ xs) x h =
    rw (filter_snoc p xs x h) (elim (Bool-cases (p y)) [ inl e ↦ rw e | inr e ↦ rw e ])

pub positive_rowid : (ns : List ℕ) → 0 < next_rowid ns
unfolding next_rowid
positive_rowid ns = omega arith

known_ca :
    (o : Option CaKeyRecord) (n : ℕ)
    → is_ca o n ≡ true
    → contains (map (λ (r : CaKeyRecord). r.ca_id) (listed o)) n ≡ true
unfolding contains
known_ca none n h = absurd (cc)
known_ca (some c) n h = ground arith

keys_issue :
    (l : Ledger) (ps : List Text) (v : CertificateValues)
    → keys_of (issue l ps v) ≡ keys_of l ++ (v.ca_id, v.serial) ∷ []
keys_issue l ps v =
    map_snoc certificate_key l.certificates (certificate_record (next_certificate_id l) ps v)

issued_keys-issue :
    (l : Ledger) (ps : List Text) (v : CertificateValues)
    → issued_keys (issue l ps v).events
      ≡ issued_keys l.events ++ event_key (issued_event (next_event_id l) v) ∷ []
unfolding list_beq
issued_keys-issue l ps v =
    ap (map event_key) (filter_snoc is_issued l.events (issued_event (next_event_id l) v) refl)
    ∙ map_snoc event_key (filter is_issued l.events) (issued_event (next_event_id l) v)

knows_more :
    (keys : List (ℕ × ℕ)) (key : ℕ × ℕ) (ca serial : Option ℕ)
    → knows_certificate keys ca serial ≡ true
    → knows_certificate (keys ++ key ∷ []) ca serial ≡ true
unfolding knows_certificate
knows_more keys key ca none h = refl
knows_more keys key none (some n) h = absurd (cc)
knows_more keys key (some c) (some n) h = contains_old keys key (c, n) h

-- The new certificate and its event are records that read back.
new-IsCertificate :
    (id : ℕ) (ps : List Text) (v : CertificateValues)
    → 0 < id
    → IsValid ps v
    → IsCertificate (certificate_record id ps v)
new-IsCertificate id ps v first h = record {
  certificate_id = first;
  ca_id = h.ca_id;
  serial = h.serial;
  identity = h.identity;
  fingerprint = h.fingerprint;
  user = h.user;
  groups = h.groups;
  principals = h.principals;
  interval = h.interval;
  request_id = h.request_id;
  outcome = inl h.outcome;
}

new-IsEvent :
    (id : ℕ) (ps : List Text) (v : CertificateValues)
    → 0 < id
    → IsValid ps v
    → IsEvent (issued_event id v)
unfolding contains list_beq
new-IsEvent id ps v first h = record {
  event_id = first;
  occurred_at = h.valid_after;
  kind = refl;
  decision = refl;
  request_id = h.request_id;
  identity = inr (v.identity, refl, h.identity);
  ca_id = inr (v.ca_id, refl, h.ca_id);
  serial = inr (v.serial, refl, h.serial);
}

module _ (import_public_key : Text → Option PublicKey) (l : Ledger) (ps : List Text)
    (v : CertificateValues) (sound : IsSound import_public_key l) (valid : IsValid ps v)
    (known : is_ca l.ca v.ca_id ≡ true)
    (new : contains (keys_of l) (v.ca_id, v.serial) ≡ false) where
  pub issue-IsSound : IsSound import_public_key (issue l ps v)
  unfolding knows_ca knows_certificate
  issue-IsSound = record {
    cas = sound.cas;
    certificates =
        All_snoc IsCertificate l.certificates _ sound.certificates
          (new-IsCertificate (next_certificate_id l) ps v (positive_rowid _) valid);
    events =
        All_snoc IsEvent l.events _ sound.events
          (new-IsEvent (next_event_id l) ps v (positive_rowid _) valid);
    known_events = rw (keys_issue l ps v) (
        All_snoc _ l.events _
          (All_mono _ _ l.events
            (λ e h. (h.0, knows_more (keys_of l) (v.ca_id, v.serial) e.ca_id e.serial h.1))
            sound.known_events)
          (known_ca l.ca v.ca_id known, contains_new (keys_of l) (v.ca_id, v.serial)));
    known_certificates = rw (issued_keys-issue l ps v) (
        All_snoc _ l.certificates _
          (All_mono _ _ l.certificates
            (λ c h. (
              h.0,
              contains_old (issued_keys l.events) (event_key (issued_event (next_event_id l) v))
                  (issued_key c) h.1,
            ))
            sound.known_certificates)
          (
            known_ca l.ca v.ca_id known,
            contains_new (issued_keys l.events) (event_key (issued_event (next_event_id l) v)),
          ));
    distinct_keys =
        rw (keys_issue l ps v)
          (IsDistinct_snoc (keys_of l) (v.ca_id, v.serial) sound.distinct_keys new);
  }

is_new :
    (l : Ledger) (v : CertificateValues)
    → is_issuable l v ≡ true
    → contains (keys_of l) (v.ca_id, v.serial) ≡ false
is_new l v h = ground arith

is_known : (l : Ledger) (v : CertificateValues) → is_issuable l v ≡ true → is_ca l.ca v.ca_id ≡ true
is_known l v h = ground arith

-- Issuing keeps a ledger sound, whether it succeeds or not.
pub issue_validated-IsSound :
    (import_public_key : Text → Option PublicKey)
    (r : Result StateError (List Text × CertificateValues)) (l : Ledger)
    → IsSound import_public_key l
    → Ensures AreValid r
    → IsSound import_public_key (issue_validated r l).1
unfolding Ensures
issue_validated-IsSound imports (err e) l sound valid = sound
issue_validated-IsSound imports (ok (ps, v)) l sound valid = elim (Bool-cases (is_issuable l v)) [
  | inl issuable ↦
      rw issuable
        (issue-IsSound imports l ps v sound valid (is_known l v issuable) (is_new l v issuable))
  | inr refused ↦ rw refused sound
]
