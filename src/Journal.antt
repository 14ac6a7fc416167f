-- ===== src/Journal.antt =====
-- src/ski/journal.py: the events of the service, and what the journal is sent for one.
use mathlib.Core.Path.{subst}
use server_key_injection.Base.{
  ℕ, ◌≡◌, refl, true, false, not, some, List, [], ◌∷◌, map, Result, ok, ◌>>◌, raise_if,
  require-eq-ok, ok-injective, ap, list_beq, ◌==◌, nat_eq, list_eq, contains, all, arith,
  Bool-cases, inl, inr, list_beq_iff,
}
use server_key_injection.Base.Dict.{Fields, keys_of, get_field, update, get_field-update_other}
use server_key_injection.Base.Text.{Text, codes}

abbrev pub allowed_fields : List Text
allowed_fields =
    codes "SKI_ADDRESSES"
    ∷ codes "SKI_BIND"
    ∷ codes "SKI_CERTIFICATE_SERIAL"
    ∷ codes "SKI_CONFIG_GENERATION"
    ∷ codes "SKI_DECISION"
    ∷ codes "SKI_ERROR_CODE"
    ∷ codes "SKI_GROUPS"
    ∷ codes "SKI_IDENTITY"
    ∷ codes "SKI_PORT"
    ∷ codes "SKI_REASON"
    ∷ codes "SKI_REQUEST_ID"
    ∷ []

-- `Event`
pub record Event : Type 0 where
  pub name : Text
  pub message : Text
  pub priority : ℕ
  pub fields : Fields Text

-- The construction of an event, which raises `ValueError` for a field that is not allowed.
unfoldable pub make_event : (name message : Text) → ℕ → Fields Text → Result Text Event
make_event name message priority fields =
    raise_if (not (all (contains allowed_fields) (keys_of fields))) (codes "ValueError")
    >> ok (record { name = name; message = message; priority = priority; fields = fields })

-- What the journal takes as the value of a field.
pub data JournalValue : Type 0 where
  number : ℕ → JournalValue
  text : Text → JournalValue

abbrev as_values : Fields Text → Fields JournalValue
as_values fields = map (λ ((k, v) : Text × Text). (k, text v)) fields

-- `JournalEventSink.emit`: the message and the fields that the journal is sent
unfoldable pub journal_entry : (identifier : Text) → Event → Text × Fields JournalValue
unfolding update
journal_entry identifier event = (
  event.message,
  update
      ((codes "PRIORITY", number event.priority)
        ∷ (codes "SYSLOG_IDENTIFIER", text identifier)
        ∷ (codes "SKI_EVENT", text event.name)
        ∷ [])
      (as_values event.fields),
)

not_contained :
    (allowed ks : List Text) (j : Text)
    → all (contains allowed) ks ≡ true
    → contains allowed j ≡ false
    → contains ks j ≡ false
unfolding all contains
not_contained allowed [] j h n = refl
not_contained allowed (k ∷ ks) j h n = elim (Bool-cases (j == k)) [
  | inl same ↦
      absurd (ground (arith, subst (λ x. contains allowed x ≡ false) ((list_beq_iff j k).0 same) n))
  | inr other ↦ rw other (not_contained allowed ks j (ground arith) n)
]

as_values-keys : (fields : Fields Text) → keys_of (as_values fields) ≡ keys_of fields
as_values-keys [] = refl
as_values-keys ((k, v) ∷ fields) = ap (λ ks. k ∷ ks) (as_values-keys fields)

kept :
    (j : Text) (base : Fields JournalValue) (fields : Fields Text)
    → contains allowed_fields j ≡ false
    → all (contains allowed_fields) (keys_of fields) ≡ true
    → get_field j (update base (as_values fields)) ≡ get_field j base
kept j base fields forbidden h =
    get_field-update_other j base (as_values fields)
      (rw (as_values-keys fields) (not_contained allowed_fields (keys_of fields) j h forbidden))

-- The entry has these values under the keys of the sink.
abbrev pub KeepsKeys : (identifier name : Text) → ℕ → Fields JournalValue → Type 0
KeepsKeys identifier name priority entry =
    (get_field (codes "PRIORITY") entry ≡ some (number priority))
    × (get_field (codes "SYSLOG_IDENTIFIER") entry ≡ some (text identifier))
    × (get_field (codes "SKI_EVENT") entry ≡ some (text name))

-- Whatever fields a caller gives an event, the journal receives its own priority, the identifier of the
-- service and the name of the event under their keys: where a field could replace one of them, the
-- event is not made.
pub journal_entry-KeepsKeys :
    (identifier name message : Text) (priority : ℕ) (fields : Fields Text) (event : Event)
    → make_event name message priority fields ≡ ok event
    → KeepsKeys identifier name priority (journal_entry identifier event).1
unfolding make_event journal_entry contains get_field list_beq
journal_entry-KeepsKeys identifier name message priority fields event h =
    let (permitted, made) =
      require-eq-ok (all (contains allowed_fields) (keys_of fields)) (codes "ValueError")
        (ok (record { name = name; message = message; priority = priority; fields = fields })) h in
    subst (λ e. KeepsKeys identifier name priority (journal_entry identifier e).1)
      (ok-injective made)
      (
        kept (codes "PRIORITY") _ fields refl permitted,
        kept (codes "SYSLOG_IDENTIFIER") _ fields refl permitted,
        kept (codes "SKI_EVENT") _ fields refl permitted,
      )
