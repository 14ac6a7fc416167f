-- ===== src/State/Initializing.antt =====
-- Initializing the CA in src/ski/state.py on the rows of a ledger: the first CA is registered with its
-- event, and there is no second one.
use server_key_injection.Base.{
  ℕ, ◌≡◌, refl, ◌∙◌, false, Option, none, some, List, [], ◌∷◌, ◌++◌, map, Result, ok, err, contains,
  arith, nat_eq, list_eq, Ensures, list_beq,
}
use server_key_injection.Base.Int.{pos}
use server_key_injection.Base.Text.{Text, codes}
use server_key_injection.Policy.Values.{none_value, int_value, bytes_value, value_beq, value_eq}
use server_key_injection.State.Exec.{
  Run, pure, lift, convert, ◌>>=◌, ◌>>◌, bind_ok, bind_err, transaction_ok, transaction_err,
  convert_ok, convert_err,
}
use server_key_injection.State.Tables.{
  CaTables, CaValues, SqlError, text, integrity, ca_allowed, event_allowed, ca_ids, insert_ca_row,
  insert_event_row, insert_ca_with_event, next_rowid, ed25519,
}
use server_key_injection.State.Validation.{StateError}
use server_key_injection.State.Records.{CaKeyRecord, CertificateRecord, EventRecord}
use server_key_injection.State.{ca_record, already_registered}
use server_key_injection.State.Rows.{ca_row, event_row}
use server_key_injection.State.Ledger.{Ledger, listed, tables_of, next_event_id}
use server_key_injection.State.Refinement.{map_event_id, map_snoc}

-- The event of an initialization.
abbrev pub initialized_event : ℕ → CaValues → Text → EventRecord
initialized_event event_id v request_id = record {
  event_id = event_id;
  occurred_at = v.activated_at;
  kind = codes "ca_initialized";
  decision = codes "allow";
  request_id = request_id;
  identity = none;
  ca_id = some 1;
  serial = none;
}

-- The ledger with its first CA.
abbrev pub initialize : CaValues → Text → Ledger → Ledger
initialize v request_id l = record l {
  ca = some (ca_record 1 v);
  events = l.events ++ initialized_event (next_event_id l) v request_id ∷ [];
}

-- What initializing does where validation gives `r`.
abbrev pub initialize_validated :
    Result StateError (CaValues × Text) → Ledger → Result StateError CaKeyRecord × Ledger
initialize_validated (err e) l = (err e, l)
initialize_validated (ok (v, request_id)) l = elim l.ca [
  | none ↦ (ok (ca_record 1 v), initialize v request_id l)
  | some _ ↦ (err (already_registered integrity), l)
]

abbrev pub insert_ca_values : CaValues → Run CaTables SqlError ℕ
insert_ca_values v =
    insert_ca_row (text v.algorithm) (bytes_value v.public_key) (text v.fingerprint)
      (text v.private_key_path) (int_value v.activated_at)

abbrev pub insert_initialized_event : CaValues → Text → ℕ → Run CaTables SqlError ℕ
insert_initialized_event v request_id ca_id =
    insert_event_row (int_value v.activated_at) (text (codes "ca_initialized"))
      (text (codes "allow")) (text request_id) none_value (int_value (pos ca_id)) none_value

module _ (v : CaValues) (request_id : Text) (supported : v.algorithm ≡ ed25519)
    (cs : List CertificateRecord) (es : List EventRecord) where
  abbrev without_ca : Ledger
  without_ca = record { ca = none; certificates = cs; events = es }

  insert_ca_values-first :
      insert_ca_values v (tables_of without_ca)
      ≡ (ok 1, record (tables_of without_ca) { ca_keys = ca_row (ca_record 1 v) ∷ [] })
  unfolding insert_ca_row ca_allowed next_rowid contains value_beq list_beq
  insert_ca_values-first = rw supported refl

  insert_event-first :
      insert_initialized_event v request_id 1
        (record (tables_of without_ca) { ca_keys = ca_row (ca_record 1 v) ∷ [] })
      ≡ (
        ok (next_event_id without_ca),
        record (tables_of without_ca) {
          ca_keys = ca_row (ca_record 1 v) ∷ [];
          events =
              map event_row es
              ++ event_row (initialized_event (next_event_id without_ca) v request_id) ∷ [];
        },
      )
  unfolding insert_event_row event_allowed ca_ids contains value_beq
  insert_event-first = rw (map_event_id es) refl

  insert_ca_with_event-first :
      insert_ca_with_event v request_id (tables_of without_ca)
      ≡ (ok 1, tables_of (initialize v request_id without_ca))
  unfolding insert_ca_with_event
  insert_ca_with_event-first =
      transaction_ok
        (insert_ca_values v >>= λ ca_id. insert_initialized_event v request_id ca_id >> pure ca_id)
        (tables_of without_ca)
        (bind_ok (insert_ca_values v)
            (λ ca_id. insert_initialized_event v request_id ca_id >> pure ca_id)
            (tables_of without_ca) insert_ca_values-first
          ∙ bind_ok (insert_initialized_event v request_id 1) (λ _. pure 1) _ insert_event-first)
      ∙ rw (map_snoc event_row es (initialized_event (next_event_id without_ca) v request_id)) refl

module _ (v : CaValues) (request_id : Text) (c : CaKeyRecord)
    (is_active : c.status ≡ codes "active") (cs : List CertificateRecord)
    (es : List EventRecord) where
  abbrev with_ca : Ledger
  with_ca = record { ca = some c; certificates = cs; events = es }

  not_allowed :
      ca_allowed (map ca_row (listed (some c))) (ca_row (ca_record (next_rowid (c.ca_id ∷ [])) v))
      ≡ false
  unfolding ca_allowed contains value_beq list_beq
  not_allowed = rw is_active (ground arith)

  insert_ca_values-second :
      insert_ca_values v (tables_of with_ca) ≡ (err integrity, tables_of with_ca)
  unfolding insert_ca_row
  insert_ca_values-second = rw not_allowed refl

  insert_ca_with_event-second :
      insert_ca_with_event v request_id (tables_of with_ca) ≡ (err integrity, tables_of with_ca)
  unfolding insert_ca_with_event
  insert_ca_with_event-second =
      transaction_err
        (insert_ca_values v >>= λ ca_id. insert_initialized_event v request_id ca_id >> pure ca_id)
        (tables_of with_ca)
        (bind_err (insert_ca_values v)
          (λ ca_id. insert_initialized_event v request_id ca_id >> pure ca_id) (tables_of with_ca)
          insert_ca_values-second)

abbrev pub IsActive : Option CaKeyRecord → Type 0
IsActive none = Unit
IsActive (some c) = c.status ≡ codes "active"

-- The operation after validation, against the ledger.
insert-initialize :
    (v : CaValues) (request_id : Text) (ca : Option CaKeyRecord) (cs : List CertificateRecord)
    (es : List EventRecord)
    → v.algorithm ≡ ed25519
    → IsActive ca
    → let (r, l') =
        initialize_validated
          (ok (v, request_id))
          (record { ca = ca; certificates = cs; events = es }) in
      (convert already_registered (insert_ca_with_event v request_id) >>= λ ca_id.
      pure (ca_record ca_id v))
        (tables_of (record { ca = ca; certificates = cs; events = es }))
      ≡ (r, tables_of l')
insert-initialize v request_id none cs es supported active =
    bind_ok (convert already_registered (insert_ca_with_event v request_id))
      (λ ca_id. pure (ca_record ca_id v)) _
      (convert_ok already_registered (insert_ca_with_event v request_id) _
        (insert_ca_with_event-first v request_id supported cs es))
insert-initialize v request_id (some c) cs es supported active =
    bind_err (convert already_registered (insert_ca_with_event v request_id))
      (λ ca_id. pure (ca_record ca_id v)) _
      (convert_err already_registered (insert_ca_with_event v request_id) _
        (insert_ca_with_event-second v request_id c active cs es))

abbrev pub AreSupported : CaValues × Text → Type 0
AreSupported (v, _) = v.algorithm ≡ ed25519

pub insert-initialize_validated :
    (r : Result StateError (CaValues × Text)) (l : Ledger)
    → Ensures AreSupported r
    → IsActive l.ca
    → let (x, l') = initialize_validated r l in
      (lift r >>= λ (v, request_id).
      convert already_registered (insert_ca_with_event v request_id) >>= λ ca_id.
      pure (ca_record ca_id v))
        (tables_of l)
      ≡ (x, tables_of l')
unfolding Ensures
insert-initialize_validated (err e) l supported active = refl
insert-initialize_validated (ok (v, request_id)) l supported active =
    insert-initialize v request_id l.ca l.certificates l.events supported active
