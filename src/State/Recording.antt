-- ===== src/State/Recording.antt =====
-- Recording an event in src/ski/state.py on the rows of a ledger: an event that names no certificate is
-- added where its CA, if it names one, is known.
use server_key_injection.Base.{
  ℕ, ◌≡◌, refl, true, false, ◌||◌, Option, none, some, [], ◌∷◌, ◌++◌, map, Result, ok, err,
  contains, arith, if◌then◌else◌, ◌==◌, nat_eq, list_eq, Bool-cases, inl, inr, option_eq, pair_eq,
}
use server_key_injection.Base.Int.{ℤ, pos}
use server_key_injection.Base.Decimal.{print_ℕ}
use server_key_injection.Policy.Values.{none_value, int_value, value_beq, value_eq}
use server_key_injection.State.Exec.{
  Run, bind_ok, bind_err, pure, lift, convert, ◌>>=◌, convert_ok, convert_err, transaction_ok,
  transaction_err,
}
use server_key_injection.State.Tables.{
  CaTables, SqlError, text, integrity, event_allowed, ca_ids, insert_event, insert_event_row,
}
use server_key_injection.State.Validation.{StateError}
use server_key_injection.State.Records.{CaKeyRecord, EventRecord}
use server_key_injection.State.{event_not_recorded}
use server_key_injection.State.Events.{
  record_event, check_event, optional, EventFields, EventValues, event_record, insert_event_values,
}
use server_key_injection.State.Verify.{knows_ca}
use server_key_injection.State.Rows.{ca_row, event_row}
use server_key_injection.State.Ledger.{Ledger, listed, tables_of, next_event_id}
use server_key_injection.State.Refinement.{map_event_id, map_snoc}
use server_key_injection.State.Sound.{ids_of}

-- The ledger with one more event.
abbrev pub add : EventValues → Ledger → Ledger
add v l = record l { events = l.events ++ event_record (next_event_id l) v ∷ [] }

-- What recording does where validation gives `r`.
abbrev pub record_validated :
    Result StateError EventValues → Ledger → Result StateError EventRecord × Ledger
record_validated (err e) l = (err e, l)
record_validated (ok v) l =
    if knows_ca (ids_of l) v.ca_id
    then (ok (event_record (next_event_id l) v), add v l)
    else (err (event_not_recorded integrity), l)

known_ca_row :
    (o : Option CaKeyRecord) (n : ℕ)
    → contains (ca_ids (map ca_row (listed o))) (int_value (pos n))
      ≡ contains (map (λ (r : CaKeyRecord). r.ca_id) (listed o)) n
unfolding ca_ids contains value_beq
known_ca_row none n = refl
known_ca_row (some c) n = ground arith

given_or_null :
    (l : Ledger) (ca_id : Option ℕ)
    → (optional (λ n. int_value (pos n)) ca_id == none_value
        || contains (ca_ids (map ca_row (listed l.ca))) (optional (λ n. int_value (pos n)) ca_id))
      ≡ knows_ca (ids_of l) ca_id
unfolding knows_ca value_beq
given_or_null l none = refl
given_or_null l (some n) = known_ca_row l.ca n

event_allowed-knows :
    (l : Ledger) (id : ℕ) (v : EventValues)
    → event_allowed (tables_of l) (event_row (event_record id v)) ≡ knows_ca (ids_of l) v.ca_id
unfolding event_allowed
event_allowed-knows l id v = given_or_null l v.ca_id

abbrev insert_row : EventValues → Run CaTables SqlError ℕ
insert_row v =
    insert_event_row (int_value v.occurred_at) (text v.kind) (text v.decision) (text v.request_id)
      (optional text v.identity) (optional (λ n. int_value (pos n)) v.ca_id)
      (optional (λ n. text (print_ℕ n)) v.serial)

module _ (v : EventValues) (l : Ledger) where
  insert_row-known :
      knows_ca (ids_of l) v.ca_id ≡ true
      → insert_row v (tables_of l) ≡ (ok (next_event_id l), tables_of (add v l))
  unfolding insert_event_row
  insert_row-known known =
      rw
        (
          map_event_id l.events,
          event_allowed-knows l (next_event_id l) v,
          known,
          map_snoc event_row l.events (event_record (next_event_id l) v),
        )
        refl

  insert_row-unknown :
      knows_ca (ids_of l) v.ca_id ≡ false
      → insert_row v (tables_of l) ≡ (err integrity, tables_of l)
  unfolding insert_event_row
  insert_row-unknown unknown =
      rw (map_event_id l.events, event_allowed-knows l (next_event_id l) v, unknown) refl

  abbrev record_values : Run CaTables StateError EventRecord
  record_values = convert event_not_recorded (insert_event_values v) >>= λ event_id.
      pure (event_record event_id v)

  record_values-ledger :
      let (r, l') = record_validated (ok v) l in record_values (tables_of l) ≡ (r, tables_of l')
  unfolding insert_event
  record_values-ledger = elim (Bool-cases (knows_ca (ids_of l) v.ca_id)) [
    | inl known ↦ rw known (
        bind_ok (convert event_not_recorded (insert_event_values v))
          (λ event_id. pure (event_record event_id v)) (tables_of l)
          (convert_ok event_not_recorded (insert_event_values v) (tables_of l)
            (transaction_ok (insert_row v) (tables_of l) (insert_row-known known))))
    | inr unknown ↦ rw unknown (
        bind_err (convert event_not_recorded (insert_event_values v))
          (λ event_id. pure (event_record event_id v)) (tables_of l)
          (convert_err event_not_recorded (insert_event_values v) (tables_of l)
            (transaction_err (insert_row v) (tables_of l) (insert_row-unknown unknown))))
  ]

-- Recording an event on the rows of a ledger: it adds the event, or it changes nothing where an argument
-- is refused or the CA that it names is unknown.
pub record_event-refines :
    (now : ℤ) (f : EventFields) (l : Ledger)
    → let (r, l') = record_validated (check_event now f) l in
      record_event now f (tables_of l) ≡ (r, tables_of l')
unfolding record_event
record_event-refines now f l = go (check_event now f)
  where
    go :
        (x : Result StateError EventValues)
        → let (r, l') = record_validated x l in
          (lift x >>= λ v. convert event_not_recorded (insert_event_values v) >>= λ event_id.
          pure (event_record event_id v))
            (tables_of l)
          ≡ (r, tables_of l')
    go (err e) = refl
    go (ok v) = record_values-ledger v l
