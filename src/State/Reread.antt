-- ===== src/State/Reread.antt =====
-- What src/ski/state.py recorded is what it reads back: events, and the CA that is registered.
use mathlib.Core.Path.{subst}
use server_key_injection.Base.{
  ℕ, ◌<◌, ◌≡◌, refl, sym, ap, ◌∙◌, false, Option, some, List, [], ◌∷◌, ◌++◌, map, ok, traverse,
  ok-injective, ensured, contains, arith, nat_eq, list_eq, Bool-cases, inl, inr, beq_refl, ◌==◌,
}
use server_key_injection.Base.Int.{ℤ, pos}
use server_key_injection.Base.Text.{Text}
use server_key_injection.Base.Decimal.{print_ℕ}
use server_key_injection.Policy.Values.{Value, int_value, bytes_value, value_eq, value_beq_iff}
use server_key_injection.State.Exec.{pure, lift, convert, ◌>>=◌, >>=-eq-ok}
use server_key_injection.State.Tables.{
  CaTables, CaRow, EventRow, CaValues, insert_ca, insert_ca_row, insert_event, insert_event_row,
  integrity, next_rowid, ca_allowed, active, text,
}
use server_key_injection.State.Validation.{TimeInput, timestamp}
use server_key_injection.State.Records.{
  CaKeyRecord, EventRecord, PublicKey, event_record_from_row, ca_record_from_row,
  validate_ca_public_key, validate_private_key_path,
}
use server_key_injection.State.{
  State, event_not_recorded, already_registered, register_active_ca, get_active_ca, active_ca_row,
  ca_values, ca_record, text_of,
}
use server_key_injection.State.Events.{
  EventFields, EventValues, event_record, check_event, optional, insert_event_values, record_event,
  list_events, no_filter, event_passes, event_rows,
}
use server_key_injection.State.Rows.{
  IsCa, ca_row, ca_record_from_row-ca_row, event_row, event_record_from_row-event_row,
}
use server_key_injection.State.Sound.{filter_every, passes_no_filter}
use server_key_injection.State.Issuing.{positive_rowid}
use server_key_injection.State.Checked.{validated_key}
use server_key_injection.State.Founding.{IsExporting, checked-IsCa, same_path}
use server_key_injection.State.Recorded.{IsRecordable, checked_event}
use server_key_injection.State.Inserted.{
  transaction-eq-ok, convert-eq-ok, demanded, traverse_snoc, event_inserted,
}

event_stored :
    (v : EventValues) (t : CaTables) (id : ℕ) (t' : CaTables)
    → insert_event_values v t ≡ (ok id, t')
    → (0 < id) × (record t { events = t.events ++ event_row (event_record id v) ∷ [] } ≡ t')
unfolding insert_event
event_stored v t id t' h =
    event_inserted (int_value v.occurred_at) (text v.kind) (text v.decision) (text v.request_id)
      (optional text v.identity) (optional (λ n. int_value (pos n)) v.ca_id)
      (optional (λ n. text (print_ℕ n)) v.serial) t id t'
      (transaction-eq-ok
        (insert_event_row (int_value v.occurred_at) (text v.kind) (text v.decision)
          (text v.request_id) (optional text v.identity) (optional (λ n. int_value (pos n)) v.ca_id)
          (optional (λ n. text (print_ℕ n)) v.serial))
        t h)

every_event : (rows : List EventRow) → event_rows no_filter rows ≡ rows
unfolding event_rows
every_event rows = filter_every (event_passes no_filter) rows passes_no_filter

-- An event that is recorded at a time since 1970 is listed as the record that recording it returned,
-- behind the events that were listed before.
pub list_events-record_event :
    (now : ℤ) (f : EventFields) (n : ℕ) (t t' : CaTables) (r : EventRecord) (rs : List EventRecord)
    → timestamp now f.occurred_at ≡ ok (pos n)
    → list_events no_filter t ≡ (ok rs, t)
    → record_event now f t ≡ (ok r, t')
    → list_events no_filter t' ≡ (ok (rs ++ r ∷ []), t')
unfolding list_events record_event
list_events-record_event now f n t t' r rs timed listed h =
    let write = λ (v : EventValues).
      convert event_not_recorded (insert_event_values v) >>= λ id. pure (event_record id v) in
    let (v, t1, checked, h1) = >>=-eq-ok (lift (check_event now f)) write t r t' h in
    let (id, t2, stored, h2) =
      >>=-eq-ok (convert event_not_recorded (insert_event_values v))
        (λ id. pure (event_record id v)) t1 r t' h1 in
    let (first, added) =
      event_stored v t1 id t2
        (convert-eq-ok event_not_recorded (insert_event_values v) t1 stored) in
    let valid : IsRecordable f v =
      ensured (IsRecordable f) (check_event now f) (checked_event now f n timed)
        (ap (λ p. p.0) checked) in
    let returned : event_record id v ≡ r = ok-injective (ap (λ p. p.0) h2) in
    let rows : t'.events ≡ t.events ++ event_row (event_record id v) ∷ [] =
      ap (λ (u : CaTables). u.events) (sym (ap (λ p. p.1) h2))
      ∙ ap (λ (u : CaTables). u.events) (sym added)
      ∙ ap (λ (u : CaTables). u.events ++ event_row (event_record id v) ∷ [])
          (sym (ap (λ p. p.1) checked)) in
    let reads : event_record_from_row (event_row (event_record id v)) ≡ ok r =
      event_record_from_row-event_row (event_record id v) (valid.event id first) ∙ ap ok returned in
    ap (λ xs. (traverse event_record_from_row xs, t')) (every_event t'.events ∙ rows)
    ∙ ap (λ x. (x, t'))
        (traverse_snoc event_record_from_row t.events rs (event_row (event_record id v)) r
          (ap (traverse event_record_from_row) (sym (every_event t.events)) ∙ ap (λ p. p.0) listed)
          reads)

first_active :
    (rows : List CaRow) (row : CaRow)
    → contains (map (λ (r : CaRow). r.status) rows) active ≡ false
    → row.status ≡ active
    → active_ca_row (rows ++ row ∷ []) ≡ some row
unfolding active_ca_row contains
first_active [] row none_active is_active = rw is_active (rw (beq_refl active) refl)
first_active (r ∷ rows) row none_active is_active = elim (Bool-cases (r.status == active)) [
  | inl e ↦
      let same : active ≡ r.status = sym ((value_beq_iff r.status active).0 e) in
      absurd (ground (arith, (value_beq_iff active r.status).1 same))
  | inr e ↦ rw e (first_active rows row (ground arith) is_active)
]

ca_stored :
    (v : CaValues) (t : CaTables) (id : ℕ) (t' : CaTables)
    → insert_ca v t ≡ (ok id, t')
    → (0 < id) × (active_ca_row t'.ca_keys ≡ some (ca_row (ca_record id v)))
unfolding insert_ca insert_ca_row ca_allowed
ca_stored v t id t' h =
    let ids = map (λ (r : CaRow). r.ca_id) t.ca_keys in
    let row = ca_row (ca_record (next_rowid ids) v) in
    let (allowed, same, added) =
      demanded (ca_allowed t.ca_keys row) integrity
        (λ (u : CaTables). record u { ca_keys = u.ca_keys ++ row ∷ [] }) (next_rowid ids) t
        (transaction-eq-ok
          (insert_ca_row (text v.algorithm) (bytes_value v.public_key) (text v.fingerprint)
            (text v.private_key_path) (int_value v.activated_at))
          t h) in
    (
      subst (λ k. 0 < k) same (positive_rowid ids),
      ap (λ (u : CaTables). active_ca_row u.ca_keys) (sym added)
          ∙ first_active t.ca_keys row (ground (arith, beq_refl active)) refl
          ∙ ap (λ k. some (ca_row (ca_record k v))) same,
    )

read_active :
    (import_public_key : Text → Option PublicKey) (t : CaTables) (row : CaRow) (r : CaKeyRecord)
    → active_ca_row t.ca_keys ≡ some row
    → ca_record_from_row import_public_key row ≡ ok r
    → get_active_ca import_public_key t ≡ (ok (some r), t)
unfolding get_active_ca
read_active import_public_key t row r found reads = rw (found, get_active_ca) (rw reads refl)

-- The call that inserts a CA and makes its record.
abbrev insert_and_get : CaValues → State CaKeyRecord
insert_and_get v = convert already_registered (insert_ca v) >>= λ id. pure (ca_record id v)

inserted-active :
    (import_public_key : Text → Option PublicKey) (v : CaValues) (t t' : CaTables) (r : CaKeyRecord)
    → ((id : ℕ) → 0 < id → IsCa import_public_key (ca_record id v))
    → insert_and_get v t ≡ (ok r, t')
    → get_active_ca import_public_key t' ≡ (ok (some r), t')
inserted-active imports v t t' r valid h =
    let (id, t1, stored, h1) =
      >>=-eq-ok (convert already_registered (insert_ca v)) (λ id. pure (ca_record id v)) t r t' h in
    let (first, found) =
      ca_stored v t id t1 (convert-eq-ok already_registered (insert_ca v) t stored) in
    read_active imports t' (ca_row (ca_record id v)) r
      (ap (λ (u : CaTables). active_ca_row u.ca_keys) (sym (ap (λ q. q.1) h1)) ∙ found)
      (ca_record_from_row-ca_row imports (ca_record id v) (valid id first)
        ∙ ap ok (ok-injective (ap (λ q. q.0) h1)))

-- A CA that is registered at a time since 1970 is the active one, and it is read back as the record that
-- registering it returned, where asyncssh reads the keys that it exports.
pub get_active_ca-register_active_ca :
    (import_public_key : Text → Option PublicKey) (now : ℤ) (public_key fingerprint : Value)
    (path : Text) (activated_at : TimeInput) (n : ℕ) (t t' : CaTables) (r : CaKeyRecord)
    → IsExporting import_public_key
    → timestamp now activated_at ≡ ok (pos n)
    → register_active_ca import_public_key now public_key fingerprint path activated_at t
      ≡ (ok r, t')
    → get_active_ca import_public_key t' ≡ (ok (some r), t')
unfolding register_active_ca
get_active_ca-register_active_ca imports now public_key fingerprint path activated_at n t t' r
      exporting timed h =
    let at = λ (key : PublicKey) (path : Text). lift (timestamp now activated_at) >>= λ time.
    insert_and_get (ca_values key (text_of fingerprint) path time) in
    let (key, t1, checked, h1) =
      >>=-eq-ok (lift (validate_ca_public_key imports public_key fingerprint))
        (λ key. lift (validate_private_key_path path) >>= λ p. at key p) t r t' h in
    let (p, t2, valid_path, h2) =
      >>=-eq-ok (lift (validate_private_key_path path)) (λ p. at key p) t1 r t' h1 in
    let (time, t3, time_h, h3) =
      >>=-eq-ok (lift (timestamp now activated_at))
        (λ time. insert_and_get (ca_values key (text_of fingerprint) p time)) t2 r t' h2 in
    let since : pos n ≡ time = ok-injective (sym timed ∙ ap (λ q. q.0) time_h) in
    inserted-active imports (ca_values key (text_of fingerprint) p time) t3 t' r
      (λ id first.
        subst (λ s. IsCa imports (ca_record id (ca_values key (text_of fingerprint) p s))) since
          (checked-IsCa imports now exporting fingerprint key p n id
            (validated_key imports public_key fingerprint key (ap (λ q. q.0) checked))
            (same_path imports now path p (ap (λ q. q.0) valid_path)) first))
      h3
