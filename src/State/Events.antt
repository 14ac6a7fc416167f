-- ===== src/State/Events.antt =====
-- The events of src/ski/state.py: `record_event` and the listing of events with its filter.
use server_key_injection.Base.{
  ◌>>=◌ as ◌>>=ʳ◌, ℕ, Bool, true, false, ◌&&◌, Option, none, some, List, Result, ok, filter, take,
  ltb, ◌==◌, nat_eq, list_eq, option_eq, pair_eq, traverse,
}
use server_key_injection.Base.Int.{ℤ, pos, leb_ℤ}
use server_key_injection.Base.Text.{Text, codes}
use server_key_injection.Base.Decimal.{print_ℕ}
use server_key_injection.Policy.Values.{Value, none_value, int_value, value_eq}
use server_key_injection.State.Exec.{Run, pure, lift, convert, ◌>>=◌}
use server_key_injection.State.Tables.{EventRow, CaTables, SqlError, text, insert_event}
use server_key_injection.State.Validation.{
  StateError, TimeInput, timestamp, validate_text, validate_positive_id, validate_serial,
  validate_identity,
}
use server_key_injection.State.Records.{EventRecord, event_record_from_row, unless_null}
use server_key_injection.State.{State, event_not_recorded, storage_class}

-- The filters of `event_rows`; a filter that is not given passes every row.
pub record EventFilter : Type 0 where
  pub serial : Option ℕ
  pub identity : Option Text
  pub kind : Option Text
  pub from_time : Option ℤ
  pub to_time : Option ℤ
  pub limit : Option ℕ

abbrev pub no_filter : EventFilter
no_filter = record {
  serial = none;
  identity = none;
  kind = none;
  from_time = none;
  to_time = none;
  limit = none;
}

abbrev pub passes : {A : Type 0} → Option A → (A → Bool) → Bool
passes none p = true
passes (some a) p = p a

-- `occurred_at >= ?` and `occurred_at <= ?` on an INTEGER column
abbrev pub at_least : ℤ → Value → Bool
at_least bound (int_value t) = leb_ℤ bound t
at_least bound v = ltb 1 (storage_class v)

abbrev pub at_most : ℤ → Value → Bool
at_most bound (int_value t) = leb_ℤ t bound
at_most bound v = false

unfoldable pub event_passes : EventFilter → EventRow → Bool
event_passes f row =
    passes f.serial (λ n. row.serial == text (print_ℕ n))
    && passes f.identity (λ s. row.identity == text s)
    && passes f.kind (λ s. row.kind == text s)
    && passes f.from_time (λ t. at_least t row.occurred_at)
    && passes f.to_time (λ t. at_most t row.occurred_at)

abbrev pub up_to : {A : Type 0} → Option ℕ → List A → List A
up_to none xs = xs
up_to (some n) xs = take n xs

-- `event_rows`
unfoldable pub event_rows : EventFilter → List EventRow → List EventRow
unfolding event_passes
event_rows f rows = up_to f.limit (filter (event_passes f) rows)

-- The arguments of `record_event`, `none_value` where one is left out.
pub record EventFields : Type 0 where
  pub kind : Value
  pub decision : Value
  pub request_id : Value
  pub occurred_at : TimeInput
  pub identity : Value
  pub ca_id : Value
  pub serial : Value

abbrev pub optional : {A : Type 0} → (A → Value) → Option A → Value
optional f none = none_value
optional f (some a) = f a

-- The checked arguments.
pub record EventValues : Type 0 where
  pub occurred_at : ℤ
  pub kind : Text
  pub decision : Text
  pub request_id : Text
  pub identity : Option Text
  pub ca_id : Option ℕ
  pub serial : Option ℕ

abbrev pub event_record : ℕ → EventValues → EventRecord
event_record event_id v = record {
  event_id = event_id;
  occurred_at = v.occurred_at;
  kind = v.kind;
  decision = v.decision;
  request_id = v.request_id;
  identity = v.identity;
  ca_id = v.ca_id;
  serial = v.serial;
}

unfoldable pub check_event : ℤ → EventFields → Result StateError EventValues
check_event now f = validate_text f.kind (codes "event kind is malformed") >>=ʳ λ kind.
    validate_text f.decision (codes "event decision is malformed") >>=ʳ λ decision.
    validate_text f.request_id (codes "request id is malformed") >>=ʳ λ request_id.
    unless_null f.identity validate_identity >>=ʳ λ identity.
    unless_null f.ca_id validate_positive_id >>=ʳ λ ca_id.
    unless_null f.serial validate_serial >>=ʳ λ serial. timestamp now f.occurred_at >>=ʳ λ time.
    ok (record {
      occurred_at = time;
      kind = kind;
      decision = decision;
      request_id = request_id;
      identity = identity;
      ca_id = ca_id;
      serial = serial;
    })

abbrev pub insert_event_values : EventValues → Run CaTables SqlError ℕ
insert_event_values v =
    insert_event (int_value v.occurred_at) (text v.kind) (text v.decision) (text v.request_id)
      (optional text v.identity) (optional (λ n. int_value (pos n)) v.ca_id)
      (optional (λ n. text (print_ℕ n)) v.serial)

unfoldable pub record_event : ℤ → EventFields → State EventRecord
unfolding check_event
record_event now f = do
  v ← lift (check_event now f)
  event_id ← convert event_not_recorded (insert_event_values v)
  pure (event_record event_id v)

unfoldable pub list_events : EventFilter → State (List EventRecord)
unfolding event_rows
list_events f t = (traverse event_record_from_row (event_rows f t.events), t)
