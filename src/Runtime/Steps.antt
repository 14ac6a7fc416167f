-- ===== src/Runtime/Steps.antt =====
-- The runtime of src/ski/runtime.py as a state machine, and the invariant of its states.
use server_key_injection.Base.{
  ℕ, ◌≡◌, Bool, true, ◌||◌, Option, none, some, List, ◌∷◌, ◌++◌, Result, ok, err, ◌==◌, nat_eq,
  list_eq, option_eq, contains, All,
}
use server_key_injection.Base.Text.{Text}
use server_key_injection.Base.Dict.{Fields}
use server_key_injection.Journal.{Event, make_event}
use server_key_injection.Configuration.{Places, Request, load_runtime_configuration}
use server_key_injection.Runtime.{
  Failure, Resources, Closing, not_closing, closing_listener, draining, drained_and_released,
  released, Runtime, created, noted, emit,
}
use server_key_injection.Runtime.Lifecycle.{
  arguments, Attempt, fail_start, start, finish_start, reload_once, close, after_listener,
  finish_close, enter_scope, leave_scope,
}

-- One segment of a coroutine.
pub data Step (request : Request) : Runtime → Runtime → Type 0 where
  starts : (attempt : Attempt) (s : Runtime) → Step request s (start attempt request s).1
  listens :
      (r : Resources) (before after : List Resources) (result : Result Failure (Text × ℕ))
      (s : Runtime)
      → s.starting ≡ before ++ r ∷ after
      → Step request s (finish_start r result (record s { starting = before ++ after }))
  reloads : (places : Places) (s : Runtime) → Step request s (reload_once places request s).1
  closes : (current : ℕ) (s : Runtime) → Step request s (close current s)
  listener_closes :
      (result : Result Failure (Unit {0})) (s : Runtime) → Step request s (after_listener result s)
  drains : (s : Runtime) → Step request s (finish_close s)
  enters : (task : ℕ) (s : Runtime) → Step request s (enter_scope task s).1
  leaves : (task : ℕ) (s : Runtime) → Step request s (leave_scope task s)

pub data IsReachable (request : Request) : Runtime → Type 0 where
  new : IsReachable request created
  next : (s s' : Runtime) → IsReachable request s → Step request s s' → IsReachable request s'

-- The configuration was loaded with the runtime's arguments; the database was opened at its path, and the CA
-- loaded from its files.
pub record IsConfigured (request : Request) (r : Resources) : Type 0 where
  pub places : Places
  pub loaded : load_runtime_configuration places (arguments request) ≡ ok r.configuration
  pub database : r.state.path ≡ r.configuration.database
  pub private_key : some r.active_ca.private_path ≡ r.configuration.ca_private_key
  pub public_key : some r.active_ca.public_path ≡ r.configuration.ca_public_key

abbrev pub AreConfigured : Request → Option Resources → Type 0
AreConfigured request none = Unit
AreConfigured request (some r) = IsConfigured request r

-- The tasks that are in flight while the runtime shuts down.
abbrev pub IsDraining : Closing → (stopping : Bool) → (in_flight : List ℕ) → Type 0
IsDraining not_closing stopping in_flight = Unit
IsDraining (closing_listener r current) stopping in_flight = stopping ≡ true
IsDraining (draining r current tasks) stopping in_flight =
    (stopping ≡ true) × All (λ task. (task == current || contains tasks task) ≡ true) in_flight
IsDraining (drained_and_released current) stopping in_flight =
    (stopping ≡ true) × All (λ task. task ≡ current) in_flight
IsDraining released stopping in_flight = stopping ≡ true

module _ (request : Request) where
  pub record IsSafe (s : Runtime) : Type 0 where
    pub configured : AreConfigured request s.resources
    pub started : All (IsConfigured request) s.starting
    pub tasks : IsDraining s.closing s.stopping s.in_flight

  noted-IsSafe : (event : Result Text Event) (s : Runtime) → IsSafe s → IsSafe (noted event s)
  noted-IsSafe (ok event) s h = record {
    configured = h.configured;
    started = h.started;
    tasks = h.tasks;
  }
  noted-IsSafe (err e) s h = h

  pub emit-IsSafe :
      (name message : Text) (fields : Fields Text) (priority : ℕ) (s : Runtime)
      → IsSafe s
      → IsSafe (emit name message fields priority s)
  unfolding emit
  emit-IsSafe name message fields priority s h =
      noted-IsSafe (make_event name message priority fields) s h

  pub fail_start-IsSafe : (e : Failure) (s : Runtime) → IsSafe s → IsSafe (fail_start e s).1
  unfolding fail_start
  fail_start-IsSafe e s h = emit-IsSafe _ _ _ 3 s h
