-- ===== src/Runtime/Draining.antt =====
-- What a shutdown of src/ski/runtime.py keeps, and the requests that it waits for.
use server_key_injection.Base.{
  ℕ, ◌≡◌, refl, Bool, true, false, not, Option, none, some, List, [], ◌∷◌, Result, ok, err,
  if◌then◌else◌, nat_eq, list_eq, option_eq, contains, all, Bool-cases, inl, inr,
}
use server_key_injection.Base.Text.{Text, codes}
use server_key_injection.Journal.{Event, make_event}
use server_key_injection.Configuration.{Request, RuntimeConfiguration}
use server_key_injection.Runtime.{
  Failure, other_failure, Resources, Closing, not_closing, closing_listener, draining,
  drained_and_released, released, Runtime, discard, noted, emit,
}
use server_key_injection.Runtime.Lifecycle.{
  close_state, close, release, after_listener, finish_close, enter_scope,
}
use server_key_injection.Runtime.Tasks.{waits_for, All-discard, only_current, if_cases}
use server_key_injection.Runtime.Steps.{IsDraining, IsSafe, emit-IsSafe}

module _ (request : Request) where
  pub close-IsSafe :
      (current : ℕ) (s : Runtime) → IsSafe request s → IsSafe request (close current s)
  unfolding close
  close-IsSafe current s h =
      if_cases (IsSafe request) s.close_started _ _ (λ _. h) (λ _. go s.resources)
    where
      go :
          (o : Option Resources)
          → IsSafe request (elim o as (λ _. Runtime) [
            | none ↦ s
            | some r ↦
                emit (codes "service_stopping") (codes "ski shutdown requested") [] 6 (record s {
                  close_started = true;
                  stopping = true;
                  resources = none;
                  closing = closing_listener r current;
                })
          ])
      go none = h
      go (some r) =
          emit-IsSafe request _ _ _ 6 _
            (record { configured = tt; started = h.started; tasks = refl })

  release-IsSafe :
      (r : Resources) (closing : Closing) (s : Runtime)
      → IsSafe request s
      → IsDraining closing s.stopping s.in_flight
      → IsSafe request (release r closing s)
  unfolding release emit
  release-IsSafe r closing s h tasks =
      go (make_event (codes "service_stopped") (codes "ski shutdown complete") 6 [])
    where
      go :
          (event : Result Text Event)
          → IsSafe request
              (record (noted event
                (record (close_state r.state s) { configuration_generation = 0 })) {
                  close_complete = true;
                  closing = closing;
                })
      go (ok event) = record { configured = h.configured; started = h.started; tasks = tasks }
      go (err e) = record { configured = h.configured; started = h.started; tasks = tasks }

  pub after_listener-IsSafe :
      (result : Result Failure (Unit {0})) (s : Runtime)
      → IsSafe request s
      → IsSafe request (after_listener result s)
  unfolding after_listener
  after_listener-IsSafe result s h = go s.closing h.tasks result
    where
      go :
          (c : Closing)
          → IsDraining c s.stopping s.in_flight
          → (result : Result Failure (Unit {0}))
          → IsSafe request (elim c as (λ _. Runtime) [
            | closing_listener r current ↦ elim result [
              | ok _ ↦ record s {
                open_listeners = discard r.issuer s.open_listeners;
                closing = draining r current (discard current s.in_flight);
              }
              | err _ ↦ release r released s
            ]
            | _ ↦ s
          ])
      go (closing_listener r current) tasks (ok _) = record {
        configured = h.configured;
        started = h.started;
        tasks = (tasks, waits_for current s.in_flight);
      }
      go (closing_listener r current) tasks (err e) = release-IsSafe r released s h tasks
      go not_closing tasks result = h
      go (draining r current waited) tasks result = h
      go (drained_and_released current) tasks result = h
      go released tasks result = h

  pub finish_close-IsSafe : (s : Runtime) → IsSafe request s → IsSafe request (finish_close s)
  unfolding finish_close
  finish_close-IsSafe s h = go s.closing h.tasks
    where
      go :
          (c : Closing)
          → IsDraining c s.stopping s.in_flight
          → IsSafe request (elim c as (λ _. Runtime) [
            | draining r current tasks ↦
                if all (λ task. not (contains s.in_flight task)) tasks
                then release r (drained_and_released current) s
                else s
            | _ ↦ s
          ])
      go (draining r current waited) tasks =
          elim (Bool-cases (all (λ task. not (contains s.in_flight task)) waited)) [
            | inl e ↦ rw e (
                release-IsSafe r (drained_and_released current) s h
                  (tasks.0, only_current current waited s.in_flight e tasks.1))
            | inr e ↦ rw e h
          ]
      go not_closing tasks = h
      go (closing_listener r current) tasks = h
      go (drained_and_released current) tasks = h
      go released tasks = h

  entered :
      (c : Closing) (task : ℕ) (stopping : Bool) (in_flight : List ℕ)
      → stopping ≡ false
      → IsDraining c stopping in_flight
      → IsDraining c stopping (task ∷ in_flight)
  entered not_closing task stopping in_flight running h = tt
  entered (closing_listener r current) task stopping in_flight running h = h
  entered (draining r current tasks) task stopping in_flight running h = absurd (cc)
  entered (drained_and_released current) task stopping in_flight running h = absurd (cc)
  entered released task stopping in_flight running h = h

  pub left :
      (c : Closing) (task : ℕ) (stopping : Bool) (in_flight : List ℕ)
      → IsDraining c stopping in_flight
      → IsDraining c stopping (discard task in_flight)
  left not_closing task stopping in_flight h = tt
  left (closing_listener r current) task stopping in_flight h = h
  left (draining r current tasks) task stopping in_flight h =
      (h.0, All-discard _ task in_flight h.1)
  left (drained_and_released current) task stopping in_flight h =
      (h.0, All-discard _ task in_flight h.1)
  left released task stopping in_flight h = h

  pub enter_scope-IsSafe :
      (task : ℕ) (s : Runtime) → IsSafe request s → IsSafe request (enter_scope task s).1
  unfolding enter_scope
  enter_scope-IsSafe task s h = go s.resources
    where
      go :
          (o : Option Resources)
          → IsSafe request
              (elim o as (λ _. Result Failure RuntimeConfiguration × Runtime) [
                | none ↦ (err (other_failure (codes "RuntimeError")), s)
                | some r ↦
                    if s.stopping
                    then (err (other_failure (codes "RuntimeError")), s)
                    else (ok r.configuration, record s { in_flight = task ∷ s.in_flight })
              ]).1
      go none = h
      go (some r) =
          if_cases (λ (x : Result Failure RuntimeConfiguration × Runtime). IsSafe request x.1)
            s.stopping _ _ (λ _. h)
            λ running. record {
              configured = h.configured;
              started = h.started;
              tasks = entered s.closing task s.stopping s.in_flight running h.tasks;
            }
