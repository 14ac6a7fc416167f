-- ===== src/Runtime/Laws.antt =====
-- What holds of the runtime of src/ski/runtime.py in any order of the segments of its coroutines.
use mathlib.Core.Path.{subst}
use server_key_injection.Base.{
  ℕ, ◌≡◌, refl, true, Option, none, some, List, [], ◌∷◌, ◌++◌, Result, ok, err, if◌then◌else◌,
  nat_eq, list_eq, option_eq, All,
}
use server_key_injection.Base.Text.{codes}
use server_key_injection.Configuration.{Request, RuntimeConfiguration}
use server_key_injection.Runtime.{
  Failure, other_failure, Resources, Closing, not_closing, closing_listener, draining,
  drained_and_released, released, Runtime,
}
use server_key_injection.Runtime.Lifecycle.{enter_scope}
use server_key_injection.Runtime.Tasks.{if_cases, true_ne_false}
use server_key_injection.Runtime.Starting.{start-IsSafe, finish_start-IsSafe}
use server_key_injection.Runtime.Reloading.{reload_once-IsSafe}
use server_key_injection.Runtime.Draining.{
  close-IsSafe, after_listener-IsSafe, finish_close-IsSafe, enter_scope-IsSafe, left,
}
use server_key_injection.Runtime.Steps.{
  Step, starts, listens, reloads, closes, listener_closes, drains, enters, leaves, IsReachable, new,
  next, IsConfigured, IsDraining, IsSafe,
}

All_middle :
    (P : Resources → Type 0) (before after : List Resources) (r : Resources)
    → All P (before ++ r ∷ after)
    → P r × All P (before ++ after)
All_middle P [] after r h = h
All_middle P (x ∷ before) after r h =
    let (here, rest) = All_middle P before after r h.1 in (here, (h.0, rest))

module _ (request : Request) where
  Step-IsSafe : (s s' : Runtime) → Step request s s' → IsSafe request s → IsSafe request s'
  Step-IsSafe _ _ (starts attempt s) h = start-IsSafe request attempt s h
  Step-IsSafe _ _ (listens r before after result s same) h =
      let (made, started) =
        All_middle (IsConfigured request) before after r
          (subst (All (IsConfigured request)) same h.started) in
      finish_start-IsSafe request r result (record s { starting = before ++ after }) made
        (record { configured = h.configured; started = started; tasks = h.tasks })
  Step-IsSafe _ _ (reloads places s) h = reload_once-IsSafe request places s h
  Step-IsSafe _ _ (closes current s) h = close-IsSafe request current s h
  Step-IsSafe _ _ (listener_closes result s) h = after_listener-IsSafe request result s h
  Step-IsSafe _ _ (drains s) h = finish_close-IsSafe request s h
  Step-IsSafe _ _ (enters task s) h = enter_scope-IsSafe request task s h
  Step-IsSafe _ _ (leaves task s) h = record {
    configured = h.configured;
    started = h.started;
    tasks = left request s.closing task s.stopping s.in_flight h.tasks;
  }

  reachable-IsSafe : (s : Runtime) → IsReachable request s → IsSafe request s
  reachable-IsSafe _ new = record { configured = tt; started = tt; tasks = tt }
  reachable-IsSafe _ (next s s' before step) = Step-IsSafe s s' step (reachable-IsSafe s before)

  -- After a shutdown has begun, a request is refused.
  abbrev pub IsRefusing : Closing → Runtime → Type 0
  IsRefusing not_closing s = Unit
  IsRefusing _ s = (task : ℕ) → enter_scope task s ≡ (err (other_failure (codes "RuntimeError")), s)

  stopping-refuses :
      (s : Runtime)
      → s.stopping ≡ true
      → (task : ℕ) → enter_scope task s ≡ (err (other_failure (codes "RuntimeError")), s)
  unfolding enter_scope
  stopping-refuses s stopping task = go s.resources
    where
      go :
          (o : Option Resources)
          → elim o as (λ _. Result Failure RuntimeConfiguration × Runtime) [
            | none ↦ (err (other_failure (codes "RuntimeError")), s)
            | some r ↦
                if s.stopping
                then (err (other_failure (codes "RuntimeError")), s)
                else (ok r.configuration, record s { in_flight = task ∷ s.in_flight })
          ]
            ≡ (err (other_failure (codes "RuntimeError")), s)
      go none = refl
      go (some r) =
          if_cases (λ x. x ≡ (err (other_failure (codes "RuntimeError")), s)) s.stopping _ _
            (λ _. refl) λ running. absurd (true_ne_false s.stopping stopping running)

  draining-IsRefusing :
      (c : Closing) (s : Runtime) → IsDraining c s.stopping s.in_flight → IsRefusing c s
  draining-IsRefusing not_closing s h = tt
  draining-IsRefusing (closing_listener r current) s h = stopping-refuses s h
  draining-IsRefusing (draining r current tasks) s h = stopping-refuses s h.0
  draining-IsRefusing (drained_and_released current) s h = stopping-refuses s h.0
  draining-IsRefusing released s h = stopping-refuses s h

  -- Once a shutdown has begun, no request is admitted, and while it drains, every request in flight is one
  -- that it waits for or the task that shuts down; when it has drained and released the database, no
  -- other task is in flight.
  pub reachable-IsDraining :
      (s : Runtime)
      → IsReachable request s
      → IsDraining s.closing s.stopping s.in_flight × IsRefusing s.closing s
  reachable-IsDraining s reached =
      let h = (reachable-IsSafe s reached).tasks in (h, draining-IsRefusing s.closing s h)
