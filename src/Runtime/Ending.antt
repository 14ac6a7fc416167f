-- ===== src/Runtime/Ending.antt =====
-- How a shutdown of src/ski/runtime.py ends when the requests that it waits for do.
use mathlib.Core.Path.{subst}
use server_key_injection.Base.{
  ℕ, ◌≡◌, refl, sym, true, false, not, ◌&&◌, List, [], ◌∷◌, Result, ok, err, if◌then◌else◌, ◌==◌,
  nat_eq, contains, contains-filter, all, arith,
}
use server_key_injection.Base.Text.{Text, codes}
use server_key_injection.Journal.{Event, make_event}
use server_key_injection.Runtime.{
  Resources, Closing, draining, drained_and_released, Runtime, discard, noted, emit,
}
use server_key_injection.Runtime.Tasks.{if_cases, true_ne_false}
use server_key_injection.Runtime.Lifecycle.{close_state, release, finish_close, leave_scope}

-- The tasks leave the request scope, one after another.
abbrev pub leave_all : List ℕ → Runtime → Runtime
leave_all [] s = s
leave_all (task ∷ order) s = leave_all order (leave_scope task s)

abbrev discard_all : List ℕ → List ℕ → List ℕ
discard_all [] in_flight = in_flight
discard_all (task ∷ order) in_flight = discard_all order (discard task in_flight)

leave_all-in_flight :
    (order : List ℕ) (s : Runtime)
    → leave_all order s ≡ record s { in_flight = discard_all order s.in_flight }
leave_all-in_flight [] s = refl
leave_all-in_flight (task ∷ order) s = leave_all-in_flight order (leave_scope task s)

contains-discard_all :
    (order in_flight : List ℕ) (task : ℕ)
    → contains (discard_all order in_flight) task
      ≡ (contains in_flight task && not (contains order task))
unfolding contains
contains-discard_all [] in_flight task = ground arith
contains-discard_all (x ∷ order) in_flight task = ground (
  arith,
  contains-discard_all order (discard x in_flight) task,
  contains-filter (λ y. not (y == x)) in_flight task,
)

none_left :
    (order in_flight tasks : List ℕ)
    → all (contains order) tasks ≡ true
    → all (λ task. not (contains (discard_all order in_flight) task)) tasks ≡ true
unfolding all
none_left order in_flight [] h = refl
none_left order in_flight (task ∷ tasks) h =
    ground (arith, contains-discard_all order in_flight task, none_left order in_flight tasks)

-- The shutdown is complete, and the database is no longer open.
abbrev pub IsReleased : Resources → Runtime → Type 0
IsReleased r s = (s.close_complete ≡ true) × (contains s.open_states r.state.handle ≡ false)

release-IsReleased :
    (r : Resources) (closing : Closing) (s : Runtime) → IsReleased r (release r closing s)
unfolding release emit
release-IsReleased r closing s =
    go (make_event (codes "service_stopped") (codes "ski shutdown complete") 6 [])
  where
    closed : contains (discard r.state.handle s.open_states) r.state.handle ≡ false
    closed =
        ground
          (arith, contains-filter (λ y. not (y == r.state.handle)) s.open_states r.state.handle)

    go :
        (event : Result Text Event)
        → IsReleased r
            (record (noted event
              (record (close_state r.state s) { configuration_generation = 0 })) {
                close_complete = true;
                closing = closing;
              })
    go (ok event) = (refl, closed)
    go (err e) = (refl, closed)

finish_close-IsReleased :
    (r : Resources) (current : ℕ) (tasks : List ℕ) (s : Runtime)
    → s.closing ≡ draining r current tasks
    → all (λ task. not (contains s.in_flight task)) tasks ≡ true
    → IsReleased r (finish_close s)
unfolding finish_close
finish_close-IsReleased r current tasks s h ended =
    subst
      (λ (c : Closing). IsReleased r (elim c as (λ _. Runtime) [
        | draining r current tasks ↦
            if all (λ task. not (contains s.in_flight task)) tasks
            then release r (drained_and_released current) s
            else s
        | _ ↦ s
      ]))
      (sym h)
      (if_cases (IsReleased r) (all (λ task. not (contains s.in_flight task)) tasks) _ _
        (λ _. release-IsReleased r (drained_and_released current) s)
        λ waiting. absurd (true_ne_false _ ended waiting))

-- When the tasks that a draining shutdown waits for have left the request scope, in whatever order and
-- whichever others leave with them, the shutdown completes and the database is closed.
pub leave_all-IsReleased :
    (r : Resources) (current : ℕ) (tasks order : List ℕ) (s : Runtime)
    → s.closing ≡ draining r current tasks
    → all (contains order) tasks ≡ true
    → IsReleased r (finish_close (leave_all order s))
leave_all-IsReleased r current tasks order s h left =
    subst (λ x. IsReleased r (finish_close x)) (sym (leave_all-in_flight order s))
      (finish_close-IsReleased r current tasks
        (record s { in_flight = discard_all order s.in_flight }) h
        (none_left order s.in_flight tasks left))
