-- ===== src/Runtime/Starting.antt =====
-- What a start of src/ski/runtime.py leaves, when it succeeds and when it fails.
use server_key_injection.Base.{
  ℕ, suc, ◌≡◌, refl, sym, ap, ◌∙◌, Option, none, some, [], ◌∷◌, Result, ok, err, nat_eq, list_eq,
  option_eq, Ensures, Ensures->>=, ensured, map_err-eq-ok,
}
use server_key_injection.Base.Text.{Text, codes}
use server_key_injection.Configuration.{Request, RuntimeConfiguration, load_runtime_configuration}
use server_key_injection.Ca.{ValidatedCa}
use server_key_injection.Runtime.{
  Failure, other_failure, OpenedState, LoadedCa, Resources, Runtime, emit,
}
use server_key_injection.Runtime.Lifecycle.{
  arguments, Attempt, load, load_active_ca, acquire, close_state, after_acquire, after_open,
  after_load, start, finish_start,
}
use server_key_injection.Runtime.Steps.{IsConfigured, IsSafe, emit-IsSafe, fail_start-IsSafe}

module _ (request : Request) where
  Acquired : RuntimeConfiguration → OpenedState → Resources → Type 0
  Acquired c state r =
      (r.configuration ≡ c)
      × (r.state ≡ state)
      × ((some r.active_ca.private_path ≡ c.ca_private_key)
          × (some r.active_ca.public_path ≡ c.ca_public_key))

  load_active_ca-paths :
      (load_ca : Text → Text → Result Failure ValidatedCa) (private_key public_key : Option Text)
      → Ensures
          (λ (l : LoadedCa).
            (some l.private_path ≡ private_key) × (some l.public_path ≡ public_key))
          (load_active_ca load_ca private_key public_key)
  unfolding Ensures
  load_active_ca-paths load_ca (some private_path) (some public_path) =
      Ensures->>= _ (load_ca private_path public_path) _ λ ca h. (refl, refl)
  load_active_ca-paths load_ca (some private_path) none = tt
  load_active_ca-paths load_ca none public_key = tt

  acquire-Acquired :
      (attempt : Attempt) (c : RuntimeConfiguration) (state : OpenedState)
      → Ensures (Acquired c state) (acquire attempt c state)
  unfolding Ensures acquire Acquired
  acquire-Acquired attempt c state = Ensures->>= (Acquired c state) attempt.import_host_key _ λ _ _.
      Ensures->>= (Acquired c state)
        (load_active_ca attempt.load_ca c.ca_private_key c.ca_public_key) _
        λ active_ca h. Ensures->>= (Acquired c state) (attempt.make_services c) _ λ _ _. (
          refl,
          refl,
          ensured _ (load_active_ca attempt.load_ca c.ca_private_key c.ca_public_key)
              (load_active_ca-paths attempt.load_ca c.ca_private_key c.ca_public_key) h,
        )

  after_acquire-IsSafe :
      (state : OpenedState) (result : Result Failure Resources) (s : Runtime)
      → Ensures (IsConfigured request) result
      → IsSafe request s
      → IsSafe request (after_acquire state result s).1
  unfolding after_acquire Ensures
  after_acquire-IsSafe state (err e) s made h =
      fail_start-IsSafe request e (close_state state s)
        (record { configured = h.configured; started = h.started; tasks = h.tasks })
  after_acquire-IsSafe state (ok r) s made h = record {
    configured = h.configured;
    started = (made, h.started);
    tasks = h.tasks;
  }

  acquire-IsConfigured :
      (attempt : Attempt) (c : RuntimeConfiguration) (handle : ℕ)
      → load_runtime_configuration attempt.places (arguments request) ≡ ok c
      → (result : Result Failure Resources)
      → Ensures (Acquired c (record { handle = handle; path = c.database })) result
      → Ensures (IsConfigured request) result
  unfolding Ensures Acquired
  acquire-IsConfigured attempt c handle loaded (err e) h = tt
  acquire-IsConfigured attempt c handle loaded (ok r) (same, state, (private_key, public_key)) =
      record {
        places = attempt.places;
        loaded = loaded ∙ ap ok (sym same);
        database =
            ap (λ (x : OpenedState). x.path) state
            ∙ ap (λ (x : RuntimeConfiguration). x.database) (sym same);
        private_key = private_key ∙ ap (λ (x : RuntimeConfiguration). x.ca_private_key) (sym same);
        public_key = public_key ∙ ap (λ (x : RuntimeConfiguration). x.ca_public_key) (sym same);
      }

  after_load-IsSafe :
      (attempt : Attempt) (result : Result Failure RuntimeConfiguration) (s : Runtime)
      → load attempt.places request ≡ result
      → IsSafe request s
      → IsSafe request (after_load attempt result s).1
  unfolding after_load after_open
  after_load-IsSafe attempt (err e) s same h = fail_start-IsSafe request e s h
  after_load-IsSafe attempt (ok c) s same h = opened (attempt.open_state c.database)
    where
      opened : (o : Result Failure (Unit {0})) → IsSafe request (after_open attempt c o s).1
      opened (err e) = fail_start-IsSafe request e s h
      opened (ok _) =
          let state : OpenedState = record { handle = s.next_handle; path = c.database } in
          after_acquire-IsSafe state (acquire attempt c state)
            (record s {
              open_states = s.next_handle ∷ s.open_states;
              next_handle = suc s.next_handle;
            })
            (acquire-IsConfigured attempt c s.next_handle
              (map_err-eq-ok _ (load_runtime_configuration attempt.places (arguments request)) same)
              (acquire attempt c state) (acquire-Acquired attempt c state))
            (record { configured = h.configured; started = h.started; tasks = h.tasks })

  pub start-IsSafe :
      (attempt : Attempt) (s : Runtime)
      → IsSafe request s
      → IsSafe request (start attempt request s).1
  unfolding start
  start-IsSafe attempt s h = go s.resources
    where
      go :
          (o : Option Resources)
          → IsSafe request
              (elim o as (λ _. Result Failure (Unit {0}) × Runtime) [
                | some _ ↦ (err (other_failure (codes "RuntimeError")), s)
                | none ↦
                    after_load attempt
                      (load attempt.places request)
                      (emit (codes "service_starting") (codes "ski startup requested") [] 6 s)
              ]).1
      go (some r) = h
      go none =
          after_load-IsSafe attempt (load attempt.places request) _ refl
            (emit-IsSafe request _ _ _ 6 s h)

  pub finish_start-IsSafe :
      (r : Resources) (result : Result Failure (Text × ℕ)) (s : Runtime)
      → IsConfigured request r
      → IsSafe request s
      → IsSafe request (finish_start r result s)
  unfolding finish_start
  finish_start-IsSafe r (err e) s made h =
      fail_start-IsSafe request e (close_state r.state s)
        (record { configured = h.configured; started = h.started; tasks = h.tasks })
  finish_start-IsSafe r (ok (addresses, port)) s made h =
      emit-IsSafe request _ _ _ 6 _
        (record { configured = made; started = h.started; tasks = h.tasks })
