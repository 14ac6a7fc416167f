-- ===== src/Runtime/Lifecycle.antt =====
-- The operations of `ServiceRuntime` in src/ski/runtime.py: start, reload, close and the request scope.
use server_key_injection.Base.{
  ℕ, suc, Bool, true, false, not, ◌||◌, Option, none, some, [], ◌∷◌, Result, ok, err, map_err,
  raise_if, ◌>>=◌, ◌>>◌, if◌then◌else◌, ◌==◌, nat_eq, list_eq, option_eq, contains, all,
}
use server_key_injection.Base.Int.{pos, int_eq}
use server_key_injection.Base.Text.{Text, codes, starts_with}
use server_key_injection.Base.Decimal.{print_ℕ}
use server_key_injection.Configuration.{
  Places, Request, RuntimeConfiguration, load_runtime_configuration,
}
use server_key_injection.Ca.{ValidatedCa}
use server_key_injection.Runtime.{
  Failure, error_code, OpenedState, LoadedCa, Resources, Closing, Runtime, discard, emit,
  configuration_error, other_failure, closing_listener, draining, drained_and_released, released,
}

-- What `start` finds: the machine's answers to the configuration, and what each step gives.
pub record Attempt : Type 0 where
  pub places : Places
  pub open_state : Text → Result Failure (Unit {0})
  pub import_host_key : Result Failure (Unit {0})
  pub load_ca : (private_path public_path : Text) → Result Failure ValidatedCa
  pub make_services : RuntimeConfiguration → Result Failure (Unit {0})

-- What the runtime passes on: the port 0 asks for an ephemeral one, and the CA is required.
abbrev pub arguments : Request → Request
arguments request = record request {
  allow_ephemeral_port = request.port == pos 0;
  require_ordinary_ca = true;
}

-- `load_runtime_configuration` with the arguments of the runtime
abbrev pub load : Places → Request → Result Failure RuntimeConfiguration
load places request =
    map_err configuration_error (load_runtime_configuration places (arguments request))

-- The CA's files of a configuration.
abbrev pub load_active_ca :
    (Text → Text → Result Failure ValidatedCa) → Option Text → Option Text → Result Failure LoadedCa
load_active_ca load_ca (some private_path) (some public_path) =
    load_ca private_path public_path >>= λ ca.
    ok (record { ca = ca; private_path = private_path; public_path = public_path })
load_active_ca load_ca _ _ =
    err (configuration_error (codes "ordinary CA configuration is incomplete"))

-- The steps of `start` between the opening of the database and the start of the listener.
unfoldable pub acquire : Attempt → RuntimeConfiguration → OpenedState → Result Failure Resources
acquire attempt configuration state = do
  attempt.import_host_key
  active_ca ←
      load_active_ca attempt.load_ca configuration.ca_private_key configuration.ca_public_key
  attempt.make_services configuration
  ok (record {
    configuration = configuration;
    state = state;
    active_ca = active_ca;
    issuer = state.handle;
    extensions = configuration.ordinary_extensions;
  })

-- The event of a failed start.
unfoldable pub fail_start : Failure → Runtime → Result Failure (Unit {0}) × Runtime
unfolding emit
fail_start e s = (
  err e,
  emit (codes "service_start_failed") (codes "ski startup failed")
      ((codes "SKI_ERROR_CODE", error_code e) ∷ []) 3 s,
)

abbrev pub close_state : OpenedState → Runtime → Runtime
close_state state s = record s { open_states = discard state.handle s.open_states }

unfoldable pub after_acquire :
    OpenedState → Result Failure Resources → Runtime → Result Failure (Unit {0}) × Runtime
unfolding fail_start
after_acquire state (err e) s = fail_start e (close_state state s)
after_acquire state (ok r) s = (ok tt, record s { starting = r ∷ s.starting })

unfoldable pub after_open :
    Attempt
    → RuntimeConfiguration
    → Result Failure (Unit {0})
    → Runtime
    → Result Failure (Unit {0}) × Runtime
unfolding after_acquire acquire
after_open attempt configuration (err e) s = fail_start e s
after_open attempt configuration (ok _) s =
    let state : OpenedState = record { handle = s.next_handle; path = configuration.database } in
    after_acquire state (acquire attempt configuration state)
      (record s { open_states = s.next_handle ∷ s.open_states; next_handle = suc s.next_handle })

unfoldable pub after_load :
    Attempt → Result Failure RuntimeConfiguration → Runtime → Result Failure (Unit {0}) × Runtime
unfolding after_open
after_load attempt (err e) s = fail_start e s
after_load attempt (ok configuration) s =
    after_open attempt configuration (attempt.open_state configuration.database) s

-- `start` up to its await of the listener
unfoldable pub start : Attempt → Request → Runtime → Result Failure (Unit {0}) × Runtime
unfolding after_load
start attempt request s = elim s.resources [
  | some _ ↦ (err (other_failure (codes "RuntimeError")), s)
  | none ↦
      after_load attempt (load attempt.places request)
        (emit (codes "service_starting") (codes "ski startup requested") [] 6 s)
]

-- The rest of `start`, once the listener has started, with its addresses and its port, or raised.
unfoldable pub finish_start : Resources → Result Failure (Text × ℕ) → Runtime → Runtime
unfolding fail_start
finish_start r (err e) s = (fail_start e (close_state r.state s)).1
finish_start r (ok (addresses, port)) s =
    emit (codes "service_ready") (codes "ski is ready")
      ((codes "SKI_ADDRESSES", addresses)
        ∷ (codes "SKI_BIND", r.configuration.bind)
        ∷ (codes "SKI_PORT", print_ℕ port)
        ∷ [])
      6
      (record s {
        resources = some r;
        configuration_generation = 1;
        open_listeners = r.issuer ∷ s.open_listeners;
      })

-- The paths that a reload must keep.
unfoldable pub check_reload :
    (candidate active : RuntimeConfiguration) → Result Failure RuntimeConfiguration
check_reload candidate active = do
  raise_if (not (candidate.database == active.database))
      (configuration_error (codes "restart required for database path change"))
  raise_if
      (not (candidate.ca_private_key == active.ca_private_key)
        || not (candidate.ca_public_key == active.ca_public_key)
        || not (candidate.ca_krl == active.ca_krl))
      (configuration_error (codes "restart required for CA path change"))
  ok candidate

abbrev pub reload_error_code : Failure → Text
reload_error_code (configuration_error message) =
    if starts_with message (codes "restart required")
    then codes "restart_required"
    else codes "ConfigurationError"
reload_error_code (other_failure name) = name

unfoldable pub adopt :
    Resources → Result Failure RuntimeConfiguration → Runtime → Result Failure Bool × Runtime
unfolding emit
adopt r (err e) s = (
  ok false,
  emit (codes "service_reload_rejected") (codes "ski configuration reload rejected")
      ((codes "SKI_ERROR_CODE", reload_error_code e) ∷ []) 4 s,
)
adopt r (ok candidate) s = (
  ok true,
  emit (codes "service_reload_accepted") (codes "ski configuration reload accepted")
      ((codes "SKI_CONFIG_GENERATION", print_ℕ (suc s.configuration_generation)) ∷ []) 6
      (record s {
        resources = some (record r { configuration = candidate });
        configuration_generation = suc s.configuration_generation;
      }),
)

-- `_reload_once`, which awaits nothing
unfoldable pub reload_once : Places → Request → Runtime → Result Failure Bool × Runtime
unfolding adopt check_reload
reload_once places request s = elim s.resources [
  | none ↦ (err (other_failure (codes "RuntimeError")), s)
  | some r ↦
      adopt r (load places request >>= λ candidate. check_reload candidate r.configuration)
        (emit (codes "service_reload_started") (codes "ski configuration reload requested") [] 6 s)
]

-- `close` up to its await of the listener, by the task `current`
unfoldable pub close : (current : ℕ) → Runtime → Runtime
unfolding emit
close current s = if s.close_started then s else elim s.resources [
  | none ↦ s
  | some r ↦ emit (codes "service_stopping") (codes "ski shutdown requested") [] 6 (record s {
    close_started = true;
    stopping = true;
    resources = none;
    closing = closing_listener r current;
  })
]

-- The `finally` of `close`.
unfoldable pub release : Resources → Closing → Runtime → Runtime
unfolding emit
release r closing s =
    record (emit (codes "service_stopped") (codes "ski shutdown complete") [] 6
      (record (close_state r.state s) { configuration_generation = 0 })) {
        close_complete = true;
        closing = closing;
      }

-- `close` once the listener is closed, or its closing has raised: `_drain_requests` takes the tasks to wait for.
unfoldable pub after_listener : Result Failure (Unit {0}) → Runtime → Runtime
unfolding release
after_listener result s = elim s.closing [
  | closing_listener r current ↦ elim result [
    | ok _ ↦ record s {
      open_listeners = discard r.issuer s.open_listeners;
      closing = draining r current (discard current s.in_flight);
    }
    | err _ ↦ release r released s
  ]
  | _ ↦ s
]

-- The end of `close`, where every task that it waits for has ended.
unfoldable pub finish_close : Runtime → Runtime
unfolding release
finish_close s = elim s.closing [
  | draining r current tasks ↦
      if all (λ task. not (contains s.in_flight task)) tasks
      then release r (drained_and_released current) s
      else s
  | _ ↦ s
]

-- `request_scope`: entering and leaving it
unfoldable pub enter_scope : (task : ℕ) → Runtime → Result Failure RuntimeConfiguration × Runtime
enter_scope task s = elim s.resources [
  | none ↦ (err (other_failure (codes "RuntimeError")), s)
  | some r ↦
      if s.stopping
      then (err (other_failure (codes "RuntimeError")), s)
      else (ok r.configuration, record s { in_flight = task ∷ s.in_flight })
]

abbrev pub leave_scope : (task : ℕ) → Runtime → Runtime
leave_scope task s = record s { in_flight = discard task s.in_flight }

-- `_handle_authenticated_request`: the resources that serve a request
abbrev pub serving : Runtime → Result Failure Resources
serving s = elim s.resources [ none ↦ err (other_failure (codes "RuntimeError")) | some r ↦ ok r ]
