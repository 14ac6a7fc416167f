-- ===== src/Runtime.antt =====
-- `ServiceRuntime` of src/ski/runtime.py: its coroutines as the segments between their awaits, which the
-- event loop may run in any order.
pub mod Lifecycle
pub mod Tasks
pub mod Steps
pub mod Starting
pub mod Reloading
pub mod Draining
pub mod Ending
pub mod Laws
use server_key_injection.Base.{
  ℕ, suc, ◌+◌, Bool, true, false, not, ◌||◌, ◌&&◌, Option, none, some, List, [], ◌∷◌, ◌++◌, Result,
  ok, err, map_err, raise_if, ◌>>=◌, ◌>>◌, if◌then◌else◌, ◌==◌, nat_eq, list_eq, option_eq,
  contains, filter, all,
}
use server_key_injection.Base.Int.{ℤ, pos}
use server_key_injection.Base.Text.{Text, codes, starts_with}
use server_key_injection.Base.Decimal.{print_ℕ}
use server_key_injection.Base.Dict.{Fields}
use server_key_injection.Journal.{Event, make_event}
use server_key_injection.Configuration.{
  Places, Request, RuntimeConfiguration, load_runtime_configuration,
}
use server_key_injection.Ca.{ValidatedCa}

-- What a step of the runtime raises: a `ConfigurationError` by its message, and others by their class.
pub data Failure : Type 0 where
  configuration_error : Text → Failure
  other_failure : Text → Failure

-- `type(exc).__name__`
abbrev pub error_code : Failure → Text
error_code (configuration_error _) = codes "ConfigurationError"
error_code (other_failure name) = name

-- A database that was opened, and the path; the number tells the openings apart.
pub record OpenedState : Type 0 where
  pub handle : ℕ
  pub path : Text

-- The CA, with the paths that it was loaded from.
pub record LoadedCa : Type 0 where
  pub ca : ValidatedCa
  pub private_path : Text
  pub public_path : Text

-- `RuntimeResources`; the injector and the processor stand by the extensions that they were given, and the
-- listener by the number of its database.
pub record Resources : Type 0 where
  pub configuration : RuntimeConfiguration
  pub state : OpenedState
  pub active_ca : LoadedCa
  pub issuer : ℕ
  pub extensions : List Text

-- How far `close` has come, with the task that runs it.
pub data Closing : Type 0 where
  not_closing : Closing
  closing_listener : Resources → (current : ℕ) → Closing
  draining : Resources → (current : ℕ) → (tasks : List ℕ) → Closing
  drained_and_released : (current : ℕ) → Closing
  released : Closing

-- The fields of `ServiceRuntime`, the starts that wait for their listener, and what is open outside.
pub record Runtime : Type 0 where
  pub resources : Option Resources
  pub configuration_generation : ℕ
  pub in_flight : List ℕ
  pub stopping : Bool
  pub close_started : Bool
  pub close_complete : Bool
  pub starting : List Resources
  pub closing : Closing
  pub open_states : List ℕ
  pub open_listeners : List ℕ
  pub next_handle : ℕ
  pub events : List Event

abbrev pub created : Runtime
created = record {
  resources = none;
  configuration_generation = 0;
  in_flight = [];
  stopping = false;
  close_started = false;
  close_complete = false;
  starting = [];
  closing = not_closing;
  open_states = [];
  open_listeners = [];
  next_handle = 0;
  events = [];
}

abbrev pub discard : ℕ → List ℕ → List ℕ
discard x xs = filter (λ y. not (y == x)) xs

abbrev pub noted : Result Text Event → Runtime → Runtime
noted (ok event) s = record s { events = s.events ++ event ∷ [] }
noted (err _) s = s

-- `_emit`, whose fields are all permitted ones
unfoldable pub emit : (name message : Text) → Fields Text → ℕ → Runtime → Runtime
emit name message fields priority s = noted (make_event name message priority fields) s
