-- ===== src/Examples/Runtime.antt =====
-- src/ski/runtime.py on concrete values: a service that starts, admits a request, reloads and shuts down.
use server_key_injection.Base.{
  ℕ, ◌≡◌, refl, true, false, Bool, Option, none, some, List, [], ◌∷◌, Result, ok, err,
}
use server_key_injection.Base.Text.{Text, codes}
use server_key_injection.Configuration.{Request, RuntimeConfiguration, load_runtime_configuration}
use server_key_injection.Runtime.{
  Runtime, Resources, created, Closing, draining, drained_and_released,
}
use server_key_injection.Runtime.Lifecycle.{
  Attempt, start, finish_start, reload_once, close, after_listener, finish_close, enter_scope,
  leave_scope,
}
use server_key_injection.Runtime.Steps.{
  IsReachable, new, next, starts, listens, reloads, closes, listener_closes, drains, enters, leaves,
  IsDraining,
}
use server_key_injection.Runtime.Ending.{leave_all, IsReleased, leave_all-IsReleased}
use server_key_injection.Runtime.Laws.{reachable-IsDraining, IsRefusing}
use server_key_injection.Examples.Ca.{places, validated, request as without_ca}

abbrev request : Request
request = record without_ca {
  exported =
      (codes "SKI_CA_PRIVATE_KEY", codes "/etc/ski/ca")
      ∷ (codes "SKI_CA_PUBLIC_KEY", codes "/etc/ski/ca.pub")
      ∷ (codes "SKI_CA_KRL", codes "/etc/ski/krl")
      ∷ (codes "ORDINARY_CERT_EXTENSIONS", codes "pty")
      ∷ [];
  require_ordinary_ca = true;
}

abbrev attempt : Attempt
attempt = record {
  places = places;
  open_state = λ _. ok tt;
  import_host_key = ok tt;
  load_ca = λ _ _. ok validated;
  make_services = λ _. ok tt;
}

abbrev configuration : RuntimeConfiguration
configuration = record {
  bind = codes "*";
  port = server_key_injection.Base.Int.pos 2222;
  database = codes "/srv/ski/ca.db";
  ca_private_key = some (codes "/etc/ski/ca");
  ca_public_key = some (codes "/etc/ski/ca.pub");
  ca_krl = some (codes "/etc/ski/krl");
  ordinary_extensions = codes "pty" ∷ [];
  certificate_lifetime = server_key_injection.Policy.ordinary_certificate_lifetime;
  environment_file = some (codes "/home/ski/etc/env");
  values = (codes "SKI_CA_DATABASE", codes "/srv/ski/ca.db") ∷ request.exported;
}

abbrev resources : Resources
resources = record {
  configuration = configuration;
  state = record { handle = 0; path = codes "/srv/ski/ca.db" };
  active_ca = record {
    ca = validated;
    private_path = codes "/etc/ski/ca";
    public_path = codes "/etc/ski/ca.pub";
  };
  issuer = 0;
  extensions = codes "pty" ∷ [];
}

abbrev waiting : Runtime
waiting = (start attempt request created).1

abbrev ready : Runtime
ready = finish_start resources (ok (codes "0.0.0.0:2222", 2222)) (record waiting { starting = [] })

-- A request of the task 1 is in flight, and the configuration was loaded again.
abbrev reloaded : Runtime
reloaded = (reload_once places request (enter_scope 1 ready).1).1

-- The task 2 shuts the service down when the request has left.
abbrev stopped : Runtime
stopped = finish_close (leave_scope 1 (after_listener (ok tt) (close 2 reloaded)))

waiting-starting : waiting.starting ≡ resources ∷ []
unfolding start server_key_injection.Runtime.Lifecycle.after_load load_runtime_configuration
    server_key_injection.Base.list_beq server_key_injection.Base.Dict.get_field
    server_key_injection.Base.contains server_key_injection.State.Records.path_name
    server_key_injection.Base.Text.strip server_key_injection.Base.Text.split
    server_key_injection.Base.distinct server_key_injection.Base.all
    server_key_injection.Journal.make_event
waiting-starting = refl

reloaded-IsReachable : IsReachable request reloaded
reloaded-IsReachable =
    next (enter_scope 1 ready).1 reloaded
      (next ready (enter_scope 1 ready).1
        (next waiting ready (next created waiting new (starts attempt created))
          (listens resources [] [] (ok (codes "0.0.0.0:2222", 2222)) waiting waiting-starting))
        (enters 1 ready))
      (reloads places (enter_scope 1 ready).1)

stopped-IsReachable : IsReachable request stopped
stopped-IsReachable =
    next (leave_scope 1 (after_listener (ok tt) (close 2 reloaded))) stopped
      (next (after_listener (ok tt) (close 2 reloaded))
        (leave_scope 1 (after_listener (ok tt) (close 2 reloaded)))
        (next (close 2 reloaded) (after_listener (ok tt) (close 2 reloaded))
          (next reloaded (close 2 reloaded) reloaded-IsReachable (closes 2 reloaded))
          (listener_closes (ok tt) (close 2 reloaded)))
        (leaves 1 (after_listener (ok tt) (close 2 reloaded))))
      (drains (leave_scope 1 (after_listener (ok tt) (close 2 reloaded))))

reachable-IsDraining_example :
    IsDraining (drained_and_released 2) true []
    × IsRefusing request (drained_and_released 2) stopped
unfolding start reload_once enter_scope finish_start load_runtime_configuration
    server_key_injection.Journal.make_event server_key_injection.Base.all
    server_key_injection.Base.contains server_key_injection.Base.list_beq
    server_key_injection.Base.option_beq server_key_injection.Base.distinct
    server_key_injection.Base.Dict.get_field server_key_injection.State.Records.path_name
    server_key_injection.Base.Text.strip server_key_injection.Base.Text.split close after_listener
    finish_close server_key_injection.Base.filter
reachable-IsDraining_example = reachable-IsDraining request stopped stopped-IsReachable

-- A shutdown that waits for the task 1.
abbrev waiting_for_request : Runtime
waiting_for_request = record created {
  in_flight = 1 ∷ [];
  stopping = true;
  close_started = true;
  closing = draining resources 2 (1 ∷ []);
  open_states = 0 ∷ [];
  next_handle = 1;
}

leave_all-IsReleased_example :
    IsReleased resources (finish_close (leave_all (1 ∷ []) waiting_for_request))
unfolding server_key_injection.Base.all server_key_injection.Base.contains
leave_all-IsReleased_example =
    leave_all-IsReleased resources 2 (1 ∷ []) (1 ∷ []) waiting_for_request refl refl
