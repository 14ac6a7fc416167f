-- ===== src/Runtime/Reloading.antt =====
-- What a reload of src/ski/runtime.py keeps.
use mathlib.Core.Path.{subst}
use server_key_injection.Base.{
  equality_laws, ◌≡◌, refl, sym, ap, ◌∙◌, Bool, not, ◌||◌, Option, none, some, [], Result, ok, err,
  ◌>>=◌, ◌==◌, nat_eq, list_eq, option_eq, >>=-eq-ok, raise_if-eq-ok, map_err-eq-ok, ok-injective,
}
use server_key_injection.Base.Text.{codes}
use server_key_injection.Configuration.{
  Places, Request, RuntimeConfiguration, load_runtime_configuration,
}
use server_key_injection.Runtime.{Failure, other_failure, Resources, Runtime, emit}
use server_key_injection.Runtime.Lifecycle.{arguments, load, check_reload, adopt, reload_once}
use server_key_injection.Runtime.Steps.{IsConfigured, AreConfigured, IsSafe, emit-IsSafe}

module _ (request : Request) where
  -- What a reload keeps.
  abbrev pub IsKept : RuntimeConfiguration → RuntimeConfiguration → Type 0
  IsKept active candidate =
      (candidate.database ≡ active.database)
      × ((candidate.ca_private_key ≡ active.ca_private_key)
          × (candidate.ca_public_key ≡ active.ca_public_key))

  check_reload-IsKept :
      (candidate active c : RuntimeConfiguration)
      → check_reload candidate active ≡ ok c
      → (c ≡ candidate) × IsKept active c
  unfolding check_reload
  check_reload-IsKept candidate active c h =
      let (same_database, h1) =
        raise_if-eq-ok (not (candidate.database == active.database)) _ _ h in
      let (same_ca, h2) =
        raise_if-eq-ok
          (not (candidate.ca_private_key == active.ca_private_key)
            || not (candidate.ca_public_key == active.ca_public_key)
            || not (candidate.ca_krl == active.ca_krl))
          _ _ h1 in
      let same : c ≡ candidate = sym (ok-injective h2) in
      rw same (refl, (grind equality_laws, (grind equality_laws, grind equality_laws)))

  pub reload_once-IsSafe :
      (places : Places) (s : Runtime)
      → IsSafe request s
      → IsSafe request (reload_once places request s).1
  unfolding reload_once adopt
  reload_once-IsSafe places s h = go s.resources refl
    where
      adopted :
          (r : Resources)
          → IsConfigured request r
          → (result : Result Failure RuntimeConfiguration)
          → (load places request >>= λ candidate. check_reload candidate r.configuration) ≡ result
          → (s' : Runtime) → IsSafe request s'
          → IsSafe request (adopt r result s').1
      adopted r was (err e) same s' h' = emit-IsSafe request _ _ _ 4 s' h'
      adopted r was (ok c) same s' h' =
          let (candidate, loaded, checked) = >>=-eq-ok (load places request) _ same in
          let (equal, (database, (private_key, public_key))) =
            check_reload-IsKept candidate r.configuration c checked in
          emit-IsSafe request _ _ _ 6 _ (record {
            configured = record {
              places = places;
              loaded =
                  map_err-eq-ok _ (load_runtime_configuration places (arguments request)) loaded
                  ∙ ap ok (sym equal);
              database = was.database ∙ sym database;
              private_key = was.private_key ∙ sym private_key;
              public_key = was.public_key ∙ sym public_key;
            };
            started = h'.started;
            tasks = h'.tasks;
          })

      go :
          (o : Option Resources)
          → s.resources ≡ o
          → IsSafe request
              (elim o as (λ _. Result Failure Bool × Runtime) [
                | none ↦ (err (other_failure (codes "RuntimeError")), s)
                | some r ↦
                    adopt r
                      (load places request >>= λ candidate. check_reload candidate r.configuration)
                      (emit
                        (codes "service_reload_started")
                        (codes "ski configuration reload requested")
                        []
                        6
                        s)
              ]).1
      go none same = h
      go (some r) same =
          adopted r (subst (AreConfigured request) same h.configured) _ refl _
            (emit-IsSafe request _ _ _ 6 s h)
