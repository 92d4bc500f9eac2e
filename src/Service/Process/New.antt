-- ===== src/Service/Process/New.antt =====
-- New of pkg/service/process/service.go, with its options.
use goico.Shared.{some, ℕ, Bool, false, Option, none, List, [], ◌∷◌}
use goico.Shared.Result.{Result, ok, err}
use goico.Shared.Outcome.{Outcome, returns, ◌>>=◌}
use goico.Service.Http.{Server, Outside, apply_all, new_sidecar}
use goico.Service.Http.Setters.{
  for_sidecar, with_primary_service, with_listener, with_init_routes_fn, with_health_check_fn,
  with_service_status_fn,
}

module _ (Base Ctx Listener Health X Start : Type 0) where
  -- `Options`
  pub record Options : Type 0 where
    pub starter : Start
    pub health_check_fn : Option Health
    pub ctx : Ctx
    pub name : List ℕ
    pub addr : List ℕ
    pub listener : Option Listener
    pub profiling_enabled : Bool

  -- `Service`
  pub record Process : Type 0 where
    pub base : Base
    pub start : Start
    pub sidecar_service : Server Base Ctx Listener Health X

module _ {Base Ctx Listener Health X Start : Type 0} where
  -- The setters
  abbrev pub with_starter :
      Start → Options Base Ctx Listener Health X Start → Options Base Ctx Listener Health X Start
  with_starter f o = record o { starter = f }

  abbrev pub with_health_check :
      Option Health
      → Options Base Ctx Listener Health X Start
      → Options Base Ctx Listener Health X Start
  with_health_check f o = record o { health_check_fn = f }

  abbrev pub with_addr :
      List ℕ → Options Base Ctx Listener Health X Start → Options Base Ctx Listener Health X Start
  with_addr a o = record o { addr = a }

  abbrev pub with_name :
      List ℕ → Options Base Ctx Listener Health X Start → Options Base Ctx Listener Health X Start
  with_name n o = record o { name = n }

  abbrev pub with_context :
      Ctx → Options Base Ctx Listener Health X Start → Options Base Ctx Listener Health X Start
  with_context c o = record o { ctx = c }

  abbrev pub with_sidecar_listener :
      Option Listener
      → Options Base Ctx Listener Health X Start
      → Options Base Ctx Listener Health X Start
  with_sidecar_listener l o = record o { listener = l }

  abbrev pub with_profiling_enabled :
      Bool → Options Base Ctx Listener Health X Start → Options Base Ctx Listener Health X Start
  with_profiling_enabled p o = record o { profiling_enabled = p }

module _ {Base Ctx Listener Health X Start : Type 0} (outside : Outside Base Ctx Listener Health X)
    (noop : Start) where
  open outside use {new_base, background}

  unfoldable pub with_sidecar :
      Start
      → Base
      → Result X (Server Base Ctx Listener Health X)
      → Result X (Process Base Ctx Listener Health X Start)
  with_sidecar start b (err x) = err x
  with_sidecar start b (ok side) = ok (record { base = b; start = start; sidecar_service = side })

  unfoldable pub with_base :
      Options Base Ctx Listener Health X Start
      → Result X Base
      → Outcome (Result X (Process Base Ctx Listener Health X Start))
  unfolding with_sidecar new_sidecar
  with_base opt (err x) = returns (err x)
  with_base opt (ok b) = do
    made ← new_sidecar outside (
        with_primary_service b
        ∷ for_sidecar (with_health_check_fn opt.health_check_fn)
        ∷ for_sidecar (with_listener opt.listener)
        ∷ with_service_status_fn
        ∷ for_sidecar (with_init_routes_fn (some (λ c. none)))
        ∷ [])
    returns (with_sidecar opt.starter b made)

  -- `New`; its base has the kind "headless", which the Boolean does not tell from a service's.
  unfoldable pub new :
      List (Options Base Ctx Listener Health X Start → Options Base Ctx Listener Health X Start)
      → Outcome (Result X (Process Base Ctx Listener Health X Start))
  unfolding with_base
  new opts =
      let opt = apply_all opts (record {
        starter = noop;
        health_check_fn = none;
        ctx = background;
        name = 110 ∷ 111 ∷ 111 ∷ 112 ∷ [];
        addr = [];
        listener = none;
        profiling_enabled = false;
      }) in
      new_base opt.name opt.addr opt.ctx false >>= with_base opt
