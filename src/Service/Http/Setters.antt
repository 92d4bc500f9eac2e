-- ===== src/Service/Http/Setters.antt =====
-- The options of pkg/service/http/service.go. An option for both kinds of service changes what they
-- have in common.
use goico.Shared.{ℕ, Bool, true, Option, none, some, List}
use goico.Service.Http.{CommonOptions, ServiceOptions, SidecarOptions}

module _ {Base Ctx Listener Health X : Type 0} where
  -- The switch on the type of the options
  abbrev pub for_service :
      (CommonOptions Base Ctx Listener Health X → CommonOptions Base Ctx Listener Health X)
      → ServiceOptions Base Ctx Listener Health X
      → ServiceOptions Base Ctx Listener Health X
  for_service f o = record o { common = f o.common }

  abbrev pub for_sidecar :
      (CommonOptions Base Ctx Listener Health X → CommonOptions Base Ctx Listener Health X)
      → SidecarOptions Base Ctx Listener Health X
      → SidecarOptions Base Ctx Listener Health X
  for_sidecar f o = record o { common = f o.common }

  -- `WithInitRoutesFn`
  abbrev pub with_init_routes_fn :
      Option (Ctx → Option X)
      → CommonOptions Base Ctx Listener Health X
      → CommonOptions Base Ctx Listener Health X
  with_init_routes_fn f c = record c { init_routes_fn = f }

  -- `WithHealthCheckFn`
  abbrev pub with_health_check_fn :
      Option Health
      → CommonOptions Base Ctx Listener Health X
      → CommonOptions Base Ctx Listener Health X
  with_health_check_fn f c = record c { health_chk_fn = f }

  -- `WithListener`, which passes over nil
  abbrev pub with_listener :
      Option Listener
      → CommonOptions Base Ctx Listener Health X
      → CommonOptions Base Ctx Listener Health X
  with_listener none c = c
  with_listener (some l) c = record c { listener = l }

  -- `WithAddr`
  abbrev pub with_addr :
      List ℕ → ServiceOptions Base Ctx Listener Health X → ServiceOptions Base Ctx Listener Health X
  with_addr a o = record o { addr = a }

  -- `WithName`
  abbrev pub with_name :
      List ℕ → ServiceOptions Base Ctx Listener Health X → ServiceOptions Base Ctx Listener Health X
  with_name n o = record o { name = n }

  -- `WithContext`
  abbrev pub with_context :
      Ctx → ServiceOptions Base Ctx Listener Health X → ServiceOptions Base Ctx Listener Health X
  with_context c o = record o { ctx = c }

  -- `WithProfilingEnabled`
  abbrev pub with_profiling_enabled :
      Bool → ServiceOptions Base Ctx Listener Health X → ServiceOptions Base Ctx Listener Health X
  with_profiling_enabled p o = record o { profiling_enabled = p }

  -- `WithPProfAddr`
  abbrev pub with_pprof_addr :
      Option (List ℕ)
      → ServiceOptions Base Ctx Listener Health X
      → ServiceOptions Base Ctx Listener Health X
  with_pprof_addr a o = record o { pprof_addr = a }

  -- `WithPrimaryService`
  abbrev pub with_primary_service :
      Base → SidecarOptions Base Ctx Listener Health X → SidecarOptions Base Ctx Listener Health X
  with_primary_service b o = record o { base = some b }

  -- `WithServiceStatusFn`
  abbrev pub with_service_status_fn :
      SidecarOptions Base Ctx Listener Health X → SidecarOptions Base Ctx Listener Health X
  with_service_status_fn o = record o { tells_status = true }
