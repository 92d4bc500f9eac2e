-- ===== src/Service/Grpc/Setters.antt =====
-- The options of pkg/service/grpc/service.go
use goico.Shared.{ℕ, Bool, Option, List}
use goico.Shared.Result.{Result}
use goico.Service.Grpc.{Options}

module _ {Base Ctx Listener Health X Handler : Type 0} where
  -- `WithAddr`
  abbrev pub with_addr :
      List ℕ
      → Options Base Ctx Listener Health X Handler
      → Options Base Ctx Listener Health X Handler
  with_addr a o = record o { addr = a }

  -- `WithHealthCheckFn`
  abbrev pub with_health_check_fn :
      Option Health
      → Options Base Ctx Listener Health X Handler
      → Options Base Ctx Listener Health X Handler
  with_health_check_fn f o = record o { health_check = f }

  -- `WithName`
  abbrev pub with_name :
      List ℕ
      → Options Base Ctx Listener Health X Handler
      → Options Base Ctx Listener Health X Handler
  with_name n o = record o { name = n }

  -- `WithContext`
  abbrev pub with_context :
      Ctx → Options Base Ctx Listener Health X Handler → Options Base Ctx Listener Health X Handler
  with_context c o = record o { ctx = c }

  -- `WithNewServiceFn`
  abbrev pub with_new_service_fn :
      Option (Ctx → Result X Handler)
      → Options Base Ctx Listener Health X Handler
      → Options Base Ctx Listener Health X Handler
  with_new_service_fn f o = record o { new_service = f }

  -- `WithServiceDesc`
  abbrev pub with_service_desc :
      Bool → Options Base Ctx Listener Health X Handler → Options Base Ctx Listener Health X Handler
  with_service_desc given o = record o { service_desc = given }

  -- `WithListener`, which sets nil too
  abbrev pub with_listener :
      Option Listener
      → Options Base Ctx Listener Health X Handler
      → Options Base Ctx Listener Health X Handler
  with_listener l o = record o { listener = l }

  -- `WithProfilingEnabled`
  abbrev pub with_profiling_enabled :
      Bool → Options Base Ctx Listener Health X Handler → Options Base Ctx Listener Health X Handler
  with_profiling_enabled p o = record o { profiling_enabled = p }

  -- `WithPProfAddr`
  abbrev pub with_pprof_addr :
      Option (List ℕ)
      → Options Base Ctx Listener Health X Handler
      → Options Base Ctx Listener Health X Handler
  with_pprof_addr a o = record o { pprof_addr = a }
