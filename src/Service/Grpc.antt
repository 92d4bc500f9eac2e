-- ===== src/Service/Grpc.antt =====
-- pkg/service/grpc/service.go: how a gRPC service is put together, and Dispose. What service.New and
-- the function that makes the handler answer is an input; a handler may have a
-- Close, and may implement the description of the service.
pub mod New
pub mod Setters
pub mod Tests
use goico.Shared.{
  ℕ, zero, suc, ◌+◌, ◌-◌, ◌%◌, ◌≤◌, ◌<◌, ◌≡◌, refl, sym, ap, ◌∙◌, ◌≢◌, ◌↔◌, ◌⊎◌, inl, inr, Bool,
  true, false, not, ◌&&◌, ◌||◌, Option, none, some, List, [], ◌∷◌, ◌++◌, map, arith, ltb, leb, eqb,
  eqb_iff, lt→ltb, if◌then◌else◌, Bool-cases, Option-cases, length, get_or, set, take, drop,
  replicate, copy_at, copy_at_next, length-append, length-set, length-drop, length-take,
  length-replicate, take-length, drop_all, copy_at_last,
}
use goico.Shared.Result.{Result, ok, err}
use goico.Shared.Outcome.{Outcome, returns, panics, ◌>>=◌}
use goico.Service.Health.{ServingStatus, not_serving}
use goico.Service.Http.{
  Server, NewError, failed, pprof_addr_missing, Outside, apply_all, new_sidecar,
}
use goico.Service.Http.Setters.{
  for_sidecar, with_primary_service, with_listener, with_init_routes_fn,
}

-- What is registered at the server
pub data Registered : Type 0 where
  the_handler reflection metadata_server health_server : Registered

module _ (Base Ctx Listener Health X Handler : Type 0) where
  -- `Options`; a nil function, description, check, listener or address is `none`, or false.
  pub record Options : Type 0 where
    pub addr : List ℕ
    pub ctx : Ctx
    pub name : List ℕ
    pub new_service : Option (Ctx → Result X Handler)
    pub service_desc : Bool
    pub health_check : Option Health
    pub listener : Option Listener
    pub profiling_enabled : Bool
    pub pprof_addr : Option (List ℕ)

  -- `Service`; its health server by the status that it publishes for the service
  pub record GrpcService : Type 0 where
    pub base : Base
    pub listener : Option Listener
    pub registered : List Registered
    pub health_check : Option Health
    pub health_check_srv : Option ServingStatus
    pub closeable_fn : Option Handler
    pub sidecar_service : Option (Server Base Ctx Listener Health X)
    pub pprof_addr : Option (List ℕ)

module _ {Base Ctx Listener Health X Handler : Type 0}
    (outside : Outside Base Ctx Listener Health X) (closeable : Handler → Bool)
    (implements : Handler → Bool) (grpc_metadata : Bool) where
  open outside use {ctx_of, new_base, background}

  -- What New comes to: the handler that it has made, and a service or an error
  abbrev pub Made : Type 0
  Made =
      Option Handler
      × Result (NewError Base Ctx Listener Health X)
          (GrpcService Base Ctx Listener Health X Handler)

  -- The health server, with the status that it starts from
  unfoldable pub health_status : Option Health → Option ServingStatus
  health_status none = none
  health_status (some check) = some not_serving

  unfoldable pub registered_for : Option Health → List Registered
  registered_for check =
      (the_handler ∷ reflection ∷ [])
      ++ (if grpc_metadata then metadata_server ∷ [] else [])
      ++ (elim check [ none ↦ [] | some c ↦ health_server ∷ [] ])

  unfoldable pub with_sidecar :
      Handler
      → GrpcService Base Ctx Listener Health X Handler
      → List ℕ
      → Result X (Server Base Ctx Listener Health X)
      → Made
  with_sidecar h s addr (err x) = (some h, err (failed x))
  with_sidecar h s addr (ok side) =
      (some h, ok (record s { sidecar_service = some side; pprof_addr = some addr }))

  unfoldable pub with_base_sidecar :
      Handler
      → GrpcService Base Ctx Listener Health X Handler
      → List ℕ
      → Result X Base
      → Outcome Made
  unfolding with_sidecar new_sidecar
  with_base_sidecar h s addr (err x) = returns (some h, err (failed x))
  with_base_sidecar h s addr (ok b) = do
    made ← new_sidecar outside (
        with_primary_service b
        ∷ for_sidecar (with_listener s.listener)
        ∷ for_sidecar (with_init_routes_fn (some (λ c. none)))
        ∷ [])
    returns (with_sidecar h s addr made)

  -- The part of New for profiling
  unfoldable pub profiled :
      Ctx
      → Bool
      → Option (List ℕ)
      → Handler
      → GrpcService Base Ctx Listener Health X Handler
      → Outcome Made
  unfolding with_base_sidecar
  profiled ctx false pprof h s = returns (some h, ok s)
  profiled ctx true none h s = returns (some h, err pprof_addr_missing)
  profiled ctx true (some a) h s =
      new_base (112 ∷ 112 ∷ 114 ∷ 111 ∷ 102 ∷ []) a ctx true >>= with_base_sidecar h s a

  -- The service with its handler, before profiling
  abbrev pub handled :
      Options Base Ctx Listener Health X Handler
      → Base
      → Handler
      → GrpcService Base Ctx Listener Health X Handler
  handled opt b h = record {
    base = b;
    listener = opt.listener;
    registered = registered_for opt.health_check;
    health_check = opt.health_check;
    health_check_srv = health_status opt.health_check;
    closeable_fn = if closeable h then some h else none;
    sidecar_service = none;
    pprof_addr = none;
  }

  -- After newService: RegisterService panics without a description, and ends the program if the
  -- handler does not implement it.
  unfoldable pub with_handler :
      Options Base Ctx Listener Health X Handler → Base → Result X Handler → Outcome Made
  unfolding profiled
  with_handler opt b (err x) = returns (none, err (failed x))
  with_handler opt b (ok h) =
      if opt.service_desc && implements h
      then profiled opt.ctx opt.profiling_enabled opt.pprof_addr h (handled opt b h)
      else panics

  -- A nil newService panics when it is called.
  unfoldable pub made_by :
      Options Base Ctx Listener Health X Handler
      → Base
      → Option (Ctx → Result X Handler)
      → Outcome Made
  unfolding with_handler
  made_by opt b none = panics
  made_by opt b (some f) = with_handler opt b (f (ctx_of b))

  unfoldable pub with_base :
      Options Base Ctx Listener Health X Handler → Result X Base → Outcome Made
  unfolding made_by
  with_base opt (err x) = returns (none, err (failed x))
  with_base opt (ok b) = made_by opt b opt.new_service

  abbrev pub default_options : Options Base Ctx Listener Health X Handler
  default_options = record {
    addr = [];
    ctx = background;
    name = [];
    new_service = none;
    service_desc = false;
    health_check = none;
    listener = none;
    profiling_enabled = false;
    pprof_addr = none;
  }

  -- `New`
  unfoldable pub new :
      List (Options Base Ctx Listener Health X Handler → Options Base Ctx Listener Health X Handler)
      → Outcome Made
  unfolding with_base
  new opts =
      let opt = apply_all opts default_options in
      new_base opt.name opt.addr opt.ctx false >>= with_base opt

-- `Dispose`, by what the Close of a handler returns: the handler that is closed, and the error logged
unfoldable pub dispose :
    {Base Ctx Listener Health X Handler : Type 0}
    → (Handler → Option X)
    → GrpcService Base Ctx Listener Health X Handler
    → Option Handler × Option X
dispose close s = elim s.closeable_fn [ none ↦ (none, none) | some h ↦ (some h, close h) ]
