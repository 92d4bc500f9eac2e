-- ===== src/Service/Http.antt =====
-- pkg/service/http/service.go: how an HTTP service and its sidecar are put together. The base of a
-- service, listeners, contexts and the functions of a health check are values that the caller gives;
-- `service.New` and the functions that set up routes answer as the inputs say. An option is a
-- function on the options.
pub mod New
pub mod Setters
pub mod Handlers
pub mod Recover
pub mod Tests
use goico.Shared.{
  ℕ, zero, suc, ◌+◌, ◌-◌, ◌%◌, ◌≤◌, ◌<◌, ◌≡◌, refl, sym, ap, ◌∙◌, ◌≢◌, ◌↔◌, ◌⊎◌, inl, inr, Bool,
  true, false, not, ◌&&◌, ◌||◌, Option, none, some, List, [], ◌∷◌, ◌++◌, map, arith, ltb, leb, eqb,
  eqb_iff, lt→ltb, if◌then◌else◌, Bool-cases, Option-cases, length, get_or, set, take, drop,
  replicate, copy_at, copy_at_next, length-append, length-set, length-drop, length-take,
  length-replicate, take-length, drop_all, copy_at_last,
}
use goico.Shared.Result.{Result, ok, err}
use goico.Shared.Outcome.{Outcome, returns, panics, ◌>>=◌}

pub data Route : Type 0 where
  meta health : Route

module _ (Base Ctx Listener Health X : Type 0) where
  -- `commonOptions`; the stack level only changes what the recovery writes
  pub record CommonOptions : Type 0 where
    pub health_chk_fn : Option Health
    pub listener : Listener
    pub init_routes_fn : Option (Ctx → Option X)

  -- `ServiceOptions`
  pub record ServiceOptions : Type 0 where
    pub addr : List ℕ
    pub common : CommonOptions
    pub ctx : Ctx
    pub name : List ℕ
    pub profiling_enabled : Bool
    pub pprof_addr : Option (List ℕ)

  -- `SidecarOptions`; a sidecar need not tell a status
  pub record SidecarOptions : Type 0 where
    pub common : CommonOptions
    pub base : Option Base
    pub tells_status : Bool

  -- `Service`, less its own sidecar and its pool
  pub record Server : Type 0 where
    pub base : Base
    pub imsidecar : Bool
    pub listener : Listener
    pub health_check_func : Option Health
    pub routes : List Route
    pub tells_status : Bool

  -- `Service`
  pub record Service : Type 0 where
    pub server : Server
    pub sidecar_service : Option Server
    pub pprof_addr : Option (List ℕ)

  -- What New returns besides: an error of a call, or "pprofAddr is nill and profilingEnabled is true"
  pub data NewError : Type 0 where
    failed : X → NewError
    pprof_addr_missing : NewError

-- What lies outside the package: the context of a base, `service.New` from a name, an address, a context
-- and whether it is the base of a sidecar, the defaults, and the two variables for the metadata.
pub record Outside (Base Ctx Listener Health X : Type 0) : Type 0 where
  pub ctx_of : Base → Ctx
  pub new_base : List ℕ → List ℕ → Ctx → Bool → Outcome (Result X Base)
  pub background : Ctx
  pub default_listener : Listener
  pub metadata_enabled : Bool
  pub metadata_enabled_sidecar : Bool

abbrev pub apply_all {ℓ} : {A : Type ℓ} → List (A → A) → A → A
apply_all [] o = o
apply_all (f ∷ fs) o = apply_all fs (f o)

module _ {Base Ctx Listener Health X : Type 0} (outside : Outside Base Ctx Listener Health X) where
  open outside use {
    ctx_of, new_base, background, default_listener, metadata_enabled, metadata_enabled_sidecar,
  }

  abbrev default_common : CommonOptions Base Ctx Listener Health X
  default_common = record {
    health_chk_fn = none;
    listener = default_listener;
    init_routes_fn = some (λ c. none);
  }

  -- `initializeRouter` and `initializeRouterSidecar`: the routes of a server
  unfoldable pub routes_of : Bool → Option Health → List Route
  routes_of with_meta none = if with_meta then meta ∷ [] else []
  routes_of with_meta (some f) = if with_meta then meta ∷ health ∷ [] else health ∷ []

  -- `initRoutesFn(ctx, router)`, which panics if it is nil
  abbrev pub call_routes : Option (Ctx → Option X) → Ctx → Outcome (Option X)
  call_routes none c = panics
  call_routes (some f) c = returns (f c)

  unfoldable pub routed_sidecar :
      SidecarOptions Base Ctx Listener Health X
      → Base
      → Option X
      → Outcome (Result X (Server Base Ctx Listener Health X))
  unfolding routes_of
  routed_sidecar opt b (some x) = returns (err x)
  routed_sidecar opt b none = returns (
      ok (record {
        base = b;
        imsidecar = true;
        listener = opt.common.listener;
        health_check_func = opt.common.health_chk_fn;
        routes = routes_of metadata_enabled_sidecar opt.common.health_chk_fn;
        tells_status = opt.tells_status;
      }))

  unfoldable pub based_sidecar :
      SidecarOptions Base Ctx Listener Health X
      → Option Base
      → Outcome (Result X (Server Base Ctx Listener Health X))
  unfolding routed_sidecar
  based_sidecar opt none = panics
  based_sidecar opt (some b) =
      call_routes opt.common.init_routes_fn (ctx_of b) >>= routed_sidecar opt b

  -- `NewSidecar`: without a base, the read of its context panics.
  unfoldable pub new_sidecar :
      List (SidecarOptions Base Ctx Listener Health X → SidecarOptions Base Ctx Listener Health X)
      → Outcome (Result X (Server Base Ctx Listener Health X))
  unfolding based_sidecar
  new_sidecar opts =
      let opt =
        apply_all opts (record { common = default_common; base = none; tells_status = false }) in
      based_sidecar opt opt.base

  abbrev pub options :
      List (ServiceOptions Base Ctx Listener Health X → ServiceOptions Base Ctx Listener Health X)
      → ServiceOptions Base Ctx Listener Health X
  options opts = apply_all opts (record {
    addr = [];
    common = default_common;
    ctx = background;
    name = [];
    profiling_enabled = false;
    pprof_addr = none;
  })

  abbrev pub MadeHttp : Type 0
  MadeHttp =
      Outcome (Result (NewError Base Ctx Listener Health X) (Service Base Ctx Listener Health X))

  unfoldable pub with_sidecar :
      Server Base Ctx Listener Health X
      → List ℕ
      → Result X (Server Base Ctx Listener Health X)
      → MadeHttp
  with_sidecar server a (err x) = returns (err (failed x))
  with_sidecar server a (ok s) =
      returns (ok (record { server = server; sidecar_service = some s; pprof_addr = some a }))

  unfoldable pub with_base_sidecar :
      Listener → Server Base Ctx Listener Health X → List ℕ → Result X Base → MadeHttp
  unfolding new_sidecar with_sidecar
  with_base_sidecar listener server a (err x) = returns (err (failed x))
  with_base_sidecar listener server a (ok b) =
      new_sidecar (
        (λ o. record o { base = some b })
        ∷ (λ o. record o { common = record o.common { listener = listener } })
        ∷ (λ o. record o { common = record o.common { init_routes_fn = some (λ c. none) } })
        ∷ [])
      >>= with_sidecar server a

  -- The part of `New` for profiling
  unfoldable pub with_profiling :
      Ctx → Listener → Bool → Option (List ℕ) → Server Base Ctx Listener Health X → MadeHttp
  unfolding with_base_sidecar
  with_profiling ctx listener false pprof server =
      returns (ok (record { server = server; sidecar_service = none; pprof_addr = none }))
  with_profiling ctx listener true none server = returns (err pprof_addr_missing)
  with_profiling ctx listener true (some a) server =
      new_base (112 ∷ 112 ∷ 114 ∷ 111 ∷ 102 ∷ []) a ctx true >>= with_base_sidecar listener server a

  unfoldable pub routed : ServiceOptions Base Ctx Listener Health X → Base → Option X → MadeHttp
  unfolding with_profiling routes_of
  routed opt b (some x) = returns (err (failed x))
  routed opt b none =
      with_profiling opt.ctx opt.common.listener opt.profiling_enabled opt.pprof_addr (record {
        base = b;
        imsidecar = false;
        listener = opt.common.listener;
        health_check_func = opt.common.health_chk_fn;
        routes = routes_of metadata_enabled opt.common.health_chk_fn;
        tells_status = true;
      })

  unfoldable pub based : ServiceOptions Base Ctx Listener Health X → Result X Base → MadeHttp
  unfolding routed
  based opt (err x) = returns (err (failed x))
  based opt (ok b) = call_routes opt.common.init_routes_fn (ctx_of b) >>= routed opt b

  -- `New`, once the options are applied
  unfoldable pub new_from : ServiceOptions Base Ctx Listener Health X → MadeHttp
  unfolding based
  new_from opt = new_base opt.name opt.addr opt.ctx false >>= based opt

  -- `New`
  unfoldable pub new :
      List (ServiceOptions Base Ctx Listener Health X → ServiceOptions Base Ctx Listener Health X)
      → MadeHttp
  unfolding new_from
  new opts = new_from (options opts)
