-- ===== src/Service/Http/New.antt =====
-- What `New` (pkg/service/http/service.go) makes of its options.
use goico.Service.Http.{
  ServiceOptions, Service, NewError, Outside, Route, options, new, MadeHttp, call_routes, based,
  routed, with_base_sidecar, new_from, with_profiling,
}
use goico.Shared.{
  ℕ, ◌≡◌, refl, ap, ◌∙◌, Bool, true, false, not, ◌&&◌, Option, none, some, List, [], ◌∷◌,
  if◌then◌else◌,
}
use goico.Shared.Result.{Result, ok, err}
use mathlib.Core.Option
use goico.Shared.Outcome.{returns, ◌>>=◌}

abbrev pub is_ok {ℓ κ} : {E : Type ℓ} {A : Type κ} → Result E A → Bool
is_ok (ok a) = true
is_ok (err e) = false

abbrev pub is_some {ℓ} : {A : Type ℓ} → Option A → Bool
is_some none = false
is_some (some a) = true

module _ {Base Ctx Listener Health X : Type 0} (outside : Outside Base Ctx Listener Health X) where
  open outside use {ctx_of, new_base}

  -- When profiling has what it needs, by what service.New returns for an address.
  abbrev pub profiling_ready : Bool → Option (List ℕ) → (List ℕ → Result X Base) → Bool
  profiling_ready false pprof side = true
  profiling_ready true none side = false
  profiling_ready true (some a) side = is_ok (side a)

  abbrev pub ready :
      ServiceOptions Base Ctx Listener Health X
      → Result X Base
      → (Ctx → Option X)
      → (List ℕ → Result X Base)
      → Bool
  ready opt (err x) f side = false
  ready opt (ok b) f side =
      not (is_some (f (ctx_of b))) && profiling_ready opt.profiling_enabled opt.pprof_addr side

  -- The service is as the options say.
  pub record Fits (opt : ServiceOptions Base Ctx Listener Health X)
      (s : Service Base Ctx Listener Health X) : Type 0 where
    pub primary : s.server.imsidecar ≡ false
    pub listens : s.server.listener ≡ opt.common.listener
    pub checked : s.server.health_check_func ≡ opt.common.health_chk_fn
    pub profiled :
        Option.map {B = Listener × Bool} (λ side. (side.listener, side.imsidecar)) s.sidecar_service
        ≡ (if opt.profiling_enabled then some (opt.common.listener, true) else none)

  abbrev pub FitsIfOk :
      ServiceOptions Base Ctx Listener Health X
      → Result (NewError Base Ctx Listener Health X) (Service Base Ctx Listener Health X)
      → Type 0
  FitsIfOk opt (err e) = Unit {0}
  FitsIfOk opt (ok s) = Fits opt s

  -- What New, or a part of it, comes to
  abbrev pub Makes : ServiceOptions Base Ctx Listener Health X → Bool → MadeHttp outside → Type 0
  Makes opt good made =
      (r : Result (NewError Base Ctx Listener Health X) (Service Base Ctx Listener Health X))
      × (made ≡ returns r)
      × (is_ok r ≡ good)
      × FitsIfOk opt r

  sidecar_lem :
      (opt : ServiceOptions Base Ctx Listener Health X) (b : Base) (routes : List Route)
      (a : List ℕ) (rb : Result X Base)
      → opt.profiling_enabled ≡ true
      → Makes opt (is_ok rb) (
          with_base_sidecar outside opt.common.listener
            (record {
              base = b;
              imsidecar = false;
              listener = opt.common.listener;
              health_check_func = opt.common.health_chk_fn;
              routes = routes;
              tells_status = true;
            })
            a
            rb)
  unfolding with_base_sidecar
  sidecar_lem opt b routes a (err x) on = (_, refl, refl, tt)
  sidecar_lem opt b routes a (ok side) on = (
    _,
    refl,
    refl,
    record { primary = refl; listens = refl; checked = refl; profiled = rw on refl },
  )

  profiling_lem :
      (opt : ServiceOptions Base Ctx Listener Health X) (b : Base) (routes : List Route)
      (side : List ℕ → Result X Base) (on : Bool) (pprof : Option (List ℕ))
      → ((a : List ℕ)
          → new_base (112 ∷ 112 ∷ 114 ∷ 111 ∷ 102 ∷ []) a opt.ctx true ≡ returns (side a))
      → opt.profiling_enabled ≡ on
      → Makes opt (profiling_ready on pprof side) (
          with_profiling outside opt.ctx opt.common.listener on pprof (record {
            base = b;
            imsidecar = false;
            listener = opt.common.listener;
            health_check_func = opt.common.health_chk_fn;
            routes = routes;
            tells_status = true;
          }))
  unfolding with_profiling
  profiling_lem opt b routes side false pprof made e = (
    _,
    refl,
    refl,
    record { primary = refl; listens = refl; checked = refl; profiled = rw e refl },
  )
  profiling_lem opt b routes side true none made e = (_, refl, refl, tt)
  profiling_lem opt b routes side true (some a) made e =
      simp (made a) (sidecar_lem opt b routes a (side a) e)

  routed_lem :
      (opt : ServiceOptions Base Ctx Listener Health X) (b : Base) (side : List ℕ → Result X Base)
      (failure : Option X)
      → ((a : List ℕ)
          → new_base (112 ∷ 112 ∷ 114 ∷ 111 ∷ 102 ∷ []) a opt.ctx true ≡ returns (side a))
      → Makes opt
          (not (is_some failure) && profiling_ready opt.profiling_enabled opt.pprof_addr side)
          (routed outside opt b failure)
  unfolding routed
  routed_lem opt b side (some x) made = (_, refl, refl, tt)
  routed_lem opt b side none made =
      profiling_lem opt b _ side opt.profiling_enabled opt.pprof_addr made refl

  based_lem :
      (opt : ServiceOptions Base Ctx Listener Health X) (f : Ctx → Option X)
      (side : List ℕ → Result X Base) (rb : Result X Base)
      → opt.common.init_routes_fn ≡ some f
      → ((a : List ℕ)
          → new_base (112 ∷ 112 ∷ 114 ∷ 111 ∷ 102 ∷ []) a opt.ctx true ≡ returns (side a))
      → Makes opt (ready opt rb f side) (based outside opt rb)
  unfolding based
  based_lem opt f side (err x) e made = (_, refl, refl, tt)
  based_lem opt f side (ok b) e made =
      let (r, done, good, fits) = routed_lem opt b side (f (ctx_of b)) made in
      (r, ap (λ g. call_routes outside g (ctx_of b) >>= routed outside opt b) e ∙ done, good, fits)

  -- As long as service.New returns, with a base or an error, and the function for the routes is not
  -- nil, New returns. It makes a service exactly if the base can be made, the routes can be set up,
  -- and profiling, if enabled, has an address at which a base can be made; the service then has the
  -- listener and the health check of the options, and a sidecar, on the same listener, exactly if
  -- profiling is enabled.
  pub new_lem :
      (opts : List
        (ServiceOptions Base Ctx Listener Health X → ServiceOptions Base Ctx Listener Health X))
      (f : Ctx → Option X) (rb : Result X Base) (side : List ℕ → Result X Base)
      → let opt = options outside opts in
        opt.common.init_routes_fn ≡ some f
        → new_base opt.name opt.addr opt.ctx false ≡ returns rb
        → ((a : List ℕ)
            → new_base (112 ∷ 112 ∷ 114 ∷ 111 ∷ 102 ∷ []) a opt.ctx true ≡ returns (side a))
        → Makes opt (ready opt rb f side) (new outside opts)
  unfolding new new_from
  new_lem opts f rb side e base_made side_made =
      let opt = options outside opts in
      let (r, done, good, fits) = based_lem opt f side rb e side_made in
      (r, ap (λ m. m >>= based outside opt) base_made ∙ done, good, fits)
