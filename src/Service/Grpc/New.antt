-- ===== src/Service/Grpc/New.antt =====
-- What New of pkg/service/grpc/service.go comes to.
use goico.Shared.{ℕ, ◌≡◌, Bool, true, false, Option, none, some, List, [], ◌∷◌, if◌then◌else◌}
use mathlib.Core.Option
use goico.Shared.Result.{Result, ok, err}
use goico.Shared.Outcome.{Outcome, returns}
use goico.Service.Health.{not_serving}
use goico.Service.Http.{Outside}
use goico.Service.Http.New.{is_ok}
use goico.Service.Grpc.{Options, GrpcService, Made, dispose}

module _ {Base Ctx Listener Health X Handler : Type 0}
    (outside : Outside Base Ctx Listener Health X) (closeable : Handler → Bool)
    (implements : Handler → Bool) (grpc_metadata : Bool) where
  open outside use {ctx_of, new_base, default_listener}

  abbrev pub is_enabled : Option Health → Bool
  is_enabled none = false
  is_enabled (some f) = true

  -- Whether profiling has what it needs
  abbrev pub profiling_ready : Bool → Option (List ℕ) → (List ℕ → Result X Base) → Bool
  profiling_ready false pprof side = true
  profiling_ready true none side = false
  profiling_ready true (some a) side = is_ok (side a)

  -- What service.New returns for the sidecar at an address
  abbrev pub MakesSides : Ctx → (List ℕ → Result X Base) → Type 0
  MakesSides ctx side =
      (a : List ℕ) → new_base (112 ∷ 112 ∷ 114 ∷ 111 ∷ 102 ∷ []) a ctx true ≡ returns (side a)

  abbrev pub or_default : Option Listener → Listener
  or_default none = default_listener
  or_default (some l) = l

  -- The service is as the options and its handler say.
  pub record Fits (opt : Options Base Ctx Listener Health X Handler) (h : Handler)
      (s : GrpcService Base Ctx Listener Health X Handler) : Type 0 where
    pub listens : s.listener ≡ opt.listener
    pub checked : s.health_check ≡ opt.health_check
    pub published :
        s.health_check_srv ≡ (if is_enabled opt.health_check then some not_serving else none)
    pub closes :
        (close : Handler → Option X)
        → dispose close s ≡ (if closeable h then (some h, close h) else (none, none))
    pub side :
        Option.map {B = Listener × Bool} (λ side. (side.listener, side.imsidecar)) s.sidecar_service
        ≡ (if opt.profiling_enabled then some (or_default opt.listener, true) else none)

  abbrev pub FitsIfOk :
      Options Base Ctx Listener Health X Handler
      → Made outside closeable implements grpc_metadata
      → Type 0
  FitsIfOk opt (h, err e) = Unit {0}
  FitsIfOk opt (none, ok s) = ⊥
  FitsIfOk opt (some h, ok s) = Fits opt h s

  -- What is proved of the part for profiling
  abbrev Good :
      Options Base Ctx Listener Health X Handler
      → Handler
      → Bool
      → Outcome (Made outside closeable implements grpc_metadata)
      → Type 0
  Good opt h ready made =
      (r : Made outside closeable implements grpc_metadata) × (made ≡ returns r)
      × (r.0 ≡ some h)
      × (is_ok r.1 ≡ ready)
      × FitsIfOk opt r

  abbrev pub kept : Result X Handler → Option Handler
  kept (err x) = none
  kept (ok h) = some h

  -- The handler that New makes, if it gets that far
  abbrev pub handler_of : (Ctx → Result X Handler) → Result X Base → Option Handler
  handler_of f (err x) = none
  handler_of f (ok b) = kept (f (ctx_of b))

  abbrev pub ready : Bool → Option Handler → Bool
  ready profiling none = false
  ready profiling (some h) = profiling

  abbrev pub Makes :
      Options Base Ctx Listener Health X Handler
      → (Ctx → Result X Handler)
      → (List ℕ → Result X Base)
      → Result X Base
      → Outcome (Made outside closeable implements grpc_metadata)
      → Type 0
  Makes opt f side rb made =
      (r : Made outside closeable implements grpc_metadata) × (made ≡ returns r)
      × (r.0 ≡ handler_of f rb)
      × (is_ok r.1
          ≡ ready (profiling_ready opt.profiling_enabled opt.pprof_addr side) (handler_of f rb))
      × FitsIfOk opt r
