-- ===== src/Service/Process.antt =====
-- pkg/service/process/service.go: DoServeWithDelay. Its two goroutines, the one that starts the
-- process and the one that serves the sidecar, stand at places in the source and advance by one
-- access to shared state at a time. What start, the sidecar's server and its Shutdown return is an
-- input; so is the moment at which the timer of the delay fires.
pub mod Serve
pub mod Early
pub mod New
pub mod Tests
use goico.Shared.{
  ℕ, zero, suc, ◌+◌, ◌-◌, ◌%◌, ◌≤◌, ◌<◌, ◌≡◌, refl, sym, ap, ◌∙◌, ◌≢◌, ◌↔◌, ◌⊎◌, inl, inr, Bool,
  true, false, not, ◌&&◌, ◌||◌, Option, none, some, List, [], ◌∷◌, ◌++◌, map, arith, ltb, leb, eqb,
  eqb_iff, lt→ltb, if◌then◌else◌, Bool-cases, Option-cases, length, get_or, set, take, drop,
  replicate, copy_at, copy_at_next, length-append, length-set, length-drop, length-take,
  length-replicate, take-length, drop_all, copy_at_last,
}
use goico.Service.Base.{Base, new_base, stop, set_started_now, stopped}

-- Where the first goroutine stands: in sleep; behind it; behind the look at the context; in start; in
-- front of Stop; at its end.
pub data Starter : Type 0 where
  sleeping woken checked running stopping done : Starter

-- Where the second stands: in the Serve of the sidecar's server; in front of the deferred Stopped; at
-- its end.
pub data Sidecar : Type 0 where
  serving leaving left : Sidecar

pub record Serving (X : Type 0) : Type 0 where
  pub base : Base
  pub starter : Starter
  pub sidecar : Sidecar
  pub starts : ℕ
  pub result : Option X

-- What happens next: a step of the first goroutine; a step of the second; the end of the parent
-- context.
pub data Event (X : Type 0) : Type 0 where
  wakes checks stops leaves cancels : Event X
  sets_started : ℕ → Event X
  start_returns : Option X → Event X
  serve_fails : X → Event X
  serve_closes : Option X → Event X

abbrev pub and_then : {A B : Type 0} → Option A → (A → Option B) → Option B
and_then none f = none
and_then (some a) f = f a

module _ {X : Type 0} where
  -- The state in which w.Wait begins
  abbrev pub begin : Base → Serving X
  begin b = record { base = b; starter = sleeping; sidecar = serving; starts = 0; result = none }

  -- A step from the place at which a goroutine stands; `none` if it stands at another one, or if the
  -- sidecar's server has not been told to shut down.
  unfoldable pub step_at : Event X → Starter → Sidecar → Serving X → Option (Serving X)
  unfolding stop set_started_now stopped
  step_at wakes sleeping side s = some (record s { starter = woken })
  step_at checks woken side s =
      if s.base.cancelled
      then some (record s { starter = stopping })
      else some (record s { starter = checked })
  step_at (sets_started now) checked side s =
      some (record s { starter = running; base = set_started_now now s.base })
  step_at (start_returns e) running side s =
      some (record s { starter = stopping; result = e; starts = s.starts + 1 })
  step_at stops stopping side s = some (record s { starter = done; base = stop s.base })
  step_at (serve_fails x) at serving s = some (record s { sidecar = leaving })
  step_at (serve_closes e) at serving s =
      if s.base.cancelled then some (record s { sidecar = leaving }) else none
  step_at leaves at leaving s = some (record s { sidecar = left; base = stopped s.base })
  step_at cancels at side s = some (record s { base = stop s.base })
  step_at e at side s = none

  unfoldable pub step : Event X → Serving X → Option (Serving X)
  unfolding step_at
  step e s = step_at e s.starter s.sidecar s

  -- A sequence of steps; `none` if one of them cannot be taken.
  unfoldable pub run : List (Event X) → Serving X → Option (Serving X)
  unfolding step
  run [] s = some s
  run (e ∷ es) s = and_then (step e s) (run es)

abbrev pub both_done : Starter → Sidecar → Bool
both_done done left = true
both_done at side = false

-- `w.Wait` returns.
abbrev pub is_done : {X : Type 0} → Serving X → Bool
is_done s = both_done s.starter s.sidecar
