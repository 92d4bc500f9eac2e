-- ===== src/Service/Process/Serve.antt =====
-- DoServeWithDelay of pkg/service/process/service.go, whatever the interleaving of its goroutines.
use goico.Shared.{
  ℕ, ◌+◌, ◌≤◌, ◌≡◌, refl, ◌⊎◌, inl, inr, Bool, true, false, ◌&&◌, Option, none, some, List, [], ◌∷◌,
  arith, if◌then◌else◌, Bool-cases,
}
use mathlib.Core.Path.{subst}
use goico.Service.Base.{Base, status_stopped, stop, set_started_now, stopped, status_of, string_of}
use goico.Service.Process.{
  Starter, sleeping, woken, checked, running, stopping, done, Sidecar, serving, leaving, left,
  Serving, Event, wakes, checks, stops, leaves, cancels, sets_started, start_returns, serve_fails,
  serve_closes, begin, step_at, step, and_then, run, both_done, is_done,
}

-- The steps that each goroutine has left
abbrev starter_rank : Starter → ℕ
starter_rank sleeping = 5
starter_rank woken = 4
starter_rank checked = 3
starter_rank running = 2
starter_rank stopping = 1
starter_rank done = 0

abbrev sidecar_rank : Sidecar → ℕ
sidecar_rank serving = 2
sidecar_rank leaving = 1
sidecar_rank left = 0

pub and_then-some :
    {A B : Type 0} (m : Option A) (f : A → Option B) {b : B}
    → and_then m f ≡ some b
    → (a : A) × (m ≡ some a) × (f a ≡ some b)
and_then-some none f h = cc
and_then-some (some a) f h = (a, refl, h)

module _ {X : Type 0} where
  -- A step of one of the goroutines
  abbrev pub is_own : Event X → Bool
  is_own cancels = false
  is_own e = true

  -- Neither the parent context ends nor the sidecar's server fails.
  abbrev pub is_calm : Event X → Bool
  is_calm cancels = false
  is_calm (serve_fails x) = false
  is_calm e = true

  abbrev pub all_calm : List (Event X) → Bool
  all_calm [] = true
  all_calm (e ∷ es) = is_calm e && all_calm es

  abbrev pub own_steps : List (Event X) → ℕ
  own_steps [] = 0
  own_steps (e ∷ es) = (if is_own e then 1 else 0) + own_steps es

  abbrev rank : Serving X → ℕ
  rank s = starter_rank s.starter + sidecar_rank s.sidecar

  -- Once the first goroutine is done, the context is.
  abbrev IsStopped : Serving X → Type 0
  IsStopped s = s.starter ≡ done → s.base.cancelled ≡ true

  step_at-rank :
      (e : Event X) (at : Starter) (side : Sidecar) (s s' : Serving X)
      → s.starter ≡ at
      → s.sidecar ≡ side
      → step_at e at side s ≡ some s'
      → (if is_own e then 1 else 0) + rank s' ≤ rank s
  unfolding step_at
  step_at-rank wakes sleeping side s s' p q h = ground arith
  step_at-rank e at side s s' p q h = ground arith

  abbrev Stops : Starter → Serving X → Type 0
  Stops done s = s.base.cancelled ≡ true
  Stops at s = Unit

  step_at-Stops :
      (e : Event X) (at : Starter) (side : Sidecar) (s s' : Serving X)
      → s.starter ≡ at
      → s.sidecar ≡ side
      → Stops at s
      → step_at e at side s ≡ some s'
      → Stops s'.starter s'
  unfolding step_at stop set_started_now stopped
  step_at-Stops wakes sleeping side s s' p q i h = ground arith
  step_at-Stops e at side s s' p q i h = ground arith

  -- A step that a goroutine can take, unless both are done
  abbrev CanStep : Serving X → Type 0
  CanStep s = (e : Event X) × (s' : Serving X) × (is_own e ≡ true) × (step e s ≡ some s')

  progress :
      (at : Starter) (side : Sidecar) (s : Serving X)
      → Stops at s
      → (both_done at side ≡ true)
        ⊎ ((e : Event X) × (s' : Serving X) × (is_own e ≡ true) × (step_at e at side s ≡ some s'))
  unfolding step_at
  progress sleeping side s i = inr (wakes, _, refl, refl)
  progress woken side s i = elim (Bool-cases s.base.cancelled) [
    | inl c ↦ inr (checks, record s { starter = stopping }, refl, simp c)
    | inr c ↦ inr (checks, record s { starter = checked }, refl, simp c)
  ]
  progress checked side s i = inr (sets_started 0, _, refl, refl)
  progress running side s i = inr (start_returns none, _, refl, refl)
  progress stopping side s i = inr (stops, _, refl, refl)
  progress done serving s i = inr (serve_closes none, record s { sidecar = leaving }, refl, simp i)
  progress done leaving s i = inr (leaves, _, refl, refl)
  progress done left s i = inl refl

  run_lem :
      (es : List (Event X)) (s s' : Serving X)
      → Stops s.starter s
      → run es s ≡ some s'
      → (own_steps es + rank s' ≤ rank s) × Stops s'.starter s'
  unfolding run
  run_lem [] s s' i h =
      let same : s ≡ s' = cc in
      subst (λ (t : Serving X). (0 + rank t ≤ rank s) × Stops t.starter t) same (omega arith, i)
  run_lem (e ∷ es) s s' i h =
      let (mid, e1, rest) = and_then-some (step e s) (run es) h in
      let e2 : step_at e s.starter s.sidecar s ≡ some mid = unfold step in e1 in
      let (le, i') =
        run_lem es mid s' (step_at-Stops e s.starter s.sidecar s mid refl refl i e2) rest in
      (omega (arith, step_at-rank e s.starter s.sidecar s mid refl refl e2), i')

  -- DoServeWithDelay returns, if start does and the sidecar's server shuts down once it is told to:
  -- whatever the interleaving, its goroutines take seven steps at most, and until both are done one
  -- of them can take another step.
  pub serve_ends :
      (b : Base) (es : List (Event X)) (s : Serving X)
      → run es (begin b) ≡ some s
      → (own_steps es ≤ 7)
        × ((is_done s ≡ true)
            ⊎ ((e : Event X) × (s' : Serving X) × (is_own e ≡ true) × (step e s ≡ some s')))
  unfolding step
  serve_ends b es s h =
      let (le, i) = run_lem es (begin b) s tt h in (omega arith, progress s.starter s.sidecar s i)

  -- Before the first goroutine is done, the sidecar serves and the context is not done.
  abbrev Calm : Starter → Sidecar → Serving X → Type 0
  Calm done left s =
      (s.base.cancelled ≡ true)
      × (s.base.status ≡ status_stopped)
      × (s.base.start_time ≡ 0)
      × (s.starts ≡ 1)
  Calm done side s = (s.base.cancelled ≡ true) × (s.starts ≡ 1)
  Calm stopping serving s = (s.base.cancelled ≡ false) × (s.starts ≡ 1)
  Calm at serving s = (s.base.cancelled ≡ false) × (s.starts ≡ 0)
  Calm at side s = ⊥

  step_at-Calm :
      (e : Event X) (at : Starter) (side : Sidecar) (s s' : Serving X)
      → s.starter ≡ at
      → s.sidecar ≡ side
      → is_calm e ≡ true
      → Calm at side s
      → step_at e at side s ≡ some s'
      → Calm s'.starter s'.sidecar s'
  unfolding step_at stop set_started_now stopped
  step_at-Calm wakes sleeping side s s' p q c i h = ground arith
  step_at-Calm e at side s s' p q c i h = ground arith

  run-Calm :
      (es : List (Event X)) (s s' : Serving X)
      → all_calm es ≡ true
      → Calm s.starter s.sidecar s
      → run es s ≡ some s'
      → Calm s'.starter s'.sidecar s'
  unfolding run
  run-Calm [] s s' c i h =
      let same : s ≡ s' = cc in subst (λ (t : Serving X). Calm t.starter t.sidecar t) same i
  run-Calm (e ∷ es) s s' c i h =
      let (mid, e1, rest) = and_then-some (step e s) (run es) h in
      let e2 : step_at e s.starter s.sidecar s ≡ some mid = unfold step in e1 in
      run-Calm es mid s' (ground arith)
        (step_at-Calm e s.starter s.sidecar s mid refl refl (ground arith) i e2) rest

  stopped_lem :
      (at : Starter) (side : Sidecar) (s : Serving X)
      → both_done at side ≡ true
      → Calm at side s
      → (status_of s.base ≡ (string_of status_stopped, 0))
        × (s.base.cancelled ≡ true)
        × (s.starts ≡ 1)
  unfolding status_of
  stopped_lem done left s d i = ground arith
  stopped_lem at side s d i = ground arith

  -- As long as the parent context does not end and the sidecar's server does not fail: whatever the
  -- interleaving, when DoServeWithDelay returns, start has been called once, the context is done and
  -- the status is "stopped", with the zero time.
  pub serve_stopped :
      (b : Base) (es : List (Event X)) (s : Serving X)
      → b.cancelled ≡ false
      → all_calm es ≡ true
      → run es (begin b) ≡ some s
      → is_done s ≡ true
      → (status_of s.base ≡ (string_of status_stopped, 0))
        × (s.base.cancelled ≡ true)
        × (s.starts ≡ 1)
  serve_stopped b es s fresh c h d =
      stopped_lem s.starter s.sidecar s d (run-Calm es (begin b) s c (fresh, refl) h)
