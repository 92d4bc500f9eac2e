-- ===== src/Service/Process/Early.antt =====
-- DoServeWithDelay of pkg/service/process/service.go, when the sidecar's goroutine ends before the
-- process has started.
use goico.Shared.{◌≡◌, refl, Bool, true, false, ◌&&◌, some, List, [], ◌∷◌, arith}
use mathlib.Core.Path.{subst}
use goico.Service.Base.{Base, status_started, stop, set_started_now, stopped, status_of, string_of}
use goico.Service.Process.{
  Starter, sleeping, woken, checked, running, stopping, done, Sidecar, left, Serving, Event, wakes,
  cancels, begin, step_at, step, run, both_done, is_done,
}
use goico.Service.Process.Serve.{and_then-some}

-- The first goroutine is in front of SetStartedNow.
abbrev pub is_unstarted : Starter → Bool
is_unstarted sleeping = true
is_unstarted woken = true
is_unstarted checked = true
is_unstarted at = false

module _ {X : Type 0} where
  -- The parent context does not end.
  abbrev pub goes_on : Event X → Bool
  goes_on cancels = false
  goes_on e = true

  abbrev pub all_go_on : List (Event X) → Bool
  all_go_on [] = true
  all_go_on (e ∷ es) = goes_on e && all_go_on es

  abbrev Fresh : Starter → Serving X → Type 0
  Fresh sleeping s = (s.base.cancelled ≡ false) × (s.starts ≡ 0)
  Fresh woken s = (s.base.cancelled ≡ false) × (s.starts ≡ 0)
  Fresh checked s = (s.base.cancelled ≡ false) × (s.starts ≡ 0)
  Fresh at s = Unit {0}

  step_at-Fresh :
      (e : Event X) (at : Starter) (side : Sidecar) (s s' : Serving X)
      → s.starter ≡ at
      → s.sidecar ≡ side
      → goes_on e ≡ true
      → Fresh at s
      → step_at e at side s ≡ some s'
      → Fresh s'.starter s'
  unfolding step_at stop set_started_now stopped
  step_at-Fresh wakes sleeping side s s' p q c i h = ground arith
  step_at-Fresh e at side s s' p q c i h = ground arith

  run-Fresh :
      (es : List (Event X)) (s s' : Serving X)
      → all_go_on es ≡ true
      → Fresh s.starter s
      → run es s ≡ some s'
      → Fresh s'.starter s'
  unfolding run
  run-Fresh [] s s' c i h =
      let same : s ≡ s' = cc in subst (λ (t : Serving X). Fresh t.starter t) same i
  run-Fresh (e ∷ es) s s' c i h =
      let (mid, e1, rest) = and_then-some (step e s) (run es) h in
      let e2 : step_at e s.starter s.sidecar s ≡ some mid = unfold step in e1 in
      run-Fresh es mid s' (ground arith)
        (step_at-Fresh e s.starter s.sidecar s mid refl refl (ground arith) i e2) rest

  -- The sidecar's goroutine has ended, and what the first one does after that.
  abbrev Early : Starter → Sidecar → Serving X → Type 0
  Early done left s = (s.base.status ≡ status_started) × (s.base.cancelled ≡ true) × (s.starts ≡ 1)
  Early stopping left s = (s.base.status ≡ status_started) × (s.starts ≡ 1)
  Early running left s = (s.base.status ≡ status_started) × (s.starts ≡ 0)
  Early at left s = (s.base.cancelled ≡ false) × (s.starts ≡ 0)
  Early at side s = ⊥

  step_at-Early :
      (e : Event X) (at : Starter) (side : Sidecar) (s s' : Serving X)
      → s.starter ≡ at
      → s.sidecar ≡ side
      → goes_on e ≡ true
      → Early at side s
      → step_at e at side s ≡ some s'
      → Early s'.starter s'.sidecar s'
  unfolding step_at stop set_started_now stopped
  step_at-Early wakes sleeping side s s' p q c i h = ground arith
  step_at-Early e at side s s' p q c i h = ground arith

  run-Early :
      (es : List (Event X)) (s s' : Serving X)
      → all_go_on es ≡ true
      → Early s.starter s.sidecar s
      → run es s ≡ some s'
      → Early s'.starter s'.sidecar s'
  unfolding run
  run-Early [] s s' c i h =
      let same : s ≡ s' = cc in subst (λ (t : Serving X). Early t.starter t.sidecar t) same i
  run-Early (e ∷ es) s s' c i h =
      let (mid, e1, rest) = and_then-some (step e s) (run es) h in
      let e2 : step_at e s.starter s.sidecar s ≡ some mid = unfold step in e1 in
      run-Early es mid s' (ground arith)
        (step_at-Early e s.starter s.sidecar s mid refl refl (ground arith) i e2) rest

  early_lem :
      (at : Starter) (side : Sidecar) (s : Serving X)
      → side ≡ left
      → is_unstarted at ≡ true
      → Fresh at s
      → Early at side s
  early_lem sleeping left s p q i = i
  early_lem at side s p q i = ground arith

  started_lem :
      (at : Starter) (side : Sidecar) (s : Serving X)
      → both_done at side ≡ true
      → Early at side s
      → (status_of s.base ≡ (string_of status_started, s.base.start_time))
        × (s.base.cancelled ≡ true)
        × (s.starts ≡ 1)
  unfolding status_of
  started_lem done left s d i = ground arith
  started_lem at side s d i = ground arith

  -- As long as the parent context does not end: if the sidecar's goroutine has ended, because its
  -- server failed, before the first goroutine calls SetStartedNow, then whatever the interleaving,
  -- when DoServeWithDelay returns, start has been called once, the context is done and the status is
  -- still "started".
  pub serve_left :
      (b : Base) (early late : List (Event X)) (mid s : Serving X)
      → b.cancelled ≡ false
      → all_go_on early ≡ true
      → all_go_on late ≡ true
      → run early (begin b) ≡ some mid
      → mid.sidecar ≡ left
      → is_unstarted mid.starter ≡ true
      → run late mid ≡ some s
      → is_done s ≡ true
      → (status_of s.base ≡ (string_of status_started, s.base.start_time))
        × (s.base.cancelled ≡ true)
        × (s.starts ≡ 1)
  serve_left b early late mid s fresh c c' h gone before h' d =
      started_lem s.starter s.sidecar s d (
        run-Early late mid s c'
          (early_lem mid.starter mid.sidecar mid gone before
            (run-Fresh early (begin b) mid c (fresh, refl) h))
          h')
