-- ===== src/Sync/Once/Guarantee.antt =====
-- What `OnceDisposable` (pkg/syncutil/once.go) promises the goroutines that share it.
use goico.Sync.Once.{
  Once, new_once_disposable, Place, do_enter, do_call, advance, System, place_at, step, run,
}
use goico.Sync.Once.Invariant.{Inv, run-Inv, step-Inv, new-Inv, Fresh, total, called, calling}
use goico.Shared.{
  false, ◌⊎◌, inl, inr, Bool-cases, ℕ, zero, suc, ◌≤◌, ◌≡◌, refl, ◌∙◌, ◌≢◌, true, Option, none,
  some, List, [], ◌∷◌, arith,
}

module _ {E : Type 0} where
  at_least :
      (w : Place E → ℕ) (ps : List (Place E)) (i : ℕ) (p : Place E)
      → place_at i ps ≡ some p
      → w p ≤ total w ps
  at_least w [] i p h = absurd (cc)
  at_least w (x ∷ ps) zero p h = ground arith
  at_least w (x ∷ ps) (suc i) p h = omega (arith, at_least w ps i p h)

  -- Goroutines that each make one call of Do or Dispose on a new OnceDisposable, in any interleaving
  -- and whatever the functions return: the function of at most one Do is called, that of at most one
  -- Dispose too, and once the object is disposed no goroutine is about to call the function of a Do.
  pub at_most_once :
      (ps : List (Place E)) (cs : List (ℕ × Option E)) (i : ℕ)
      → Fresh ps
      → ((run cs (record { goroutines = ps; object = new_once_disposable })).object.do_calls ≤ 1)
        × ((run cs (record { goroutines = ps; object = new_once_disposable })).object.dispose_calls
            ≤ 1)
        × (((run cs (record { goroutines = ps; object = new_once_disposable })).object.disposed
              ≡ false)
            ⊎ (place_at i
                  (run cs (record { goroutines = ps; object = new_once_disposable })).goroutines
                ≢ some do_call))
  at_most_once ps cs i f =
      let s = run cs (record { goroutines = ps; object = new_once_disposable }) in
      let v : Inv s = run-Inv cs _ (new-Inv ps f) in
      (
        ground (arith, v.do_counted, v.done_once),
        ground (arith, v.dispose_counted, v.disposed_once),
        elim (Bool-cases s.object.disposed) [
          | inr live ↦ inl live
          | inl gone ↦ inr (λ at.
              absurd (ground (arith, v.not_disposed, at_least calling s.goroutines i do_call at)))
        ],
      )

  done_keeps :
      (given : Option E) (p q : Place E) (o o' : Once E)
      → advance given p o ≡ some (q, o')
      → o.done ≡ true
      → called p ≡ 0
      → calling p ≡ 0
      → (o'.done ≡ true) × (o'.err_done ≡ o.err_done) × (o'.do_calls ≡ o.do_calls)
  unfolding advance
  done_keeps given do_enter q o o' adv d a b = ground arith
  done_keeps given p q o o' adv d a b = ground arith

  done_step :
      (c : ℕ × Option E) (s : System E)
      → Inv s
      → s.object.done ≡ true
      → ((step c s).object.done ≡ true)
        × ((step c s).object.err_done ≡ s.object.err_done)
        × ((step c s).object.do_calls ≡ s.object.do_calls)
  unfolding step
  done_step (i, given) s v d = go (place_at i s.goroutines) refl
    where
      Kept : System E → Type 0
      Kept s' =
          (s'.object.done ≡ true)
          × (s'.object.err_done ≡ s.object.err_done)
          × (s'.object.do_calls ≡ s.object.do_calls)

      went :
          (p : Place E) (r : Option (Place E × Once E))
          → advance given p s.object ≡ r
          → place_at i s.goroutines ≡ some p
          → Kept (step (i, given) s)
      went p none f e = rw (step, e, f) (d, refl, refl)
      went p (some (q, o)) f e =
          rw (step, e, f)
            (done_keeps given p q s.object o f d
              (ground (arith, v.done_once, at_least called s.goroutines i p e))
              (ground (arith, v.done_once, at_least calling s.goroutines i p e)))

      go : (r : Option (Place E)) → place_at i s.goroutines ≡ r → Kept (step (i, given) s)
      go none e = rw (step, e) (d, refl, refl)
      go (some p) e = went p (advance given p s.object) refl e

  done_run :
      (cs : List (ℕ × Option E)) (s : System E)
      → Inv s
      → s.object.done ≡ true
      → ((run cs s).object.done ≡ true)
        × ((run cs s).object.err_done ≡ s.object.err_done)
        × ((run cs s).object.do_calls ≡ s.object.do_calls)
  unfolding run
  done_run [] s v d = (d, refl, refl)
  done_run (c ∷ cs) s v d =
      let (d', e, n) = done_step c s v d in
      let (d'', e', n') = done_run cs (step c s) (step-Inv c s v) d' in (d'', e' ∙ e, n' ∙ n)

  -- Once a Do of goroutines that each make one call of Do or Dispose on a new OnceDisposable has marked the object done, no further history of theirs changes
  -- that mark or the error that the later calls of Do return, or calls the function of a Do again.
  pub done_stays :
      (ps : List (Place E)) (before after : List (ℕ × Option E))
      → Fresh ps
      → (run before (record { goroutines = ps; object = new_once_disposable })).object.done ≡ true
      → (let s = run before (record { goroutines = ps; object = new_once_disposable }) in
          ((run after s).object.done ≡ true)
          × ((run after s).object.err_done ≡ s.object.err_done)
          × ((run after s).object.do_calls ≡ s.object.do_calls))
  done_stays ps before after f d = done_run after _ (run-Inv before _ (new-Inv ps f)) d
