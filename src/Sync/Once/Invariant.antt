-- ===== src/Sync/Once/Invariant.antt =====
-- The invariant of `OnceDisposable` (pkg/syncutil/once.go) under every interleaving: the goroutines
-- are counted by where they stand.
use goico.Sync.Once.{
  Once, new_once_disposable, Place, do_enter, do_done_again, do_disposed_again, do_call, do_store,
  do_result, do_result_unmarked, do_mark, do_unlock, dispose_enter, dispose_again, dispose_call,
  dispose_store, dispose_result, dispose_result_unmarked, dispose_mark, dispose_unlock, advance,
  System, place_at, step, run,
}
use goico.Shared.{
  ℕ, zero, suc, ◌+◌, ◌≤◌, ◌≡◌, refl, ◌⊎◌, inl, inr, Bool, true, false, Option, none, some, List, [],
  ◌∷◌, arith, set,
}

abbrev pub bit : Bool → ℕ
bit true = 1
bit false = 0

module _ {E : Type 0} where
  abbrev pub total : (Place E → ℕ) → List (Place E) → ℕ
  total w [] = 0
  total w (p ∷ ps) = w p + total w ps

  total-set :
      (w : Place E → ℕ) (ps : List (Place E)) (i : ℕ) (p q : Place E)
      → place_at i ps ≡ some p
      → total w (set ps i q) + w p ≡ total w ps + w q
  total-set w [] i p q h = absurd (cc)
  total-set w (x ∷ ps) zero p q h = ground arith
  total-set w (x ∷ ps) (suc i) p q h = omega (arith, total-set w ps i p q h)

  -- Holds the lock.
  abbrev holds : Place E → ℕ
  holds do_done_again = 1
  holds do_disposed_again = 1
  holds do_call = 1
  holds (do_store e) = 1
  holds do_result = 1
  holds do_result_unmarked = 1
  holds (do_mark e) = 1
  holds (do_unlock e) = 1
  holds dispose_again = 1
  holds dispose_call = 1
  holds (dispose_store e) = 1
  holds dispose_result = 1
  holds dispose_result_unmarked = 1
  holds (dispose_mark e) = 1
  holds (dispose_unlock e) = 1
  holds _ = 0

  -- Has seen under the lock that Do is not done, and has still to see that nothing is disposed.
  abbrev ready : Place E → ℕ
  ready do_disposed_again = 1
  ready _ = 0

  abbrev pub calling : Place E → ℕ
  calling do_call = 1
  calling _ = 0

  -- Has called the function of Do, and has not marked it done.
  abbrev pub called : Place E → ℕ
  called (do_store e) = 1
  called do_result = 1
  called (do_mark e) = 1
  called _ = 0

  abbrev disposing : Place E → ℕ
  disposing dispose_call = 1
  disposing _ = 0

  abbrev disposed_of : Place E → ℕ
  disposed_of (dispose_store e) = 1
  disposed_of dispose_result = 1
  disposed_of (dispose_mark e) = 1
  disposed_of _ = 0

  -- Holds the lock, and neither is ready nor has called.
  abbrev idle : Place E → ℕ
  idle do_done_again = 1
  idle do_result_unmarked = 1
  idle (do_unlock e) = 1
  idle dispose_again = 1
  idle dispose_result_unmarked = 1
  idle (dispose_unlock e) = 1
  idle _ = 0

  pub record Inv (s : System E) : Type 0 where
    pub one_holder : total holds s.goroutines ≡ bit s.object.locked
    pub under_lock :
        total ready s.goroutines
          + total calling s.goroutines
          + total called s.goroutines
          + total disposing s.goroutines
          + total disposed_of s.goroutines
          + total idle s.goroutines
        ≡ total holds s.goroutines
    pub do_counted : s.object.do_calls ≡ bit s.object.done + total called s.goroutines
    pub done_once :
        bit s.object.done
          + total ready s.goroutines
          + total calling s.goroutines
          + total called s.goroutines
        ≤ 1
    pub not_disposed : bit s.object.disposed + total calling s.goroutines ≤ 1
    pub dispose_counted :
        s.object.dispose_calls ≡ bit s.object.disposed + total disposed_of s.goroutines
    pub disposed_once :
        bit s.object.disposed + total disposing s.goroutines + total disposed_of s.goroutines ≤ 1

  -- How each count changes when goroutine `i` goes from `p` to `q`.
  pub record Counted (i : ℕ) (p q : Place E) (ps : List (Place E)) : Type 0 where
    pub held : total holds (set ps i q) + holds p ≡ total holds ps + holds q
    pub idled : total idle (set ps i q) + idle p ≡ total idle ps + idle q
    pub readied : total ready (set ps i q) + ready p ≡ total ready ps + ready q
    pub called_for : total calling (set ps i q) + calling p ≡ total calling ps + calling q
    pub was_called : total called (set ps i q) + called p ≡ total called ps + called q
    pub disposing_of : total disposing (set ps i q) + disposing p ≡ total disposing ps + disposing q
    pub was_disposed :
        total disposed_of (set ps i q) + disposed_of p ≡ total disposed_of ps + disposed_of q

  counted :
      (i : ℕ) (p q : Place E) (ps : List (Place E)) → place_at i ps ≡ some p → Counted i p q ps
  counted i p q ps h = record {
    held = total-set holds ps i p q h;
    idled = total-set idle ps i p q h;
    readied = total-set ready ps i p q h;
    called_for = total-set calling ps i p q h;
    was_called = total-set called ps i p q h;
    disposing_of = total-set disposing ps i p q h;
    was_disposed = total-set disposed_of ps i p q h;
  }

  moved :
      (given : Option E) (p q : Place E) (i : ℕ) (s : System E) (o : Once E)
      → Counted i p q s.goroutines
      → advance given p s.object ≡ some (q, o)
      → Inv s
      → Inv (record { goroutines = set s.goroutines i q; object = o })
  unfolding advance
  moved given do_enter q i s o at adv v = ground arith
  moved given p q i s o at adv v = ground arith

  -- A step keeps the invariant, whichever goroutine takes it.
  pub step-Inv : (c : ℕ × Option E) (s : System E) → Inv s → Inv (step c s)
  unfolding step
  step-Inv (i, given) s v = go (place_at i s.goroutines) refl
    where
      went :
          (p : Place E) (r : Option (Place E × Once E))
          → advance given p s.object ≡ r
          → place_at i s.goroutines ≡ some p
          → Inv (step (i, given) s)
      went p none f e = rw (step, e, f) v
      went p (some (q, o)) f e =
          rw (step, e, f) (moved given p q i s o (counted i p q s.goroutines e) f v)

      go : (r : Option (Place E)) → place_at i s.goroutines ≡ r → Inv (step (i, given) s)
      go none e = rw (step, e) v
      go (some p) e = went p (advance given p s.object) refl e

  pub run-Inv : (cs : List (ℕ × Option E)) (s : System E) → Inv s → Inv (run cs s)
  unfolding run
  run-Inv [] s v = v
  run-Inv (c ∷ cs) s v = run-Inv cs (step c s) (step-Inv c s v)

  -- Goroutines of which each is about to call Do or Dispose.
  abbrev pub Fresh : List (Place E) → Type 0
  Fresh [] = Unit {0}
  Fresh (p ∷ ps) = ((p ≡ do_enter) ⊎ (p ≡ dispose_enter)) × Fresh ps

  total-Fresh :
      (w : Place E → ℕ) (ps : List (Place E))
      → w do_enter ≡ 0
      → w dispose_enter ≡ 0
      → Fresh ps
      → total w ps ≡ 0
  total-Fresh w [] a b f = refl
  total-Fresh w (p ∷ ps) a b (inl e, f) = ground (arith, total-Fresh w ps a b f)
  total-Fresh w (p ∷ ps) a b (inr e, f) = ground (arith, total-Fresh w ps a b f)

  pub new-Inv :
      (ps : List (Place E))
      → Fresh ps
      → Inv (record { goroutines = ps; object = new_once_disposable })
  unfolding new_once_disposable
  new-Inv ps f = ground (
    arith,
    total-Fresh holds ps refl refl f,
    total-Fresh idle ps refl refl f,
    total-Fresh ready ps refl refl f,
    total-Fresh calling ps refl refl f,
    total-Fresh called ps refl refl f,
    total-Fresh disposing ps refl refl f,
    total-Fresh disposed_of ps refl refl f,
  )
