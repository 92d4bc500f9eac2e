-- ===== src/Sync/Tests.antt =====
-- Instances of the theorems on pkg/syncutil, at two goroutines that call Do and one that calls Dispose.
use goico.Shared.{
  ◌⊎◌, ℕ, ◌≤◌, ◌≡◌, refl, ◌≢◌, inl, inr, true, false, Option, none, some, List, [], ◌∷◌,
}
use goico.Sync.Once.{
  returned, of_function, new_once_disposable, Place, do_enter, do_call, dispose_enter, System,
  place_at, step, advance, run,
}
use goico.Sync.Once.Guarantee.{at_most_once}
use goico.Shared.Key.{number_keys}

abbrev callers : List (Place ℕ)
callers = do_enter ∷ do_enter ∷ dispose_enter ∷ []

abbrev shared : System ℕ
shared = record { goroutines = callers; object = new_once_disposable }

-- Both calls of Do come up to the lock before one of them has it.
abbrev race : List (ℕ × Option ℕ)
race =
    (0, none)
    ∷ (1, none)
    ∷ (0, none)
    ∷ (1, none)
    ∷ (0, none)
    ∷ (1, none)
    ∷ (0, none)
    ∷ (1, none)
    ∷ (0, none)
    ∷ (0, none)
    ∷ (0, some 7)
    ∷ (0, none)
    ∷ (0, none)
    ∷ (0, none)
    ∷ []

abbrev finish : List (ℕ × Option ℕ)
finish = (0, none) ∷ (1, none) ∷ (1, none) ∷ (1, none) ∷ (1, none) ∷ []

at_most_once_example :
    ((run race shared).object.do_calls ≤ 1)
    × ((run race shared).object.dispose_calls ≤ 1)
    × (((run race shared).object.disposed ≡ false)
        ⊎ (place_at 1 (run race shared).goroutines ≢ some do_call))
at_most_once_example = at_most_once callers race 1 (inl refl, (inl refl, (inr refl, tt)))

race_done : (run race shared).object.done ≡ true
unfolding run step advance new_once_disposable
race_done = refl

race_called : (run race shared).object.do_calls ≡ 1
unfolding run step advance new_once_disposable
race_called = refl

-- A call of Do comes up to the lock, a Dispose runs from start to end, and the Do returns nil.
abbrev overtaken : List (ℕ × Option ℕ)
overtaken =
    (0, none)
    ∷ (0, none)
    ∷ (0, none)
    ∷ (2, none)
    ∷ (2, none)
    ∷ (2, none)
    ∷ (2, none)
    ∷ (2, none)
    ∷ (2, none)
    ∷ (2, none)
    ∷ (2, none)
    ∷ (0, none)
    ∷ (0, none)
    ∷ (0, none)
    ∷ (0, none)
    ∷ (0, none)
    ∷ []

overtaken_returns_nil :
    (place_at 0 (run overtaken shared).goroutines ≡ some (returned (of_function none)))
    × ((run overtaken shared).object.do_calls ≡ 0)
unfolding run step advance new_once_disposable
overtaken_returns_nil = (refl, refl)
