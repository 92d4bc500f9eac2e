-- ===== src/Sync/Once.antt =====
-- pkg/syncutil/once.go: `OnceDisposable`, whose Do and Dispose run in any number of goroutines at once.
-- A goroutine is the place in the source where it stands; each step is one access to a shared cell, a
-- lock operation, or a call of the function that the caller handed over.
pub mod Guarantee
pub mod Invariant
use goico.Shared.{
  ℕ, zero, suc, ◌+◌, ◌-◌, ◌%◌, ◌≤◌, ◌<◌, ◌≡◌, refl, sym, ap, ◌∙◌, ◌≢◌, ◌↔◌, ◌⊎◌, inl, inr, Bool,
  true, false, not, ◌&&◌, ◌||◌, Option, none, some, List, [], ◌∷◌, ◌++◌, map, arith, ltb, leb, eqb,
  eqb_iff, lt→ltb, if◌then◌else◌, Bool-cases, Option-cases, length, get_or, set, take, drop,
  replicate, copy_at, copy_at_next, length-append, length-set, length-drop, length-take,
  length-replicate, take-length, drop_all, copy_at_last,
}

-- `OnceDisposable`. An empty error cell loads as nil, so it is an option here. The counters say how
-- often the functions given to Do and to Dispose were called.
pub record Once (E : Type 0) : Type 0 where
  pub done : Bool
  pub disposed : Bool
  pub err_done : Option E
  pub err_dispose : Option E
  pub locked : Bool
  pub do_calls : ℕ
  pub dispose_calls : ℕ

-- `NewOnceDisposable`
unfoldable pub new_once_disposable : {E : Type 0} → Once E
new_once_disposable = record {
  done = false;
  disposed = false;
  err_done = none;
  err_dispose = none;
  locked = false;
  do_calls = 0;
  dispose_calls = 0;
}

-- What a call returns: nil, the error of the function, or "disposable object already disposed".
pub data Reply (E : Type 0) : Type 0 where
  of_function : Option E → Reply E
  already_disposed : Reply E

-- Where a goroutine stands, named for what it does next. Deferred calls run after the returned error
-- has been loaded: first the mark, then the unlock.
pub data Place (E : Type 0) : Type 0 where
  do_enter do_load_done do_load_disposed do_lock do_done_again do_disposed_again do_call : Place E
  do_store : Option E → Place E
  do_result do_result_unmarked do_result_unlocked : Place E
  do_mark do_unlock : Option E → Place E
  dispose_enter dispose_lock dispose_again dispose_call : Place E
  dispose_store : Option E → Place E
  dispose_result dispose_result_unmarked dispose_result_unlocked : Place E
  dispose_mark dispose_unlock : Option E → Place E
  returned : Reply E → Place E

-- The goroutines and the object.
pub record System (E : Type 0) : Type 0 where
  pub goroutines : List (Place E)
  pub object : Once E

module _ {E : Type 0} where
  abbrev keep_error : Option E → Option E → Option E
  keep_error none cell = cell
  keep_error (some e) cell = some e

  -- One step of a goroutine; `given` is what the function returns if this step calls it. `none`: the
  -- lock is taken, or the goroutine has returned.
  unfoldable pub advance : Option E → Place E → Once E → Option (Place E × Once E)
  advance given do_enter o =
      some (if o.disposed then returned already_disposed else do_load_done, o)
  advance given do_load_done o = some (if o.done then do_result_unlocked else do_load_disposed, o)
  advance given do_load_disposed o = some (if o.disposed then do_result_unlocked else do_lock, o)
  advance given do_lock o =
      if o.locked then none else some (do_done_again, record o { locked = true })
  advance given do_done_again o = some (if o.done then do_result_unmarked else do_disposed_again, o)
  advance given do_disposed_again o = some (if o.disposed then do_result_unmarked else do_call, o)
  advance given do_call o = some (do_store given, record o { do_calls = o.do_calls + 1 })
  advance given (do_store e) o = some (do_result, record o { err_done = keep_error e o.err_done })
  advance given do_result o = some (do_mark o.err_done, o)
  advance given (do_mark e) o = some (do_unlock e, record o { done = true })
  advance given do_result_unmarked o = some (do_unlock o.err_done, o)
  advance given (do_unlock e) o = some (returned (of_function e), record o { locked = false })
  advance given do_result_unlocked o = some (returned (of_function o.err_done), o)
  advance given dispose_enter o =
      some (if o.disposed then dispose_result_unlocked else dispose_lock, o)
  advance given dispose_lock o =
      if o.locked then none else some (dispose_again, record o { locked = true })
  advance given dispose_again o =
      some (if o.disposed then dispose_result_unmarked else dispose_call, o)
  advance given dispose_call o =
      some (dispose_store given, record o { dispose_calls = o.dispose_calls + 1 })
  advance given (dispose_store e) o =
      some (dispose_result, record o { err_dispose = keep_error e o.err_dispose })
  advance given dispose_result o = some (dispose_mark o.err_dispose, o)
  advance given (dispose_mark e) o = some (dispose_unlock e, record o { disposed = true })
  advance given dispose_result_unmarked o = some (dispose_unlock o.err_dispose, o)
  advance given (dispose_unlock e) o = some (returned (of_function e), record o { locked = false })
  advance given dispose_result_unlocked o = some (returned (of_function o.err_dispose), o)
  advance given (returned r) o = none

  abbrev pub place_at : ℕ → List (Place E) → Option (Place E)
  place_at i [] = none
  place_at zero (p ∷ ps) = some p
  place_at (suc i) (p ∷ ps) = place_at i ps

  -- A step of goroutine `i`, nothing if it cannot go on.
  unfoldable pub step : ℕ × Option E → System E → System E
  step (i, given) s = elim (place_at i s.goroutines) [
    | none ↦ s
    | some p ↦ elim (advance given p s.object) [
      | none ↦ s
      | some (p', o) ↦ record { goroutines = set s.goroutines i p'; object = o }
    ]
  ]

  unfoldable pub run : List (ℕ × Option E) → System E → System E
  run [] s = s
  run (c ∷ cs) s = run cs (step c s)
