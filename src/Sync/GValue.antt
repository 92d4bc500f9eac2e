-- ===== src/Sync/GValue.antt =====
-- pkg/syncutil/gvalue.go: a typed cell over `atomic.Value`, which is empty until its first store. A
-- value of an interface type may be nil; `atomic.Value` panics when nil is stored, so the cell takes
-- the test for nil as a parameter.
use goico.Shared.Key.{Comparable}
use goico.Shared.Outcome.{Outcome, returns, panics}
use goico.Shared.{◌≡◌, refl, Bool, true, false, Option, none, some, arith, if◌then◌else◌}

-- What a type needs for `GValue`: its zero value, and which of its values are the nil interface.
pub record Zero (A : Type 0) : Type 0 where
  pub zero_value : A
  pub is_nil : A → Bool

module _ {A : Type 0} (z : Zero A) where
  -- `GValue`: `none` is the empty cell.
  abbrev pub GValue : Type 0
  GValue = Option A

  -- `Load`: a value that fails the type assertion, as that of an empty cell, is the zero value
  unfoldable pub load : Option A → A
  load none = z.zero_value
  load (some v) = v

  -- `Store`
  unfoldable pub store : A → Option A → Outcome (Option A)
  store v cell = if z.is_nil v then panics else returns (some v)

  -- `NewGValue`
  unfoldable pub new_gvalue : A → Outcome (Option A)
  unfolding store
  new_gvalue v = store v none

  -- `Swap`
  unfoldable pub swap : A → Option A → Outcome (A × Option A)
  unfolding load
  swap v cell = if z.is_nil v then panics else returns (load cell, some v)

  -- `CompareAndSwap`: nil as the new value panics; an empty cell equals the nil interface only
  unfoldable pub compare_and_swap :
      ⦃c : Comparable A⦄ → A → A → Option A → Outcome (Bool × Option A)
  compare_and_swap ⦃c⦄ old new cell = if z.is_nil new then panics else (elim cell [
    | none ↦ if z.is_nil old then returns (true, some new) else returns (false, none)
    | some v ↦ if c.same v old then returns (true, some new) else returns (false, some v)
  ])

  -- `Init`
  unfoldable pub init : Option A → Outcome (Option A)
  unfolding store
  init cell = store z.zero_value cell

  -- Load after Store, after Swap, and after a CompareAndSwap, which writes exactly if the old value is
  -- the one expected; Swap returns what Load would have.
  pub gvalue_lem :
      ⦃c : Comparable A⦄ (v old w : A) (cell : Option A)
      → z.is_nil v ≡ false
      → (store v cell ≡ returns (some v))
        × (load (some v) ≡ v)
        × (swap v cell ≡ returns (load cell, some v))
        × (compare_and_swap old v (some w)
            ≡ returns (if c.same w old then (true, some v) else (false, some w)))
        × (compare_and_swap old v none
            ≡ returns (if z.is_nil old then (true, some v) else (false, none)))
  unfolding store swap compare_and_swap load
  gvalue_lem ⦃c⦄ v old w cell h = (ground arith, refl, ground arith, ground arith, ground arith)
