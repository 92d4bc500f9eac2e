-- ===== src/Database/UpperBound.antt =====
-- pkg/database/table.go: `keyUpperBound`, the end of the range that `All` iterates over.
use goico.Database.Key.{Bytes}
use goico.Database.Order.{in_bounds, has_prefix, IsBytes}
use goico.Shared.{
  ℕ, zero, suc, ◌+◌, ◌%◌, ◌≡◌, refl, ap, ◌∙◌, inl, inr, not, Option, none, some, [], ◌∷◌, arith,
  eqb, if◌then◌else◌, Bool-cases, Option-cases, length, get_or, set, take,
}

-- The loop over `i`, with `i + 1` positions left: bytes are bumped from the end, mod 256, until one
-- does not wrap to 0. `none` is the nil that means "no upper bound".
unfoldable pub bump_from : ℕ → Bytes → Option Bytes
bump_from zero end = none
bump_from (suc i) end =
    let v = (get_or end i 0 + 1) % 256 in
    let end' = set end i v in
    let rest = bump_from i end' in if not (eqb v 0) then some (take (suc i) end') else rest

-- `keyUpperBound`
unfoldable pub key_upper_bound : Bytes → Option Bytes
unfolding bump_from
key_upper_bound b = bump_from (length b) b

-- The same from the front: bump the last byte that is not 255, and drop what follows it.
abbrev bump_head : ℕ → Option Bytes → Option Bytes
bump_head x (some ys) = some (x ∷ ys)
bump_head x none = if eqb ((x + 1) % 256) 0 then none else some ((x + 1) % 256 ∷ [])

abbrev successor : Bytes → Option Bytes
successor [] = none
successor (x ∷ xs) = bump_head x (successor xs)

bump_from-cons : (n x : ℕ) (xs : Bytes) → bump_from (suc n) (x ∷ xs) ≡ bump_head x (bump_from n xs)
unfolding bump_from
bump_from-cons zero x xs = ground arith
bump_from-cons (suc m) x xs =
    let v : ℕ = (get_or xs m 0 + 1) % 256 in
    let ih : bump_from (suc m) (x ∷ set xs m v) ≡ bump_head x (bump_from m (set xs m v)) =
      bump_from-cons m x (set xs m v) in
    elim (Bool-cases (eqb v 0)) [ inl wraps ↦ rw (wraps, ih) | inr stays ↦ rw stays ]

key_upper_bound-successor : (b : Bytes) → key_upper_bound b ≡ successor b
unfolding key_upper_bound
key_upper_bound-successor [] = refl
key_upper_bound-successor (x ∷ xs) =
    bump_from-cons (length xs) x xs ∙ ap (bump_head x) (key_upper_bound-successor xs)

-- Between a prefix and its successor lie exactly the keys with that prefix.
in_bounds-successor :
    (p k : Bytes) → IsBytes p → IsBytes k → in_bounds p (successor p) k ≡ has_prefix p k
in_bounds-successor [] [] hp hk = refl
in_bounds-successor [] (y ∷ k) hp hk = refl
in_bounds-successor (x ∷ p) [] hp hk = refl
in_bounds-successor (x ∷ p) (y ∷ k) hp hk = elim (Option-cases (successor p)) [
  | inl e ↦ rw e (ground (arith, in_bounds-successor p k hp.1 hk.1))
  | inr (u, e) ↦ rw e (ground (arith, in_bounds-successor p k hp.1 hk.1))
]

-- The range that `All` opens, from the prefix to `keyUpperBound(prefix)`, holds exactly the keys that
-- start with the prefix, also where the prefix ends in 255s and where there is no upper bound.
pub in_bounds-key_upper_bound :
    (p k : Bytes) → IsBytes p → IsBytes k → in_bounds p (key_upper_bound p) k ≡ has_prefix p k
in_bounds-key_upper_bound p k hp hk =
    rw (key_upper_bound-successor p) (in_bounds-successor p k hp hk)
