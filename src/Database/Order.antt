-- ===== src/Database/Order.antt =====
-- The order in which the key-value store sorts its keys (`bytes.Compare`, Pebble's default), and
-- the half-open ranges of an iterator's bounds.
use goico.Database.Key.{Bytes}
use goico.Shared.{
  ◌<◌, ◌≡◌, refl, Bool, true, false, not, ◌&&◌, Option, none, some, [], ◌∷◌, ◌++◌, arith, ltb, eqb,
  if◌then◌else◌,
}

-- `bytes.Compare(a, b) < 0`
abbrev pub bytes_ltb : Bytes → Bytes → Bool
bytes_ltb a [] = false
bytes_ltb [] (y ∷ ys) = true
bytes_ltb (x ∷ xs) (y ∷ ys) = if eqb x y then bytes_ltb xs ys else ltb x y

-- `LowerBound <= k < UpperBound`, where a nil upper bound is none at all.
abbrev pub below : Bytes → Option Bytes → Bool
below k none = true
below k (some u) = bytes_ltb k u

abbrev pub in_bounds : Bytes → Option Bytes → Bytes → Bool
in_bounds lower upper k = not (bytes_ltb k lower) && below k upper

-- `bytes.HasPrefix(k, p)`
abbrev pub has_prefix : Bytes → Bytes → Bool
has_prefix [] k = true
has_prefix (x ∷ p) [] = false
has_prefix (x ∷ p) (y ∷ k) = eqb x y && has_prefix p k

abbrev pub IsBytes : Bytes → Type 0
IsBytes [] = Unit
IsBytes (x ∷ xs) = (x < 256) × IsBytes xs

pub has_prefix-append : (p s : Bytes) → has_prefix p (p ++ s) ≡ true
has_prefix-append [] s = refl
has_prefix-append (x ∷ p) s = ground (arith, has_prefix-append p s)

pub has_prefix-eq : (p k : Bytes) → has_prefix p k ≡ true → (s : Bytes) × (k ≡ p ++ s)
has_prefix-eq [] k h = (k, refl)
has_prefix-eq (x ∷ p) [] h = absurd (ground arith)
has_prefix-eq (x ∷ p) (y ∷ k) h =
    let ih = has_prefix-eq p k (ground arith) in (ih.0, ground (arith, ih.1))

pub append-injective : (p a b : Bytes) → p ++ a ≡ p ++ b → a ≡ b
append-injective [] a b h = h
append-injective (x ∷ p) a b h = append-injective p a b (cc)
