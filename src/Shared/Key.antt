-- ===== src/Shared/Key.antt =====
-- Go's `comparable` constraint: a Boolean equality that decides paths, for each type of keys.
use Prim.Native.Nat.{ℕ}
use Prim.Native.String.{String}
use mathlib.Core.Path.{◌≡◌, refl}
use mathlib.Core.Logic.{◌↔◌}
use mathlib.Core.Bool.{Bool, true, false, ◌&&◌}
use mathlib.Core.List.{List, [], ◌∷◌}
use native.Mathlib.Omega.{arith}
use text.Mathlib.Text
use text.Mathlib.TextEquality
use goico.Shared.Tests.{eqb, eqb_iff}

abbrev pub bytes_beq : List ℕ → List ℕ → Bool
bytes_beq [] [] = true
bytes_beq [] (y ∷ ys) = false
bytes_beq (x ∷ xs) [] = false
bytes_beq (x ∷ xs) (y ∷ ys) = eqb x y && bytes_beq xs ys

pub bytes_beq_iff : (a b : List ℕ) → (bytes_beq a b ≡ true) ↔ (a ≡ b)
bytes_beq_iff [] [] = ground arith
bytes_beq_iff [] (y ∷ ys) = ground arith
bytes_beq_iff (x ∷ xs) [] = ground arith
bytes_beq_iff (x ∷ xs) (y ∷ ys) = ground (arith, bytes_beq_iff xs ys)

pub record Comparable {ℓ} (K : Type ℓ) : Type ℓ where
  pub same : K → K → Bool
  pub same_iff : (i j : K) → (same i j ≡ true) ↔ (i ≡ j)

instance abbrev pub bytes_keys : Comparable (List ℕ)
bytes_keys = record { same = bytes_beq; same_iff = bytes_beq_iff }

instance abbrev pub number_keys : Comparable ℕ
number_keys = record { same = eqb; same_iff = eqb_iff }

instance abbrev pub text_keys : Comparable String
text_keys = record { same = Text.◌==◌; same_iff = TextEquality.eq_iff }

module _ {ℓ} {K : Type ℓ} ⦃c : Comparable K⦄ where
  infix 50 ◌==◌
  abbrev pub ◌==◌ : K → K → Bool
  i == j = c.same i j

  pub ==-refl : (i : K) → (i == i) ≡ true
  ==-refl i = (c.same_iff i i).1 refl
