-- ===== src/Shared/Lists.antt =====
-- Slices: lists measured and indexed by native numbers, under the library's names.
use Prim.Native.Nat.{ℕ, zero, suc, ◌+◌, ◌-◌, ◌≤◌, min}
use mathlib.Core.Path.{◌≡◌, refl, sym, ap}
use mathlib.Core.List.{List, [], ◌∷◌, ◌++◌, append_assoc, append-nil}
use native.Mathlib.Omega.{arith}

module _ {ℓ} {A : Type ℓ} where
  abbrev pub length : List A → ℕ
  length [] = 0
  length (x ∷ xs) = suc (length xs)

  abbrev pub get_or : List A → ℕ → A → A
  get_or [] i d = d
  get_or (x ∷ xs) zero d = x
  get_or (x ∷ xs) (suc i) d = get_or xs i d

  abbrev pub set : List A → ℕ → A → List A
  set [] i v = []
  set (x ∷ xs) zero v = v ∷ xs
  set (x ∷ xs) (suc i) v = x ∷ set xs i v

  abbrev pub take : ℕ → List A → List A
  take zero xs = []
  take (suc n) [] = []
  take (suc n) (x ∷ xs) = x ∷ take n xs

  abbrev pub drop : ℕ → List A → List A
  drop zero xs = xs
  drop (suc n) [] = []
  drop (suc n) (x ∷ xs) = drop n xs

  abbrev pub replicate : ℕ → A → List A
  replicate zero a = []
  replicate (suc n) a = a ∷ replicate n a

  pub length-append : (xs ys : List A) → length (xs ++ ys) ≡ length xs + length ys
  length-append [] ys = omega arith
  length-append (x ∷ xs) ys = omega (arith, length-append xs ys)

  pub length-set : (xs : List A) (i : ℕ) (v : A) → length (set xs i v) ≡ length xs
  length-set [] i v = refl
  length-set (x ∷ xs) zero v = refl
  length-set (x ∷ xs) (suc i) v = ap suc (length-set xs i v)

  pub take-append-drop : (n : ℕ) (xs : List A) → take n xs ++ drop n xs ≡ xs
  take-append-drop zero xs = refl
  take-append-drop (suc n) [] = refl
  take-append-drop (suc n) (x ∷ xs) = rw (take-append-drop n xs)

  pub length-take : (n : ℕ) (xs : List A) → length (take n xs) ≡ min n (length xs)
  length-take zero xs = omega arith
  length-take (suc n) [] = omega arith
  length-take (suc n) (x ∷ xs) = omega (arith, length-take n xs)

  pub length-drop : (n : ℕ) (xs : List A) → length (drop n xs) ≡ length xs - n
  length-drop zero xs = omega arith
  length-drop (suc n) [] = omega arith
  length-drop (suc n) (x ∷ xs) = omega (arith, length-drop n xs)

  pub length-replicate : (n : ℕ) (a : A) → length (replicate n a) ≡ n
  length-replicate zero a = refl
  length-replicate (suc n) a = ap suc (length-replicate n a)

  pub take-length : (xs : List A) → take (length xs) xs ≡ xs
  take-length [] = refl
  take-length (x ∷ xs) = rw (take-length xs)

  pub take_all : (n : ℕ) (xs : List A) → length xs ≤ n → take n xs ≡ xs
  take_all zero [] h = refl
  take_all zero (x ∷ xs) h = absurd (omega arith)
  take_all (suc n) [] h = refl
  take_all (suc n) (x ∷ xs) h = ap (λ t. x ∷ t) (take_all n xs (omega arith))

  pub drop_all : (n : ℕ) (xs : List A) → length xs ≤ n → drop n xs ≡ []
  drop_all zero [] h = refl
  drop_all zero (x ∷ xs) h = absurd (omega arith)
  drop_all (suc n) [] h = refl
  drop_all (suc n) (x ∷ xs) h = drop_all n xs (omega arith)

-- Go's `copy(d, s)`: overwrites the first `min(len d, len s)` items of `d`.
module _ {ℓ} {A : Type ℓ} where
  abbrev pub overwrite : List A → List A → List A
  overwrite [] s = []
  overwrite (x ∷ d) [] = x ∷ d
  overwrite (x ∷ d) (y ∷ s) = y ∷ overwrite d s

  -- `copy(d[n:], s)`, seen from `d`.
  abbrev pub copy_at : List A → ℕ → List A → List A
  copy_at d zero s = overwrite d s
  copy_at [] (suc n) s = []
  copy_at (x ∷ d) (suc n) s = x ∷ copy_at d n s

  copy_at-append : (p b s : List A) → copy_at (p ++ b) (length p) s ≡ p ++ overwrite b s
  copy_at-append [] b s = refl
  copy_at-append (x ∷ p) b s = ap (λ t. x ∷ t) (copy_at-append p b s)

  overwrite_lem : (b s : List A) → length s ≤ length b → overwrite b s ≡ s ++ drop (length s) b
  overwrite_lem [] [] h = refl
  overwrite_lem [] (y ∷ s) h = absurd (omega arith)
  overwrite_lem (x ∷ b) [] h = refl
  overwrite_lem (x ∷ b) (y ∷ s) h = ap (λ t. y ∷ t) (overwrite_lem b s (omega arith))

  -- A copy behind what is already written, into a tail with room for it.
  pub copy_at_next :
      (p b s : List A) (m : ℕ)
      → m ≡ length p
      → length s ≤ length b
      → copy_at (p ++ b) m s ≡ (p ++ s) ++ drop (length s) b
  copy_at_next p b s m e h =
      rw e (
        rw (copy_at-append p b s, overwrite_lem b s h) (sym (append_assoc p s (drop (length s) b))))

  -- The last copy fills the tail.
  pub copy_at_last :
      (p b s : List A) (m : ℕ) → m ≡ length p → length b ≡ length s → copy_at (p ++ b) m s ≡ p ++ s
  copy_at_last p b s m e h =
      rw (copy_at_next p b s m e (omega arith), drop_all (length s) b (omega arith))
        (append-nil (p ++ s))
