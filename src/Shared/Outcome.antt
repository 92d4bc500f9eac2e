-- ===== src/Shared/Outcome.antt =====
-- What a step of a Go program may come to: it returns, it cannot go on yet (a lock or a channel is
-- not ready), or it panics.
use mathlib.Core.Path.{◌≡◌, refl}
use mathlib.Core.Logic.{◌⊎◌, inl, inr}

pub data Outcome {ℓ} (A : Type ℓ) : Type ℓ where
  returns : A → Outcome A
  blocked : Outcome A
  panics : Outcome A

infixl 5 ◌>>=◌
abbrev pub ◌>>=◌ {ℓ κ} : {A : Type ℓ} {B : Type κ} → Outcome A → (A → Outcome B) → Outcome B
returns a >>= f = f a
blocked >>= f = blocked
panics >>= f = panics

module _ {ℓ κ} {A : Type ℓ} {B : Type κ} where
  pub >>=-returns :
      (m : Outcome A) (f : A → Outcome B) {b : B}
      → (m >>= f) ≡ returns b
      → (a : A) × (m ≡ returns a) × (f a ≡ returns b)
  >>=-returns (returns a) f h = (a, refl, h)
  >>=-returns blocked f h = cc
  >>=-returns panics f h = cc

-- The step does not panic, and what it returns satisfies `P`.
abbrev pub Safely {ℓ} : {A : Type ℓ} → (A → Type 0) → Outcome A → Type 0
Safely P (returns a) = P a
Safely P blocked = Unit
Safely P panics = ⊥

pub Safely-bind {ℓ κ} :
    {A : Type ℓ} {B : Type κ} (P : A → Type 0) (Q : B → Type 0) (m : Outcome A) (f : A → Outcome B)
    → Safely P m
    → ((a : A) → P a → Safely Q (f a))
    → Safely Q (m >>= f)
Safely-bind P Q (returns a) f h k = k a h
Safely-bind P Q blocked f h k = tt
Safely-bind P Q panics f h k = h

pub Safely-map {ℓ} :
    {A : Type ℓ} (P Q : A → Type 0) (m : Outcome A)
    → Safely P m
    → ((a : A) → P a → Q a)
    → Safely Q m
Safely-map P Q (returns a) h k = k a h
Safely-map P Q blocked h k = tt
Safely-map P Q panics h k = h

pub Safely-cases {ℓ} :
    {A : Type ℓ} (P : A → Type 0) (m : Outcome A)
    → Safely P m
    → (m ≡ blocked) ⊎ ((a : A) × (m ≡ returns a) × P a)
Safely-cases P (returns a) h = inr (a, refl, h)
Safely-cases P blocked h = inl refl
Safely-cases P panics h = absurd h
