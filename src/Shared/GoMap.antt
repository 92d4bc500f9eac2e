-- ===== src/Shared/GoMap.antt =====
-- Go's `map[K]V` and `sync.Map`: an association list in which each key stands once. Go leaves the
-- order of iteration open; the list's order is one that it may take.
use mathlib.Core.Path.{◌≡◌, refl}
use mathlib.Core.List.{List, [], ◌∷◌}
use mathlib.Core.Option.{Option, none, some}
use Prim.Native.Nat.{◌+◌}
use native.Mathlib.Omega.{arith}
use goico.Shared.Tests.{if◌then◌else◌}
use goico.Shared.Lists.{length}
use goico.Shared.Key.{Comparable, ◌==◌}

abbrev pub GoMap {ℓ κ} : Type ℓ → Type κ → Type (ℓ ⊔ κ)
GoMap K V = List (K × V)

module _ {ℓ κ} {K : Type ℓ} {V : Type κ} ⦃c : Comparable K⦄ where
  -- `v, ok := m[k]`
  unfoldable pub lookup : K → GoMap K V → Option V
  lookup k [] = none
  lookup k ((j, v) ∷ m) = if j == k then some v else lookup k m

  -- `delete(m, k)`
  unfoldable pub remove : K → GoMap K V → GoMap K V
  remove k [] = []
  remove k ((j, v) ∷ m) = let rest = remove k m in if j == k then rest else (j, v) ∷ rest

  -- `m[k] = v`
  unfoldable pub put : K → V → GoMap K V → GoMap K V
  put k v [] = (k, v) ∷ []
  put k v ((j, w) ∷ m) = if j == k then (k, v) ∷ m else (j, w) ∷ put k v m

  pub lookup-remove :
      (k j : K) (m : GoMap K V) → lookup j (remove k m) ≡ (if k == j then none else lookup j m)
  unfolding lookup remove
  lookup-remove k j [] = ground arith
  lookup-remove k j ((i, w) ∷ m) =
      ground (arith, c.same_iff k j, c.same_iff i k, c.same_iff i j, lookup-remove k j m)

  pub lookup-put :
      (k j : K) (v : V) (m : GoMap K V)
      → lookup j (put k v m) ≡ (if k == j then some v else lookup j m)
  unfolding lookup put
  lookup-put k j v [] = refl
  lookup-put k j v ((i, w) ∷ m) =
      ground (arith, c.same_iff k j, c.same_iff i k, c.same_iff i j, lookup-put k j v m)

  -- No key stands twice: what makes the list a map.
  abbrev pub Distinct : GoMap K V → Type κ
  Distinct [] = Unit
  Distinct ((k, v) ∷ m) = (lookup k m ≡ none) × Distinct m

  pub put-Distinct : (k : K) (v : V) (m : GoMap K V) → Distinct m → Distinct (put k v m)
  unfolding put lookup
  put-Distinct k v [] d = (refl, tt)
  put-Distinct k v ((i, w) ∷ m) d =
      ground (arith, c.same_iff i k, c.same_iff k i, lookup-put k i v m, put-Distinct k v m d.1)

  pub remove-Distinct : (k : K) (m : GoMap K V) → Distinct m → Distinct (remove k m)
  unfolding remove
  remove-Distinct k [] d = tt
  remove-Distinct k ((i, w) ∷ m) d =
      ground (arith, lookup-remove k i m, remove-Distinct k m d.1, c.same_iff k i)

  pub length-put_new :
      (k : K) (v : V) (m : GoMap K V) → lookup k m ≡ none → length (put k v m) ≡ length m + 1
  unfolding put lookup
  length-put_new k v [] h = refl
  length-put_new k v ((i, w) ∷ m) h = ground (arith, length-put_new k v m)

  pub length-put_old :
      (k : K) (v w : V) (m : GoMap K V) → lookup k m ≡ some w → length (put k v m) ≡ length m
  unfolding put lookup
  length-put_old k v u [] h = ground arith
  length-put_old k v u ((i, w) ∷ m) h = ground (arith, length-put_old k v u m)

  pub remove_absent : (k : K) (m : GoMap K V) → lookup k m ≡ none → remove k m ≡ m
  unfolding remove lookup
  remove_absent k [] h = refl
  remove_absent k ((i, w) ∷ m) h = ground (arith, remove_absent k m)

  pub length-remove :
      (k : K) (v : V) (m : GoMap K V)
      → Distinct m
      → lookup k m ≡ some v
      → length (remove k m) + 1 ≡ length m
  unfolding remove lookup
  length-remove k u [] d h = ground arith
  length-remove k u ((i, w) ∷ m) d h =
      ground (arith, length-remove k u m d.1, remove_absent k m, c.same_iff i k)

pub ruleset map_laws = (lookup-remove, lookup-put)
