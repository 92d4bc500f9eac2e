-- ===== src/Collection/Set.antt =====
-- pkg/collection/set.go: a set as a map whose values carry nothing.
use mathlib.Core.List.{append_assoc}
use goico.Shared.Key.{Comparable, ◌==◌}
use goico.Shared.GoMap.{
  GoMap, lookup, put, remove, Distinct, lookup-put, lookup-remove, put-Distinct, length-put_new,
  length-put_old, length-remove, remove_absent,
}
use goico.Shared.{
  ℕ, suc, ◌+◌, ◌≡◌, refl, sym, ap, ◌∙◌, inl, inr, Bool, true, false, not, ◌||◌, none, some, List,
  [], ◌∷◌, ◌++◌, map, arith, if◌then◌else◌, Option-cases, length, set, replicate, length-append,
}

abbrev pub Set : Type 0 → Type 0
Set K = GoMap K (Unit {0})

abbrev pub elements : {K : Type 0} → Set K → List K
elements [] = []
elements ((k, v) ∷ s) = k ∷ elements s

-- `Range`: the callback's state, and whether it goes on
unfoldable pub range_set : {K S : Type 0} → (K → S → S × Bool) → S → Set K → S
range_set fn state [] = state
range_set fn state ((k, v) ∷ s) =
    let (state', go_on) = fn k state in
    let rest = range_set fn state' s in if not go_on then state' else rest

-- `Size`
unfoldable pub size : {K : Type 0} → Set K → ℕ
size s = length s

-- `vals[i] = t; i++`
abbrev fill : {K : Type 0} → K → List K × ℕ → (List K × ℕ) × Bool
fill t state = ((set state.0 state.1 t, suc state.1), true)

-- `Values`: each element in turn into a slice of zero values
unfoldable pub values : {K : Type 0} → K → Set K → List K
unfolding range_set size
values {K} zero_value s = (range_set {S = List K × ℕ} fill (replicate (size s) zero_value, 0) s).0

module _ {K : Type 0} ⦃c : Comparable K⦄ where
  -- `Add`
  unfoldable pub add : K → Set K → Set K
  add t s = put t tt s

  -- `Has`
  unfoldable pub has : K → Set K → Bool
  has t s = elim (lookup t s) [ none ↦ false | some _ ↦ true ]

  -- `Delete`
  unfoldable pub delete : K → Set K → Bool × Set K
  unfolding has
  delete t s = (has t s, remove t s)

  add_all : {Y : Type 0} → (Y → K) → List Y → Set K → Set K
  unfolding add
  add_all fn [] s = s
  add_all fn (v ∷ vs) s = add_all fn vs (add (fn v) s)

  -- `NewSetFn`
  unfoldable pub new_set_fn : {Y : Type 0} → List Y → (Y → K) → Set K
  unfolding add_all
  new_set_fn vs fn = add_all fn vs []

  -- `NewSet`
  unfoldable pub new_set : List K → Set K
  unfolding new_set_fn
  new_set vs = new_set_fn vs (λ v. v)

  abbrev pub contains : K → List K → Bool
  contains t [] = false
  contains t (v ∷ vs) = (v == t) || contains t vs

  has-put : (t j : K) (s : Set K) → has j (put t tt s) ≡ ((t == j) || has j s)
  unfolding has
  has-put t j s = ground (arith, lookup-put t j tt s)

  has-add_all :
      {Y : Type 0} (fn : Y → K) (vs : List Y) (s : Set K) (t : K)
      → has t (add_all fn vs s) ≡ (contains t (map fn vs) || has t s)
  unfolding add_all
  has-add_all fn [] s t = refl
  has-add_all fn (v ∷ vs) s t =
      ground (arith, has-add_all fn vs (put (fn v) tt s) t, has-put (fn v) t s)

  add_all-Distinct :
      {Y : Type 0} (fn : Y → K) (vs : List Y) (s : Set K) → Distinct s → Distinct (add_all fn vs s)
  unfolding add_all
  add_all-Distinct fn [] s d = d
  add_all-Distinct fn (v ∷ vs) s d =
      add_all-Distinct fn vs (put (fn v) tt s) (put-Distinct (fn v) tt s d)

  -- A set made from a list by a function has exactly the images, each once.
  pub new_set_fn-has :
      {Y : Type 0} (vs : List Y) (fn : Y → K) (t : K)
      → (has t (new_set_fn vs fn) ≡ contains t (map fn vs)) × Distinct (new_set_fn vs fn)
  unfolding new_set_fn
  new_set_fn-has vs fn t =
      (has-add_all fn vs [] t ∙ (unfold has lookup in ground arith), add_all-Distinct fn vs [] tt)

  -- Delete reports whether the element was there; afterwards it is not, every other element is as it
  -- was, and the size has fallen by one exactly if it was there. Add makes the element present, keeps
  -- the others, and raises the size by one exactly if it was absent.
  pub delete_add_lem :
      (t j : K) (s : Set K)
      → Distinct s
      → ((delete t s).0 ≡ has t s)
        × (has j (delete t s).1 ≡ (if t == j then false else has j s))
        × (size s ≡ size (delete t s).1 + (if has t s then 1 else 0))
        × (has j (add t s) ≡ ((t == j) || has j s))
        × (size (add t s) ≡ size s + (if has t s then 0 else 1))
  unfolding delete size add
  delete_add_lem t j s d = elim (Option-cases (lookup t s)) [
    | inl e ↦ (
      refl,
      ground (arith, lookup-remove t j s),
      ground (arith, remove_absent t s),
      has-put t j s,
      ground (arith, length-put_new t tt s),
    )
    | inr (u, e) ↦ (
      refl,
      ground (arith, lookup-remove t j s),
      ground (arith, length-remove t tt s d),
      has-put t j s,
      ground (arith, length-put_old t tt tt s),
    )
  ]

set-append :
    {K : Type 0} (p : List K) (x t : K) (b : List K)
    → set (p ++ x ∷ b) (length p) t ≡ (p ++ t ∷ []) ++ b
set-append [] x t b = refl
set-append (y ∷ p) x t b = ap (λ l. y ∷ l) (set-append p x t b)

range_set-fill :
    {K : Type 0} (z : K) (p : List K) (s : Set K)
    → (range_set {S = List K × ℕ} fill (p ++ replicate (length s) z, length p) s).0
      ≡ p ++ elements s
unfolding range_set
range_set-fill z p [] = refl
range_set-fill {K} z p ((k, v) ∷ s) =
    let next : length p + 1 ≡ length (p ++ k ∷ []) = sym (length-append p (k ∷ [])) in
    ap (λ (st : List K × ℕ). (range_set {S = List K × ℕ} fill st s).0)
      (ground (arith, set-append p z k (replicate (length s) z), length-append p (k ∷ [])))
    ∙ range_set-fill z (p ++ k ∷ []) s
    ∙ append_assoc p (k ∷ []) (elements s)

-- Values lists the elements in the order of the iteration: the slice of zero values is filled from
-- end to end.
pub values-elements : {K : Type 0} (z : K) (s : Set K) → values z s ≡ elements s
unfolding values
values-elements z s = range_set-fill z [] s
