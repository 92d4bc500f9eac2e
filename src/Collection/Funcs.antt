-- ===== src/Collection/Funcs.antt =====
-- pkg/collection/funcs.go, pkg/convert/convert.go and pkg/ref/ref.go: helpers over slices and errors.
use mathlib.Core.List.{append_assoc, append-nil}
use goico.Shared.{
  lt→ltb, ◌<◌, ℕ, ◌+◌, ◌<◌, ◌≡◌, refl, sym, ◌∙◌, Option, none, some, List, [], ◌∷◌, ◌++◌, map,
  arith, ltb, if◌then◌else◌, length, get_or,
}

-- `FirstOrDefault`
unfoldable pub first_or_default : {A : Type 0} → List A → A → A
first_or_default ds df = if ltb 0 (length ds) then get_or ds 0 df else df

-- The loop of `JoinOf`, with the index and what the builder holds
unfoldable pub join_loop : {A : Type 0} → List ℕ → (A → List ℕ) → ℕ → List ℕ → List A → List ℕ
join_loop sep fn i b [] = b
join_loop sep fn i b (v ∷ t) =
    join_loop sep fn (i + 1) ((if ltb 0 i then b ++ sep else b) ++ fn v) t

-- `JoinOf`
unfoldable pub join_of : {A : Type 0} → List A → List ℕ → (A → List ℕ) → List ℕ
unfolding join_loop
join_of t sep fn = join_loop sep fn 0 [] t

-- `SliceWithFn`
unfoldable pub slice_with_fn : {A B : Type 0} → List B → List A → (A → B) → List B
slice_with_fn t [] fn = t
slice_with_fn t (ee ∷ o) fn = slice_with_fn (t ++ fn ee ∷ []) o fn

-- Go's errors: one with a text, one that wraps another, and what `errors.Join` makes.
mutual
  pub data GoError : Type 0 where
    plain : List ℕ → GoError
    wrapping : List ℕ → GoError → GoError
    joined : GoErrors → GoError

  pub data GoErrors : Type 0 where
    nil : GoErrors
    cons : GoError → GoErrors → GoErrors

abbrev pub to_list : GoErrors → List GoError
to_list nil = []
to_list (cons e es) = e ∷ to_list es

-- `errors.As` for an error with `Unwrap() []error`: the error itself, else what it wraps
unfoldable pub as_joined : GoError → Option GoErrors
as_joined (plain text) = none
as_joined (wrapping text e) = as_joined e
as_joined (joined es) = some es

-- `UnwrapError`
unfoldable pub unwrap_error : GoError → List GoError
unfolding as_joined
unwrap_error err = elim (as_joined err) [ some es ↦ to_list es | none ↦ err ∷ [] ]

-- The texts with the separator between each two of them.
abbrev pub intersperse : List ℕ → List (List ℕ) → List ℕ
intersperse sep [] = []
intersperse sep (x ∷ []) = x
intersperse sep (x ∷ y ∷ more) = (x ++ sep) ++ intersperse sep (y ∷ more)

join_loop-cons :
    {A : Type 0} (sep : List ℕ) (fn : A → List ℕ) (i : ℕ) (b : List ℕ) (v : A) (t : List A)
    → 0 < i
    → join_loop sep fn i b (v ∷ t) ≡ join_loop sep fn (i + 1) ((b ++ sep) ++ fn v) t
unfolding join_loop
join_loop-cons sep fn i b v t h = rw (lt→ltb 0 i h)

join_loop-intersperse :
    {A : Type 0} (sep : List ℕ) (fn : A → List ℕ) (i : ℕ) (b : List ℕ) (v : A) (t : List A)
    → 0 < i
    → join_loop sep fn i b (v ∷ t) ≡ (b ++ sep) ++ intersperse sep (map fn (v ∷ t))
unfolding join_loop
join_loop-intersperse sep fn i b v [] h = join_loop-cons sep fn i b v [] h
join_loop-intersperse sep fn i b v (w ∷ t) h =
    join_loop-cons sep fn i b v (w ∷ t) h
    ∙ join_loop-intersperse sep fn (i + 1) ((b ++ sep) ++ fn v) w t (omega arith)
    ∙ simp append_assoc

-- JoinOf writes the separator between each two texts, and neither first nor last.
pub join_of-intersperse :
    {A : Type 0} (t : List A) (sep : List ℕ) (fn : A → List ℕ)
    → join_of t sep fn ≡ intersperse sep (map fn t)
unfolding join_of join_loop
join_of-intersperse [] sep fn = refl
join_of-intersperse (v ∷ []) sep fn = refl
join_of-intersperse (v ∷ w ∷ t) sep fn = join_loop-intersperse sep fn 1 (fn v) w t (omega arith)

slice_with_fn-append :
    {A B : Type 0} (t : List B) (o : List A) (fn : A → B) → slice_with_fn t o fn ≡ t ++ map fn o
unfolding slice_with_fn
slice_with_fn-append t [] fn = sym (append-nil t)
slice_with_fn-append t (x ∷ o) fn =
    slice_with_fn-append (t ++ fn x ∷ []) o fn ∙ append_assoc t (fn x ∷ []) (map fn o)
