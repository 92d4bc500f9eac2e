-- ===== src/Service/Http/Recover.antt =====
-- pkg/service/http/recover.go: `walk`, which lists the frames of a panic for the log, and `format`.
use goico.Shared.{
  ℕ, zero, suc, ◌+◌, ◌-◌, ◌≤◌, ◌<◌, ◌≡◌, refl, sym, ap, ◌∙◌, inl, inr, Bool, true, false, ◌||◌,
  Option, none, some, List, [], ◌∷◌, ◌++◌, arith, ltb, if◌then◌else◌, Bool-cases, length, take,
  length-append, length-take,
}
use mathlib.Core.List.{append-nil, append_assoc}
use goico.Env.Os.{Text, cut_prefix}

-- A frame, by the name of its function and its text in the log
pub record Frame : Type 0 where
  pub function : Text
  pub text : Text

-- "panic"
abbrev pub panic_text : Text
panic_text = 112 ∷ 97 ∷ 110 ∷ 105 ∷ 99 ∷ []

abbrev pub is_some : Option Text → Bool
is_some none = false
is_some (some s) = true

-- `strings.Contains`
unfoldable pub contains : Text → Text → Bool
unfolding cut_prefix
contains part [] = is_some (cut_prefix part [])
contains part (c ∷ s) = is_some (cut_prefix part (c ∷ s)) || contains part s

-- The loop of `walk`: the frames that are still to come, whether it skips, and the frames kept
unfoldable pub walk_loop : List Frame → Bool → List Frame → List Frame
unfolding contains
walk_loop [] skip kept = kept
walk_loop (f ∷ fs) skip kept =
    let rest_skipping = walk_loop fs (contains panic_text f.function) kept in
    let rest_keeping = walk_loop fs false (kept ++ f ∷ []) in
    if ltb (length kept) 40 then (if skip then rest_skipping else rest_keeping) else kept

-- `walk` over the frames that CallersFrames gives
unfoldable pub walk : List Frame → List Frame
unfolding walk_loop
walk fs = walk_loop fs true []

-- `format`
unfoldable pub format : List Frame → Text → Text
format [] result = result
format (f ∷ fs) result = format fs (result ++ 10 ∷ f.text)

-- The frames behind the first whose function has no "panic" in its name
abbrev pub behind_panics : List Frame → List Frame
behind_panics [] = []
behind_panics (f ∷ fs) = if contains panic_text f.function then behind_panics fs else fs

take-nil : {A : Type 0} (n : ℕ) → take {A = A} n [] ≡ []
take-nil zero = refl
take-nil (suc n) = refl

take-cons :
    {A : Type 0} (n : ℕ) (a : A) (xs : List A) → 0 < n → take n (a ∷ xs) ≡ a ∷ take (n - 1) xs
take-cons zero a xs h = absurd (omega arith)
take-cons (suc n) a xs h = ap (λ k. a ∷ take k xs) (omega arith)

walk_loop-keeping :
    (fs kept : List Frame)
    → length kept ≤ 40
    → walk_loop fs false kept ≡ kept ++ take (40 - length kept) fs
unfolding walk_loop
walk_loop-keeping [] kept h =
    sym (ap (λ t. kept ++ t) (take-nil (40 - length kept)) ∙ append-nil kept)
walk_loop-keeping (f ∷ fs) kept h = elim (Bool-cases (ltb (length kept) 40)) [
  | inl more ↦
      let room : length kept < 40 = ground arith in
      let longer : length (kept ++ f ∷ []) ≡ length kept + 1 =
        omega (arith, length-append kept (f ∷ [])) in
      let less : 40 - length (kept ++ f ∷ []) ≡ 40 - length kept - 1 = omega arith in
      rw more (
        walk_loop-keeping fs (kept ++ f ∷ []) (omega arith)
        ∙ append_assoc kept (f ∷ []) (take (40 - length (kept ++ f ∷ [])) fs)
        ∙ ap (λ (n : ℕ). kept ++ f ∷ take n fs) less
        ∙ ap (λ t. kept ++ t) (sym (take-cons (40 - length kept) f fs (omega arith))))
  | inr full ↦
      let none_left : 40 - length kept ≡ 0 = ground arith in
      rw full (sym (ap (λ (n : ℕ). kept ++ take n (f ∷ fs)) none_left ∙ append-nil kept))
]

walk_loop-skipping : (fs : List Frame) → walk_loop fs true [] ≡ take 40 (behind_panics fs)
unfolding walk_loop
walk_loop-skipping [] = refl
walk_loop-skipping (f ∷ fs) = elim (Bool-cases (contains panic_text f.function)) [
  | inl e ↦ rw e (walk_loop-skipping fs)
  | inr e ↦ rw e (walk_loop-keeping fs [] (omega arith))
]

-- Of the frames of a panic, walk lists the forty, or fewer, that come behind the first whose function
-- has no "panic" in its name, in their order; that first one itself it leaves out. The list has forty
-- frames at most.
pub walk_lem : (fs : List Frame) → (walk fs ≡ take 40 (behind_panics fs)) × (length (walk fs) ≤ 40)
unfolding walk
walk_lem fs = (
  walk_loop-skipping fs,
  omega (arith, ap length (walk_loop-skipping fs), length-take 40 (behind_panics fs)),
)
