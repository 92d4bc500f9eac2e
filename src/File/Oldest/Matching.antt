-- ===== src/File/Oldest/Matching.antt =====
-- Which entries of a walk the prefix and the suffix of pkg/ioutil/ioutil.go take.
use goico.File.Oldest.{Entry, has_prefix, has_suffix, is_match, matching, insert, sort_by_time}
use goico.Shared.{
  ℕ, ◌≡◌, refl, sym, ap, ◌∙◌, inl, inr, true, List, [], ◌∷◌, ◌++◌, arith, ltb, eqb_iff,
  if◌then◌else◌, Bool-cases,
}
use mathlib.Core.List.{reverse-reverse, Permᴰ, reverse, reverse-append}
use mathlib.Core.List.Permᴰ

-- The name begins with the one text and ends with the other.
abbrev pub Matches : List ℕ → List ℕ → Entry → Type 0
Matches preffix suffix e =
    ((rest : List ℕ) × (e.name ≡ preffix ++ rest)) × ((front : List ℕ) × (e.name ≡ front ++ suffix))

abbrev pub AllMatch : List ℕ → List ℕ → List Entry → Type 0
AllMatch preffix suffix [] = Unit {0}
AllMatch preffix suffix (e ∷ es) = Matches preffix suffix e × AllMatch preffix suffix es

abbrev pub NoneMatches : List ℕ → List ℕ → List Entry → Type 0
NoneMatches preffix suffix [] = Unit {0}
NoneMatches preffix suffix (e ∷ es) = (¬ Matches preffix suffix e) × NoneMatches preffix suffix es

has_prefix-append : (p s : List ℕ) → has_prefix p (p ++ s) ≡ true
unfolding has_prefix
has_prefix-append [] s = refl
has_prefix-append (x ∷ p) s = ground (arith, has_prefix-append p s)

has_prefix-rest : (p s : List ℕ) → has_prefix p s ≡ true → (rest : List ℕ) × (s ≡ p ++ rest)
unfolding has_prefix
has_prefix-rest [] s h = (s, refl)
has_prefix-rest (x ∷ p) [] h = absurd (ground arith)
has_prefix-rest (x ∷ p) (y ∷ s) h =
    let (rest, e) = has_prefix-rest p s (ground arith) in
    let same : x ≡ y = ground (arith, eqb_iff x y) in (rest, rw (e, same) refl)

has_suffix-append : (front s : List ℕ) → has_suffix s (front ++ s) ≡ true
unfolding has_suffix
has_suffix-append front s =
    rw (reverse-append front s) (has_prefix-append (reverse s) (reverse front))

has_suffix-front : (p s : List ℕ) → has_suffix p s ≡ true → (front : List ℕ) × (s ≡ front ++ p)
unfolding has_suffix
has_suffix-front p s h =
    let (rest, e) = has_prefix-rest (reverse p) (reverse s) h in
    (
      reverse rest,
      sym (reverse-reverse s)
          ∙ ap reverse e
          ∙ reverse-append (reverse p) rest
          ∙ ap (λ q. reverse rest ++ q) (reverse-reverse p),
    )

is_match-Matches :
    (preffix suffix : List ℕ) (e : Entry)
    → is_match preffix suffix e ≡ true
    → Matches preffix suffix e
is_match-Matches preffix suffix e h =
    (has_prefix-rest preffix e.name (ground arith), has_suffix-front suffix e.name (ground arith))

Matches-is_match :
    (preffix suffix : List ℕ) (e : Entry)
    → Matches preffix suffix e
    → is_match preffix suffix e ≡ true
Matches-is_match preffix suffix e ((rest, p), (front, q)) =
    let pre : has_prefix preffix e.name ≡ true = rw p (has_prefix-append preffix rest) in
    let post : has_suffix suffix e.name ≡ true = rw q (has_suffix-append front suffix) in
    rw (pre, post) refl

-- The entries that the walk leaves out
abbrev pub unmatched : List ℕ → List ℕ → List Entry → List Entry
unmatched preffix suffix [] = []
unmatched preffix suffix (e ∷ es) =
    let rest = unmatched preffix suffix es in if is_match preffix suffix e then rest else e ∷ rest

pub matching_lem :
    (preffix suffix : List ℕ) (es : List Entry)
    → Permᴰ (matching preffix suffix es ++ unmatched preffix suffix es) es
      × AllMatch preffix suffix (matching preffix suffix es)
      × NoneMatches preffix suffix (unmatched preffix suffix es)
unfolding matching
matching_lem preffix suffix [] = (Permᴰ.nil, tt, tt)
matching_lem preffix suffix (e ∷ es) =
    let (share, all_match, none_match) = matching_lem preffix suffix es in
    elim (Bool-cases (is_match preffix suffix e)) [
      | inl hit ↦
          rw hit
            (Permᴰ.cons refl share, (is_match-Matches preffix suffix e hit, all_match), none_match)
      | inr miss ↦ rw miss (
        Permᴰ.trans (Permᴰ.middle e (matching preffix suffix es) (unmatched preffix suffix es))
            (Permᴰ.cons refl share),
        all_match,
        (λ m. let hit = Matches-is_match preffix suffix e m in ground arith, none_match),
      )
    ]

insert-AllMatch :
    (preffix suffix : List ℕ) (e : Entry) (fs : List Entry)
    → Matches preffix suffix e
    → AllMatch preffix suffix fs
    → AllMatch preffix suffix (insert e fs)
unfolding insert
insert-AllMatch preffix suffix e [] m ms = (m, tt)
insert-AllMatch preffix suffix e (f ∷ fs) m ms = elim (Bool-cases (ltb f.mod_time e.mod_time)) [
  | inl later ↦ rw later (ms.0, insert-AllMatch preffix suffix e fs m ms.1)
  | inr here ↦ rw here (m, ms)
]

pub sort_by_time-AllMatch :
    (preffix suffix : List ℕ) (es : List Entry)
    → AllMatch preffix suffix es
    → AllMatch preffix suffix (sort_by_time es)
unfolding sort_by_time
sort_by_time-AllMatch preffix suffix [] ms = tt
sort_by_time-AllMatch preffix suffix (e ∷ es) ms =
    insert-AllMatch preffix suffix e (sort_by_time es) ms.0
      (sort_by_time-AllMatch preffix suffix es ms.1)
