-- ===== src/Env/Os.antt =====
-- The process environment, which pkg/env reads and sets through the os package, and the functions of
-- the strings package that it uses. A text is its bytes.
use goico.Shared.{
  ℕ, Bool, true, false, not, ◌&&◌, ◌||◌, Option, none, some, List, [], ◌∷◌, leb, eqb, if◌then◌else◌,
}
use goico.Shared.GoMap.{GoMap, put}
use goico.Shared.Key.{bytes_keys}
use goico.Shared.Result.{Result, ok, err}

abbrev pub Text : Type 0
Text = List ℕ

abbrev pub Environ : Type 0
Environ = GoMap Text Text

-- Whether a byte stands in a text.
unfoldable pub has_byte : ℕ → Text → Bool
has_byte b [] = false
has_byte b (x ∷ s) = eqb b x || has_byte b s

-- `os.Setenv` refuses an empty key, a key with '=' or a NUL byte, and a value with a NUL byte.
unfoldable pub settable : Text → Text → Bool
settable [] v = false
settable (x ∷ k) v = not (has_byte 61 (x ∷ k)) && not (has_byte 0 (x ∷ k)) && not (has_byte 0 v)

-- "invalid argument"
pub data InvalidArgument : Type 0 where
  invalid_argument : InvalidArgument

unfoldable pub setenv : Text → Text → Environ → Result InvalidArgument Environ
setenv k v e = if settable k v then ok (put k v e) else err invalid_argument

-- `strings.CutPrefix`
unfoldable pub cut_prefix : Text → Text → Option Text
cut_prefix [] s = some s
cut_prefix (p ∷ ps) [] = none
cut_prefix (p ∷ ps) (x ∷ s) = let rest = cut_prefix ps s in if eqb p x then rest else none

-- `strings.SplitN(s, sep, 2)` for a separator of one byte: the parts, or `none` if it has one part.
unfoldable pub split_two : ℕ → Text → Option (Text × Text)
split_two sep [] = none
split_two sep (x ∷ s) =
    let rest = split_two sep s in
    if eqb x sep then some ([], s) else elim rest [ none ↦ none | some (a, b) ↦ some (x ∷ a, b) ]

-- `strings.Split` for a separator of one byte: the first part and the others.
unfoldable pub split_parts : ℕ → Text → Text × List Text
split_parts sep [] = ([], [])
split_parts sep (x ∷ s) =
    let (first, more) = split_parts sep s in
    if eqb x sep then ([], first ∷ more) else (x ∷ first, more)

unfoldable pub split : ℕ → Text → List Text
unfolding split_parts
split sep s = let (first, more) = split_parts sep s in first ∷ more

-- The white space of `strings.TrimSpace`, as UTF-8: one, two or three bytes.
unfoldable pub space1 : ℕ → Bool
space1 a = (leb 9 a && leb a 13) || eqb a 32

unfoldable pub space2 : ℕ → ℕ → Bool
space2 a b = eqb a 194 && (eqb b 133 || eqb b 160)

unfoldable pub space3 : ℕ → ℕ → ℕ → Bool
space3 a b c =
    (eqb a 225 && eqb b 154 && eqb c 128)
    || (eqb a 226 && eqb b 128 && ((leb 128 c && leb c 138) || eqb c 168 || eqb c 169 || eqb c 175))
    || (eqb a 226 && eqb b 129 && eqb c 159)
    || (eqb a 227 && eqb b 128 && eqb c 128)

-- `strings.TrimSpace(s) == ""`
unfoldable pub is_blank : Text → Bool
unfolding space1 space2 space3
is_blank [] = true
is_blank (a ∷ []) = space1 a
is_blank (a ∷ b ∷ []) = (space1 a && space1 b) || space2 a b
is_blank (a ∷ b ∷ c ∷ s) =
    let after1 = is_blank (b ∷ c ∷ s) in
    let after2 = is_blank (c ∷ s) in
    let after3 = is_blank s in
    (space1 a && after1) || (space2 a b && after2) || (space3 a b c && after3)
