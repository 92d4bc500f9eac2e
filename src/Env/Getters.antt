-- ===== src/Env/Getters.antt =====
-- pkg/env/getters.go: typed reads of the environment, with defaults. `time.ParseDuration` is a
-- parameter of `duration`.
use goico.Shared.{
  Option-cases, ◌⊎◌, ◌*◌, ◌^◌, ℕ, ◌+◌, ◌-◌, ◌%◌, ◌<◌, ◌≡◌, refl, ap, ◌∙◌, inl, inr, Bool, true,
  false, ◌&&◌, ◌||◌, Option, none, some, List, [], ◌∷◌, map, arith, ltb, leb, eqb, if◌then◌else◌,
  Bool-cases,
}
use goico.Shared.Key.{bytes_keys, ◌==◌}
use goico.Env.Os.{has_byte, Text, Environ, split, split_parts}
use goico.Shared.GoMap.{lookup}
use native.Mathlib.Nat.{two-pow-succ, one-le-pow, mod-lt, mod-eq_of_lt}
use goico.Collection.Funcs.{join_of, intersperse, join_of-intersperse}
use goico.Shared.Int.{ℤ, pos, negsuc}

-- `defaultValue`
unfoldable pub default_value : {A : Type 0} → List A → A → A
default_value [] default1 = default1
default_value (v ∷ values) default1 = v

-- `String`
unfoldable pub string : Text → List Text → Environ → Text
unfolding default_value
string key defs e = elim (lookup key e) [ none ↦ default_value defs [] | some s ↦ s ]

-- "workdir", "basedir" and "./"
abbrev pub var_work_dir : Text
var_work_dir = 119 ∷ 111 ∷ 114 ∷ 107 ∷ 100 ∷ 105 ∷ 114 ∷ []

abbrev pub var_base_dir : Text
var_base_dir = 98 ∷ 97 ∷ 115 ∷ 101 ∷ 100 ∷ 105 ∷ 114 ∷ []

abbrev pub here : Text
here = 46 ∷ 47 ∷ []

-- `Workdir`
unfoldable pub workdir : Environ → Text
unfolding string
workdir e = string var_work_dir (here ∷ []) e

-- `Basedir`
unfoldable pub basedir : Environ → Text
unfolding string
basedir e = string var_base_dir (here ∷ []) e

-- `StringOrNil`
unfoldable pub string_or_nil : Text → Environ → Option Text
string_or_nil key e = lookup key e

-- `Duration`
unfoldable pub duration : {D : Type 0} → (Text → Option D) → Text → List D → Environ → Option D
unfolding string_or_nil
duration {D} parse key values e =
    let def : Option D = elim values [ [] ↦ none | v ∷ more ↦ some v ] in
    elim (string_or_nil key e) [
      | none ↦ def
      | some s ↦ elim (parse s) [ none ↦ def | some r ↦ some r ]
    ]

-- The digits of `strconv.Atoi`: at least one, and nothing else.
unfoldable pub digits_from : ℕ → Text → Option ℕ
digits_from n [] = some n
digits_from n (d ∷ s) =
    let rest = digits_from (10 * n + (d - 48)) s in if leb 48 d && leb d 57 then rest else none

unfoldable pub digits : Text → Option ℕ
unfolding digits_from
digits [] = none
digits (d ∷ s) = digits_from 0 (d ∷ s)

-- What fits the 64 bits of an int
unfoldable pub in_range : Bool → ℕ → Option ℤ
in_range false n = if ltb n (2 ^ 63) then some (pos n) else none
in_range true n = if leb n (2 ^ 63) then some (if eqb n 0 then pos 0 else negsuc (n - 1)) else none

-- `strconv.Atoi`
unfoldable pub atoi : Text → Option ℤ
unfolding digits in_range
atoi [] = none
atoi (c ∷ s) =
    if eqb c 45
    then (elim (digits s) [ none ↦ none | some n ↦ in_range true n ])
    else (elim (digits (if eqb c 43 then s else c ∷ s)) [ none ↦ none | some n ↦ in_range false n ])

-- The conversion of an int to a signed type of w + 1 bits keeps the low bits.
unfoldable pub truncate : ℕ → ℤ → ℤ
truncate w (pos n) =
    let low = n % 2 ^ (w + 1) in if ltb low (2 ^ w) then pos low else negsuc (2 ^ (w + 1) - 1 - low)
truncate w (negsuc n) =
    let low = n % 2 ^ (w + 1) in if ltb low (2 ^ w) then negsuc low else pos (2 ^ (w + 1) - 1 - low)

-- `Int` for a type of w + 1 bits
unfoldable pub int : ℕ → Text → List ℤ → Environ → ℤ
unfolding default_value atoi truncate
int w key value e = elim (lookup key e) [
  | none ↦ default_value value (pos 0)
  | some s ↦ elim (atoi s) [ none ↦ default_value value (pos 0) | some v ↦ truncate w v ]
]

-- `strconv.ParseBool`: 1 t T true True TRUE, and 0 f F false False FALSE
abbrev true_words : List Text
true_words =
    (49 ∷ [])
    ∷ (116 ∷ [])
    ∷ (84 ∷ [])
    ∷ (116 ∷ 114 ∷ 117 ∷ 101 ∷ [])
    ∷ (84 ∷ 114 ∷ 117 ∷ 101 ∷ [])
    ∷ (84 ∷ 82 ∷ 85 ∷ 69 ∷ [])
    ∷ []

abbrev false_words : List Text
false_words =
    (48 ∷ [])
    ∷ (102 ∷ [])
    ∷ (70 ∷ [])
    ∷ (102 ∷ 97 ∷ 108 ∷ 115 ∷ 101 ∷ [])
    ∷ (70 ∷ 97 ∷ 108 ∷ 115 ∷ 101 ∷ [])
    ∷ (70 ∷ 65 ∷ 76 ∷ 83 ∷ 69 ∷ [])
    ∷ []

abbrev pub one_of : Text → List Text → Bool
one_of s [] = false
one_of s (w ∷ ws) = (s == w) || one_of s ws

unfoldable pub parse_bool : Text → Option Bool
parse_bool s =
    if one_of s true_words then some true else if one_of s false_words then some false else none

-- `Bool`
unfoldable pub bool : Text → List Bool → Environ → Bool
unfolding default_value parse_bool
bool key value e = elim (lookup key e) [
  | none ↦ default_value value false
  | some s ↦ elim (parse_bool s) [ none ↦ default_value value false | some v ↦ v ]
]

-- `Array`
unfoldable pub array : Text → Text → Environ → List Text
unfolding split string
array key def e = split 44 (string key (def ∷ []) e)

-- Texts of which none holds a comma.
abbrev pub AllFree : List Text → Type 0
AllFree [] = Unit {0}
AllFree (s ∷ ss) = (has_byte 44 s ≡ false) × AllFree ss

-- The integers that a signed type of w + 1 bits holds.
abbrev pub Fits : ℕ → ℤ → Type 0
Fits w (pos n) = n < 2 ^ w
Fits w (negsuc n) = n < 2 ^ w

-- A remainder that is read as a signed number.
remainder :
    (w n : ℕ) → (2 ^ (w + 1) ≡ 2 ^ w + 2 ^ w) × (0 < 2 ^ w) × (n % 2 ^ (w + 1) < 2 ^ (w + 1))
remainder w n =
    let double : 2 ^ (w + 1) ≡ 2 ^ w + 2 ^ w = ground (arith, two-pow-succ w) in
    let positive : 0 < 2 ^ w = one-le-pow w 2 (omega arith) in
    (double, positive, mod-lt n (omega (arith, double, positive)))

truncate-Fits : (w : ℕ) (v : ℤ) → Fits w (truncate w v)
unfolding truncate
truncate-Fits w (pos n) = ground (arith, remainder w n)
truncate-Fits w (negsuc n) = ground (arith, remainder w n)

truncate_same : (w : ℕ) (v : ℤ) → Fits w v → truncate w v ≡ v
unfolding truncate
truncate_same w (pos n) h =
    let small : n % 2 ^ (w + 1) ≡ n = mod-eq_of_lt (omega (arith, remainder w n, h)) in
    ground (arith, small)
truncate_same w (negsuc n) h =
    let small : n % 2 ^ (w + 1) ≡ n = mod-eq_of_lt (omega (arith, remainder w n, h)) in
    ground (arith, small)

-- The remainder of an integer: two integers have the same exactly if m divides their difference.
abbrev pub residue : ℕ → ℤ → ℕ
residue m (pos n) = n % m
residue m (negsuc n) = m - 1 - n % m

truncate-residue : (w : ℕ) (v : ℤ) → residue (2 ^ (w + 1)) (truncate w v) ≡ residue (2 ^ (w + 1)) v
unfolding truncate
truncate-residue w (pos n) = elim (Bool-cases (ltb (n % 2 ^ (w + 1)) (2 ^ w))) [
  | inl low ↦ rw low (mod-eq_of_lt (omega (arith, remainder w n)))
  | inr high ↦
      let less : 2 ^ (w + 1) - 1 - n % 2 ^ (w + 1) < 2 ^ (w + 1) = omega (arith, remainder w n) in
      rw (high, mod-eq_of_lt less) (omega (arith, remainder w n))
]
truncate-residue w (negsuc n) = elim (Bool-cases (ltb (n % 2 ^ (w + 1)) (2 ^ w))) [
  | inl low ↦
      let less : n % 2 ^ (w + 1) < 2 ^ (w + 1) = omega (arith, remainder w n) in
      rw low (ap (λ k. 2 ^ (w + 1) - 1 - k) (mod-eq_of_lt less))
  | inr high ↦
      let less : 2 ^ (w + 1) - 1 - n % 2 ^ (w + 1) < 2 ^ (w + 1) = omega (arith, remainder w n) in
      rw high (mod-eq_of_lt less)
]

-- Int for a signed type of w + 1 bits: the default if the variable is not set or Atoi refuses its
-- value; otherwise the integer of the type that differs from the number that Atoi reads by a
-- multiple of 2 ^ (w + 1), as Go's conversions do.
pub int_lem :
    (w : ℕ) (key : Text) (default : ℤ) (e : Environ)
    → let r = int w key (default ∷ []) e in
      ((r ≡ default)
        × ((lookup key e ≡ none) ⊎ ((s : Text) × (lookup key e ≡ some s) × (atoi s ≡ none))))
      ⊎ ((s : Text) × (v : ℤ) × (lookup key e ≡ some s)
          × (atoi s ≡ some v)
          × Fits w r
          × (residue (2 ^ (w + 1)) r ≡ residue (2 ^ (w + 1)) v))
unfolding int
int_lem w key default e = elim (Option-cases (lookup key e)) [
  | inl unset ↦ inl (rw (int, unset) refl, inl unset)
  | inr (s, set) ↦ elim (Option-cases (atoi s)) [
    | inl refused ↦ inl (rw (int, set, refused) refl, inr (s, set, refused))
    | inr (v, read) ↦
        let r : int w key (default ∷ []) e ≡ truncate w v = rw (int, set, read) refl in
        inr (s, v, set, read, rw r (truncate-Fits w v), rw r (truncate-residue w v))
  ]
]

-- Int for a signed type of w + 1 bits gives the number that Atoi reads from the variable, if that is
-- of the type: the conversion loses nothing.
int_same :
    (w : ℕ) (key s : Text) (default v : ℤ) (e : Environ)
    → lookup key e ≡ some s
    → atoi s ≡ some v
    → Fits w v
    → int w key (default ∷ []) e ≡ v
unfolding int
int_same w key s default v e at eq f = rw (int, at, eq) (truncate_same w v f)

intersperse-first :
    (x : ℕ) (first : Text) (more : List Text)
    → intersperse (44 ∷ []) ((x ∷ first) ∷ more) ≡ x ∷ intersperse (44 ∷ []) (first ∷ more)
intersperse-first x first [] = refl
intersperse-first x first (y ∷ more) = refl

split-join : (s : Text) → (intersperse (44 ∷ []) (split 44 s) ≡ s) × AllFree (split 44 s)
unfolding split split_parts has_byte
split-join [] = (refl, (refl, tt))
split-join (x ∷ s) =
    let (same, free) = split-join s in
    let (first, more) = split_parts 44 s in
    elim (Bool-cases (eqb x 44)) [
      | inl comma ↦ rw comma (ground arith, (refl, free))
      | inr other ↦ rw other (
        intersperse-first x (split_parts 44 s).0 (split_parts 44 s).1 ∙ ap (λ t. x ∷ t) same,
        (ground arith, free.1),
      )
    ]

map-id : (ss : List Text) → map (λ s. s) ss ≡ ss
map-id [] = refl
map-id (s ∷ ss) = ap (λ t. s ∷ t) (map-id ss)

-- Array splits at the commas: the parts, joined with commas, are the variable's value, or the default
-- if it is not set, and no part holds a comma.
pub array-join_of :
    (key def : Text) (e : Environ)
    → (join_of (array key def e) (44 ∷ []) (λ s. s) ≡ string key (def ∷ []) e)
      × AllFree (array key def e)
unfolding array string
array-join_of key def e =
    let s = string key (def ∷ []) e in
    (
      join_of-intersperse (split 44 s) (44 ∷ []) (λ s. s)
          ∙ ap (intersperse (44 ∷ [])) (map-id (split 44 s))
          ∙ (split-join s).0,
      (split-join s).1,
    )
