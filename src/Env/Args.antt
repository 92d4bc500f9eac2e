-- ===== src/Env/Args.antt =====
-- pkg/env/args.go: variables given on the command line as --env:key=value or -e:key=value.
use goico.Shared.{
  ◌≡◌, refl, sym, ap, ◌∙◌, inl, inr, true, false, Option, none, some, List, [], ◌∷◌, arith,
  if◌then◌else◌, Bool-cases, Option-cases,
}
use goico.Env.Os.{
  invalid_argument, Text, Environ, cut_prefix, split_two, setenv, settable, InvalidArgument,
  invalid_argument,
}
use goico.Shared.GoMap.{put-Distinct, Distinct, GoMap, lookup, put, lookup-put}
use goico.Shared.Key.{bytes_beq_iff, bytes_beq, bytes_keys, ◌==◌, ==-refl}
use goico.Shared.Result.{Result, ok, err, ◌>>=◌}

abbrev long_flag : Text
long_flag = 45 ∷ 45 ∷ 101 ∷ 110 ∷ 118 ∷ 58 ∷ []

abbrev short_flag : Text
short_flag = 45 ∷ 101 ∷ 58 ∷ []

-- `if len(vs) == 2 { m[vs[0]] = vs[1] }`
unfoldable pub keep_parts : Option (Text × Text) → GoMap Text Text → GoMap Text Text
keep_parts none m = m
keep_parts (some (k, v)) m = put k v m

-- The body of the loop of `parse`
unfoldable pub parse_arg : Text → GoMap Text Text → GoMap Text Text
unfolding keep_parts
parse_arg arg m = elim (cut_prefix long_flag arg) [
  | some v ↦ keep_parts (split_two 61 v) m
  | none ↦ elim (cut_prefix short_flag arg) [ some v ↦ keep_parts (split_two 61 v) m | none ↦ m ]
]

abbrev pub parse_from : List Text → GoMap Text Text → GoMap Text Text
parse_from [] m = m
parse_from (arg ∷ args) m = parse_from args (parse_arg arg m)

-- `parse`
unfoldable pub parse : List Text → GoMap Text Text
parse args = parse_from args []

-- The loop of `setEnvs`, over the entries of the map in some order
unfoldable pub set_all : GoMap Text Text → Environ → Result InvalidArgument Environ
unfolding setenv
set_all [] e = ok e
set_all ((k, v) ∷ m) e = do e' ← setenv k v e; set_all m e'

-- `setEnvs`; `order` is the map as the loop visits it
unfoldable pub set_envs :
    (GoMap Text Text → GoMap Text Text) → List Text → Environ → Result InvalidArgument Environ
unfolding set_all parse
set_envs order [] e = ok e
set_envs order (arg ∷ args) e = set_all (order (parse (arg ∷ args))) e

-- The variable that one argument gives, if it is of one of the two forms.
abbrev pub given : Text → Option (Text × Text)
given arg = elim (cut_prefix long_flag arg) [
  | some v ↦ split_two 61 v
  | none ↦ elim (cut_prefix short_flag arg) [ some v ↦ split_two 61 v | none ↦ none ]
]

abbrev value_for : Text → Option (Text × Text) → Option Text
value_for k none = none
value_for k (some (j, v)) = if j == k then some v else none

-- The value that the last argument for the key gives it.
abbrev pub last_given : Text → List Text → Option Text
last_given k [] = none
last_given k (arg ∷ args) = elim (last_given k args) [
  | some v ↦ some v
  | none ↦ value_for k (given arg)
]

abbrev pub or_else : Option Text → Option Text → Option Text
or_else none other = other
or_else (some v) other = some v

lookup-keep_parts :
    (k : Text) (parts : Option (Text × Text)) (m : GoMap Text Text)
    → lookup k (keep_parts parts m) ≡ or_else (value_for k parts) (lookup k m)
unfolding keep_parts
lookup-keep_parts k none m = refl
lookup-keep_parts k (some (j, v)) m = ground (arith, lookup-put j k v m)

keep_parts-Distinct :
    (parts : Option (Text × Text)) (m : GoMap Text Text)
    → Distinct m
    → Distinct (keep_parts parts m)
unfolding keep_parts
keep_parts-Distinct none m d = d
keep_parts-Distinct (some (k, v)) m d = put-Distinct k v m d

parse_arg-given : (arg : Text) (m : GoMap Text Text) → parse_arg arg m ≡ keep_parts (given arg) m
unfolding parse_arg cut_prefix
parse_arg-given arg m = elim (Option-cases (cut_prefix long_flag arg)) [
  | inr (v, e) ↦ rw e refl
  | inl e ↦ elim (Option-cases (cut_prefix short_flag arg)) [
    | inr (v, f) ↦ rw (e, f) refl
    | inl f ↦ rw (e, f) refl
  ]
]

lookup-parse_from :
    (k : Text) (args : List Text) (m : GoMap Text Text)
    → lookup k (parse_from args m) ≡ or_else (last_given k args) (lookup k m)
lookup-parse_from k [] m = refl
lookup-parse_from k (arg ∷ args) m = ground (
  arith,
  lookup-parse_from k args (parse_arg arg m),
  parse_arg-given arg m,
  lookup-keep_parts k (given arg) m,
)

-- The last argument of either form that names a variable gives it its value; no other variable gets
-- one, and none stands twice in the map.
pub lookup-parse :
    (k : Text) (args : List Text)
    → (lookup k (parse args) ≡ last_given k args) × Distinct (parse args)
unfolding parse lookup
lookup-parse k args =
    (lookup-parse_from k args [] ∙ nothing_else (last_given k args), all args [] tt)
  where
    nothing_else : (o : Option Text) → or_else o none ≡ o
    nothing_else none = refl
    nothing_else (some v) = refl

    all : (args : List Text) (m : GoMap Text Text) → Distinct m → Distinct (parse_from args m)
    all [] m d = d
    all (arg ∷ args) m d =
        all args (parse_arg arg m)
          (rw (parse_arg-given arg m) (keep_parts-Distinct (given arg) m d))

-- An order in which a map may be visited.
abbrev pub Visits : (GoMap Text Text → GoMap Text Text) → Type 0
Visits order =
    (m : GoMap Text Text)
    → Distinct m
    → Distinct (order m) × ((k : Text) → lookup k (order m) ≡ lookup k m)

set_all_ok :
    (m : GoMap Text Text) (e : Environ)
    → Distinct m
    → ((k v : Text) → lookup k m ≡ some v → settable k v ≡ true)
    → (e' : Environ) × (set_all m e ≡ ok e')
      × ((j : Text) → lookup j e' ≡ or_else (lookup j m) (lookup j e))
unfolding set_all setenv lookup
set_all_ok [] e d h = (e, refl, λ j. refl)
set_all_ok ((k, v) ∷ m) e (new, d) h =
    let here : settable k v ≡ true = h k v (rw (==-refl k) refl) in
    let (e', eq, sees) =
      set_all_ok m (put k v e) d (λ j w at. h j w (ground (arith, bytes_beq_iff k j))) in
    (e', rw here eq, λ j. sees j ∙ ground (arith, lookup-put k j v e, bytes_beq_iff k j))

set_all_err :
    (m : GoMap Text Text) (e : Environ) (k v : Text)
    → lookup k m ≡ some v
    → settable k v ≡ false
    → set_all m e ≡ err invalid_argument
unfolding set_all setenv lookup
set_all_err [] e k v at h = absurd (cc)
set_all_err ((j, w) ∷ m) e k v at h = elim (Bool-cases (bytes_beq j k)) [
  | inl same ↦ ground (arith, bytes_beq_iff j k)
  | inr differ ↦ elim (Bool-cases (settable j w)) [
    | inl fine ↦ rw fine (set_all_err m (put j w e) k v (ground arith) h)
    | inr bad ↦ rw bad refl
  ]
]

-- With arguments that name only what can be set, setEnvs succeeds, in whatever order it visits the
-- map: each variable that is named has the value of the last argument that names it, and every other
-- its old one.
pub lookup-set_envs :
    (order : GoMap Text Text → GoMap Text Text) (args : List Text) (e : Environ)
    → Visits order
    → ((k v : Text) → last_given k args ≡ some v → settable k v ≡ true)
    → (e' : Environ) × (set_envs order args e ≡ ok e')
      × ((k : Text) → lookup k e' ≡ or_else (last_given k args) (lookup k e))
unfolding set_envs
lookup-set_envs order [] e o h = (e, refl, λ k. refl)
lookup-set_envs order (arg ∷ args) e o h =
    let all = arg ∷ args in
    let same : (k : Text) → lookup k (order (parse all)) ≡ last_given k all =
      λ k. (o (parse all) (lookup-parse k all).1).1 k ∙ (lookup-parse k all).0 in
    let (e', eq, sees) =
      set_all_ok (order (parse all)) e (o (parse all) (lookup-parse [] all).1).0
        (λ k v at. h k v (sym (same k) ∙ at)) in
    (e', eq, λ k. sees k ∙ ap (λ x. or_else x (lookup k e)) (same k))

-- If some variable that the arguments name cannot be set, setEnvs fails in whatever order it visits
-- the map.
pub set_envs_refuses :
    (order : GoMap Text Text → GoMap Text Text) (args : List Text) (e : Environ) (k v : Text)
    → Visits order
    → last_given k args ≡ some v
    → settable k v ≡ false
    → set_envs order args e ≡ err invalid_argument
unfolding set_envs
set_envs_refuses order [] e k v o at h = absurd (cc)
set_envs_refuses order (arg ∷ args) e k v o at h =
    let all = arg ∷ args in
    set_all_err (order (parse all)) e k v
      ((o (parse all) (lookup-parse k all).1).1 k ∙ (lookup-parse k all).0 ∙ at) h
