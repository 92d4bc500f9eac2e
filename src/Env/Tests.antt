-- ===== src/Env/Tests.antt =====
-- Instances of the theorems on pkg/env: an environment of two variables, an argument, and
-- a directory with two files.
use goico.Shared.{
  ◌≡◌, refl, ◌⊎◌, inl, inr, Bool, true, false, Option, none, some, [], ◌∷◌, ◌++◌, arith,
  if◌then◌else◌, Bool-cases,
}
use goico.Shared.Key.{bytes_beq, bytes_beq_iff, bytes_keys, ◌==◌}
use goico.Env.Os.{Text, Environ, is_blank, settable, has_byte, cut_prefix, split_two, space1}
use goico.Env.Args.{or_else, last_given, Visits}
use goico.Env.Getters.{one_of, var_base_dir, int, atoi, residue, int_lem, Fits}
use goico.Env.Load.{
  Dotenv, load_env, files_of, dot_local, file_of, file_default, environment_of, development,
  var_enviroment, environments,
}
use goico.Env.Load.Files.{any_found, first_of, said, text_or, told_before, KeepBase}
use goico.Env.Load.Precedence.{load_env_lem}
use goico.Shared.GoMap.{GoMap, lookup}
use goico.Shared.Result.{ok}
use goico.Shared.Int.{ℤ, pos}

-- "-e:a=2"
abbrev short_arg : Text
short_arg = 45 ∷ 101 ∷ 58 ∷ 97 ∷ 61 ∷ 50 ∷ []

abbrev a : Text
a = 97 ∷ []

-- a=7, b=1,2
abbrev two_variables : Environ
two_variables = (a, 55 ∷ []) ∷ (98 ∷ [], 49 ∷ 44 ∷ 50 ∷ []) ∷ []

abbrev as_is : GoMap Text Text → GoMap Text Text
as_is m = m

as_is-Visits : Visits as_is
as_is-Visits m d = (d, λ k. refl)

short_settable : (k v : Text) → last_given k (short_arg ∷ []) ≡ some v → settable k v ≡ true
unfolding settable has_byte cut_prefix split_two
short_settable k v at = elim (Bool-cases (bytes_beq a k)) [
  | inl same ↦
      let key_eq : a ≡ k = (bytes_beq_iff a k).0 same in
      let value_eq : 50 ∷ [] ≡ v = ground (arith, at, same) in rw (← key_eq, ← value_eq) refl
  | inr other ↦ absurd (ground (arith, at, other))
]

int_lem_example :
    let r = int 7 a (pos 0 ∷ []) two_variables in
    ((r ≡ pos 0)
      × ((lookup a two_variables ≡ none)
          ⊎ ((s : Text) × (lookup a two_variables ≡ some s) × (atoi s ≡ none))))
    ⊎ ((s : Text) × (v : ℤ) × (lookup a two_variables ≡ some s)
        × (atoi s ≡ some v)
        × Fits 7 r
        × (residue 256 r ≡ residue 256 v))
int_lem_example = int_lem 7 a (pos 0) two_variables

-- A directory that holds .env with c=3, .env.local with a=9 and nothing else.
abbrev dir_contents : Text → Option (GoMap Text Text)
dir_contents path =
    if path == 46 ∷ 47 ∷ file_default
    then some ((99 ∷ [], 51 ∷ []) ∷ [])
    else if path == 46 ∷ 47 ∷ (file_default ++ dot_local)
    then some ((a, 57 ∷ []) ∷ [])
    else none

lookup-append :
    (m e : GoMap Text Text) (k : Text) → lookup k (m ++ e) ≡ or_else (lookup k m) (lookup k e)
unfolding lookup
lookup-append [] e k = refl
lookup-append ((j, v) ∷ m) e k = ground (arith, lookup-append m e k)

abbrev joined : Bool → Text → Environ → Option Environ
joined override path e = elim (dir_contents path) [
  | none ↦ none
  | some m ↦ some (if override then m ++ e else e ++ m)
]

abbrev small_dir : Dotenv
small_dir = record {
  contents = dir_contents;
  godotenv_load = joined false;
  godotenv_overload = joined true;
  load_missing = λ path e h. rw (joined, h) refl;
  load_found = λ path e m h. (e ++ m, rw (joined, h) refl, λ k. lookup-append e m k);
  overload_missing = λ path e h. rw (joined, h) refl;
  overload_found = λ path e m h. (m ++ e, rw (joined, h) refl, λ k. lookup-append m e k);
}

small_dir-KeepBase : KeepBase small_dir (λ d f. d ++ f)
small_dir-KeepBase path m h = elim (Bool-cases (path == 46 ∷ 47 ∷ file_default)) [
  | inl first ↦ ground (arith, h, first, no_base (99 ∷ []) (51 ∷ []) refl)
  | inr other ↦ ground (arith, h, other, no_base a (57 ∷ []) refl)
]
  where
    no_base :
        (k v : Text) → bytes_beq k var_base_dir ≡ false → lookup var_base_dir ((k, v) ∷ []) ≡ none
    no_base k v differ = unfold lookup in rw differ refl

development_named :
    environment_of (text_or [] (told_before (short_arg ∷ []) two_variables var_enviroment))
    ≡ ok development
unfolding environment_of is_blank cut_prefix split_two lookup
development_named = refl

load_env_lem_example :
    (e' : Environ) × (load_env small_dir (λ d f. d ++ f) as_is [] (short_arg ∷ []) two_variables
      ≡ ok (
        e',
        any_found small_dir
            (λ d f. d ++ f)
            (46 ∷ 47 ∷ [])
            (files_of small_dir (λ d f. d ++ f) development []),
        development,
      ))
    × ((k : Text)
        → lookup k e'
          ≡ first_of (
              said small_dir (λ d f. d ++ f) (46 ∷ 47 ∷ []) (file_default ++ dot_local) k
              ∷ said small_dir (λ d f. d ++ f) (46 ∷ 47 ∷ []) (file_of development ++ dot_local) k
              ∷ last_given k (short_arg ∷ [])
              ∷ lookup k two_variables
              ∷ said small_dir (λ d f. d ++ f) (46 ∷ 47 ∷ []) (file_of development) k
              ∷ said small_dir (λ d f. d ++ f) (46 ∷ 47 ∷ []) (file_of []) k
              ∷ said small_dir (λ d f. d ++ f) (46 ∷ 47 ∷ []) file_default k
              ∷ []))
unfolding cut_prefix split_two lookup
load_env_lem_example =
    load_env_lem small_dir (λ d f. d ++ f) as_is [] (short_arg ∷ []) two_variables development
      as_is-Visits small_dir-KeepBase short_settable development_named

-- APP_ENV=a
abbrev unknown_environment : Environ
unknown_environment = (var_enviroment, a) ∷ []

unknown_not_blank :
    is_blank (text_or [] (told_before (short_arg ∷ []) unknown_environment var_enviroment)) ≡ false
unfolding is_blank cut_prefix split_two lookup space1
unknown_not_blank = refl

unknown_not_listed :
    one_of
      (text_or [] (told_before (short_arg ∷ []) unknown_environment var_enviroment))
      environments
    ≡ false
unfolding cut_prefix split_two lookup
unknown_not_listed = refl
