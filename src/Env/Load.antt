-- ===== src/Env/Load.antt =====
-- pkg/env/env.go: which files set the environment, and in which order. The files are read by
-- github.com/joho/godotenv, which is an interface here.
pub mod Files
pub mod Precedence
use goico.Shared.{
  ◌≡◌, refl, ap, ◌∙◌, inl, inr, Bool, true, false, ◌||◌, Option, none, some, List, [], ◌∷◌, ◌++◌,
  if◌then◌else◌, Bool-cases,
}
use goico.Shared.Key.{bytes_keys, ◌==◌}
use goico.Env.Os.{invalid_argument, Text, Environ, is_blank, InvalidArgument, settable}
use goico.Env.Args.{set_envs, or_else, last_given, Visits, lookup-set_envs, set_envs_refuses}
use goico.Env.Getters.{
  default_value, here, here, default_value, basedir, string, one_of, var_base_dir,
}
use goico.Shared.GoMap.{GoMap, lookup}
use goico.Shared.Result.{Result, ok, err}

-- godotenv: what a path holds, `none` if it cannot be read, and the environment after Load, which keeps
-- a variable that is set, and after Overload, which does not; `none` is an error.
pub record Dotenv : Type 0 where
  pub contents : Text → Option (GoMap Text Text)
  pub godotenv_load : Text → Environ → Option Environ
  pub godotenv_overload : Text → Environ → Option Environ
  pub load_missing :
      (path : Text) (e : Environ) → contents path ≡ none → godotenv_load path e ≡ none
  pub load_found :
      (path : Text) (e : Environ) (m : GoMap Text Text)
      → contents path ≡ some m
      → (e' : Environ) × (godotenv_load path e ≡ some e')
        × ((k : Text) → lookup k e' ≡ or_else (lookup k e) (lookup k m))
  pub overload_missing :
      (path : Text) (e : Environ) → contents path ≡ none → godotenv_overload path e ≡ none
  pub overload_found :
      (path : Text) (e : Environ) (m : GoMap Text Text)
      → contents path ≡ some m
      → (e' : Environ) × (godotenv_overload path e ≡ some e')
        × ((k : Text) → lookup k e' ≡ or_else (lookup k m) (lookup k e))

-- Why `Load` fails.
pub data LoadError : Type 0 where
  args_error : InvalidArgument → LoadError
  invalid_environment : Text → LoadError

abbrev pub var_enviroment : Text
var_enviroment = 65 ∷ 80 ∷ 80 ∷ 95 ∷ 69 ∷ 78 ∷ 86 ∷ []

abbrev pub development : Text
development = 100 ∷ 101 ∷ 118 ∷ 101 ∷ 108 ∷ 111 ∷ 112 ∷ 109 ∷ 101 ∷ 110 ∷ 116 ∷ []

abbrev pub production : Text
production = 112 ∷ 114 ∷ 111 ∷ 100 ∷ 117 ∷ 99 ∷ 116 ∷ 105 ∷ 111 ∷ 110 ∷ []

abbrev pub test : Text
test = 116 ∷ 101 ∷ 115 ∷ 116 ∷ []

abbrev pub environments : List Text
environments = development ∷ production ∷ test ∷ []

abbrev pub file_default : Text
file_default = 46 ∷ 101 ∷ 110 ∷ 118 ∷ []

-- ".local"
abbrev pub dot_local : Text
dot_local = 46 ∷ 108 ∷ 111 ∷ 99 ∷ 97 ∷ 108 ∷ []

-- ".env." and the name
abbrev pub file_of : Text → Text
file_of name = file_default ++ 46 ∷ name

-- `environment`, from what `os.Getenv` says
unfoldable pub environment_of : Text → Result LoadError Text
environment_of s =
    if is_blank s
    then ok development
    else if one_of s environments
    then ok s
    else err (invalid_environment s)

module _ (godotenv : Dotenv) (join : Text → Text → Text) where
  -- `load`, for one file as everywhere in `Load`: the environment after it, and whether it succeeded
  unfoldable pub load : Bool → Text → Environ → Environ × Bool
  unfolding basedir
  load override f e =
      let path = join (basedir e) f in
      elim (if override then godotenv.godotenv_overload path e else godotenv.godotenv_load path e) [
        | none ↦ (e, false)
        | some e' ↦ (e', true)
      ]

  -- The files that `Load` loads, with whether they override.
  unfoldable pub files_of : Text → Text → List (Bool × Text)
  files_of environment name =
      let rest =
        (false, file_of environment) ∷ (false, file_of name) ∷ (false, file_default) ∷ [] in
      let locals = if environment == test then rest else (true, file_default ++ dot_local) ∷ rest in
      (true, file_of environment ++ dot_local) ∷ locals

  unfoldable pub load_all : List (Bool × Text) → Environ → Environ × Bool
  unfolding load
  load_all [] e = (e, false)
  load_all ((override, f) ∷ fs) e =
      let (e1, found) = load override f e in
      let (e2, others) = load_all fs e1 in (e2, found || others)

  -- `Load`: the environment at the end, with the results of the call
  unfoldable pub load_env :
      (GoMap Text Text → GoMap Text Text)
      → Text
      → List Text
      → Environ
      → Result LoadError (Environ × Bool × Text)
  unfolding environment_of files_of load_all
  load_env order name args e = elim (set_envs order args e) [
    | err x ↦ err (args_error x)
    | ok e1 ↦ elim (environment_of (elim (lookup var_enviroment e1) [ none ↦ [] | some s ↦ s ])) [
      | err x ↦ err x
      | ok environment ↦
          let (e2, loaded) = load_all (files_of environment name) e1 in ok (e2, loaded, environment)
    ]
  ]
