-- ===== src/Env/Load/Precedence.antt =====
-- Which value `Load` (pkg/env/env.go) leaves a variable, and when it fails.
use goico.Env.Load.{
  Dotenv, LoadError, args_error, invalid_environment, var_enviroment, test, environments,
  file_default, dot_local, file_of, environment_of, load, files_of, load_all, load_env,
}
use goico.Env.Load.Files.{
  text_or, first_of, told_before, said, winning, any_found, KeepBase, basedir-text_or, load_one,
}
use goico.Shared.{
  ◌≡◌, refl, ap, ◌∙◌, inl, inr, Bool, true, false, ◌||◌, Option, none, some, List, [], ◌∷◌, ◌++◌,
  if◌then◌else◌, Bool-cases,
}
use goico.Shared.Key.{bytes_keys, ◌==◌}
use goico.Env.Os.{invalid_argument, Text, Environ, is_blank, settable}
use goico.Env.Args.{or_else, last_given, Visits, lookup-set_envs, set_envs_refuses}
use goico.Env.Getters.{basedir, one_of, var_base_dir}
use goico.Shared.GoMap.{GoMap, lookup}
use goico.Shared.Result.{Result, ok, err}

module _ (godotenv : Dotenv) (join : Text → Text → Text) where
  load_all_lem :
      (fs : List (Bool × Text)) (e : Environ)
      → KeepBase godotenv join
      → ((k : Text)
          → lookup k (load_all godotenv join fs e).0
            ≡ winning godotenv join (basedir e) fs k (lookup k e))
        × ((load_all godotenv join fs e).1 ≡ any_found godotenv join (basedir e) fs)
  unfolding load_all
  load_all_lem [] e keep = (λ k. refl, refl)
  load_all_lem ((override, f) ∷ fs) e keep =
      let l = load_one godotenv join override f e keep in
      let (value_of, told) = load_all_lem fs (load godotenv join override f e).0 keep in
      (
        (λ k. value_of k ∙ (rw (l.base, l.value_of k) refl)),
        ap (λ b. (load godotenv join override f e).1 || b)
              (told ∙ ap (λ d. any_found godotenv join d fs) l.base)
            ∙ ap (λ b. b || any_found godotenv join (basedir e) fs) l.told,
      )

  or_else_assoc : (a b c : Option Text) → or_else (or_else a b) c ≡ or_else a (or_else b c)
  or_else_assoc none b c = refl
  or_else_assoc (some v) b c = refl

  or_else-none : (a : Option Text) → or_else a none ≡ a
  or_else-none none = refl
  or_else-none (some v) = refl

  winning-files_of :
      (dir environment name k : Text) (given before : Option Text)
      → winning godotenv join dir (files_of godotenv join environment name) k (or_else given before)
        ≡ first_of (
            (if environment == test
              then none
              else said godotenv join dir (file_default ++ dot_local) k)
            ∷ said godotenv join dir (file_of environment ++ dot_local) k
            ∷ given
            ∷ before
            ∷ said godotenv join dir (file_of environment) k
            ∷ said godotenv join dir (file_of name) k
            ∷ said godotenv join dir file_default k
            ∷ [])
  unfolding files_of
  winning-files_of dir environment name k given before = elim (Bool-cases (environment == test)) [
    | inl is_test ↦ rw is_test (simp (or_else_assoc, or_else-none))
    | inr other ↦ rw other (simp (or_else_assoc, or_else-none))
  ]

  -- With arguments that can be set, a valid or blank APP_ENV and files that do not set basedir, Load
  -- succeeds. It returns the environment's name, and true exactly if some file was found. Each
  -- variable has its value from the first of these that gives one: .env.local unless the environment
  -- is test, .env.[environment].local, the arguments, the environment before, .env.[environment],
  -- .env.[name] and .env, all below basedir as the arguments and the environment give it.
  pub load_env_lem :
      (order : GoMap Text Text → GoMap Text Text) (name : Text) (args : List Text) (e : Environ)
      (environment : Text)
      → Visits order
      → KeepBase godotenv join
      → ((k v : Text) → last_given k args ≡ some v → settable k v ≡ true)
      → environment_of (text_or [] (told_before args e var_enviroment)) ≡ ok environment
      → (let dir = text_or (46 ∷ 47 ∷ []) (told_before args e var_base_dir) in
          (e' : Environ) × (load_env godotenv join order name args e
            ≡ ok (
              e',
              any_found godotenv join dir (files_of godotenv join environment name),
              environment,
            ))
          × ((k : Text)
              → lookup k e'
                ≡ first_of (
                    (if environment == test
                      then none
                      else said godotenv join dir (file_default ++ dot_local) k)
                    ∷ said godotenv join dir (file_of environment ++ dot_local) k
                    ∷ last_given k args
                    ∷ lookup k e
                    ∷ said godotenv join dir (file_of environment) k
                    ∷ said godotenv join dir (file_of name) k
                    ∷ said godotenv join dir file_default k
                    ∷ [])))
  unfolding load_env
  load_env_lem order name args e environment o keep fine named =
      let (e1, done, sees) = lookup-set_envs order args e o fine in
      let files = files_of godotenv join environment name in
      let base = basedir-text_or godotenv join e1 _ (sees var_base_dir) in
      let (value_of, told) = load_all_lem files e1 keep in
      let named1 : environment_of (text_or [] (lookup var_enviroment e1)) ≡ ok environment =
        ap (λ o. environment_of (text_or [] o)) (sees var_enviroment) ∙ named in
      (
        (load_all godotenv join files e1).0,
        rw (load_env, done, named1)
            (ap (λ (b : Bool). ok ((load_all godotenv join files e1).0, b, environment))
              (told ∙ ap (λ d. any_found godotenv join d files) base)),
        λ k.
            value_of k
            ∙ (rw (base, sees k)
                (winning-files_of _ environment name k (last_given k args) (lookup k e))),
      )

  -- Load fails if some variable that the arguments name cannot be set.
  pub load_env-args_error :
      (order : GoMap Text Text → GoMap Text Text) (name : Text) (args : List Text) (e : Environ)
      (k v : Text)
      → Visits order
      → last_given k args ≡ some v
      → settable k v ≡ false
      → load_env godotenv join order name args e ≡ err (args_error invalid_argument)
  unfolding load_env
  load_env-args_error order name args e k v o at bad =
      rw (load_env, set_envs_refuses order args e k v o at bad) refl

  -- With arguments that can be set, Load fails if APP_ENV, as the arguments and the environment give
  -- it, is neither blank nor development, production or test.
  pub load_env-invalid_environment :
      (order : GoMap Text Text → GoMap Text Text) (name : Text) (args : List Text) (e : Environ)
      → Visits order
      → ((k v : Text) → last_given k args ≡ some v → settable k v ≡ true)
      → is_blank (text_or [] (told_before args e var_enviroment)) ≡ false
      → one_of (text_or [] (told_before args e var_enviroment)) environments ≡ false
      → load_env godotenv join order name args e
        ≡ err (invalid_environment (text_or [] (told_before args e var_enviroment)))
  unfolding load_env environment_of
  load_env-invalid_environment order name args e o fine full unknown =
      let (e1, done, sees) = lookup-set_envs order args e o fine in
      rw (load_env, done)
        (ap
            (λ o.
              elim (environment_of (text_or [] o))
                as (λ x. Result LoadError (Environ × Bool × Text)) [
                  | err x ↦ err x
                  | ok environment ↦ ok (
                    (load_all godotenv join (files_of godotenv join environment name) e1).0,
                    (load_all godotenv join (files_of godotenv join environment name) e1).1,
                    environment,
                  )
                ])
            (sees var_enviroment)
          ∙ (rw (full, unknown) refl))
