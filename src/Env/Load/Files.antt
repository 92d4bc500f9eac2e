-- ===== src/Env/Load/Files.antt =====
-- What the files that `Load` (pkg/env/env.go) loads leave of the environment, one after the other.
use goico.Env.Load.{Dotenv, load}
use goico.Shared.{
  ◌≡◌, refl, ap, ◌∙◌, Bool, true, false, ◌||◌, Option, none, some, List, [], ◌∷◌, if◌then◌else◌,
}
use goico.Shared.Key.{bytes_keys}
use goico.Env.Os.{Text, Environ}
use goico.Env.Args.{or_else, last_given}
use goico.Env.Getters.{default_value, here, here, default_value, basedir, string, var_base_dir}
use goico.Shared.GoMap.{GoMap, lookup}

abbrev pub text_or : Text → Option Text → Text
text_or default none = default
text_or default (some s) = s

abbrev pub first_of : List (Option Text) → Option Text
first_of [] = none
first_of (o ∷ os) = or_else o (first_of os)

-- What the command line and then the environment say.
abbrev pub told_before : List Text → Environ → Text → Option Text
told_before args e k = or_else (last_given k args) (lookup k e)

-- The value of a variable after one file, from its value before and in the file.
abbrev pub merged : Bool → Option Text → Option Text → Option Text
merged override said_here before =
    if override then or_else said_here before else or_else before said_here

module _ (godotenv : Dotenv) (join : Text → Text → Text) where
  -- What a file sets, read at the directory given.
  abbrev pub said : Text → Text → Text → Option Text
  said dir f k = elim (godotenv.contents (join dir f)) [ none ↦ none | some m ↦ lookup k m ]

  abbrev pub found_at : Text → Text → Bool
  found_at dir f = elim (godotenv.contents (join dir f)) [ none ↦ false | some m ↦ true ]

  abbrev pub winning : Text → List (Bool × Text) → Text → Option Text → Option Text
  winning dir [] k before = before
  winning dir ((override, f) ∷ fs) k before =
      winning dir fs k (merged override (said dir f k) before)

  abbrev pub any_found : Text → List (Bool × Text) → Bool
  any_found dir [] = false
  any_found dir ((override, f) ∷ fs) = found_at dir f || any_found dir fs

  -- No file moves the directory.
  abbrev pub KeepBase : Type 0
  KeepBase =
      (path : Text) (m : GoMap Text Text)
      → godotenv.contents path ≡ some m
      → lookup var_base_dir m ≡ none

  base_stays :
      (e e' : Environ) → lookup var_base_dir e' ≡ lookup var_base_dir e → basedir e' ≡ basedir e
  unfolding basedir string
  base_stays e e' h =
      ap (λ o. elim o as (λ x. Text) [ none ↦ default_value (here ∷ []) [] | some s ↦ s ]) h

  pub basedir-text_or :
      (e : Environ) (o : Option Text)
      → lookup var_base_dir e ≡ o
      → basedir e ≡ text_or (46 ∷ 47 ∷ []) o
  unfolding basedir string default_value
  basedir-text_or e none h =
      ap (λ o. elim o as (λ x. Text) [ none ↦ default_value (here ∷ []) [] | some s ↦ s ]) h
  basedir-text_or e (some s) h =
      ap (λ o. elim o as (λ x. Text) [ none ↦ default_value (here ∷ []) [] | some s ↦ s ]) h

  pub record Loaded (override : Bool) (f : Text) (e e' : Environ) (found : Bool) : Type 0 where
    pub value_of : (k : Text) → lookup k e' ≡ merged override (said (basedir e) f k) (lookup k e)
    pub told : found ≡ found_at (basedir e) f
    pub base : basedir e' ≡ basedir e

  load_eq :
      (override : Bool) (f : Text) (e : Environ) (o : Option Environ)
      → (if override
          then godotenv.godotenv_overload (join (basedir e) f) e
          else godotenv.godotenv_load (join (basedir e) f) e)
        ≡ o
      → load godotenv join override f e ≡ (elim o [ none ↦ (e, false) | some e' ↦ (e', true) ])
  unfolding load
  load_eq override f e o h =
      ap (λ o. elim o as (λ x. Environ × Bool) [ none ↦ (e, false) | some e' ↦ (e', true) ]) h

  missing :
      (override : Bool) (f : Text) (e : Environ)
      → godotenv.contents (join (basedir e) f) ≡ none
      → Loaded override f e e false
  missing override f e gone = record {
    value_of = λ k. rw (merged, said, gone) (unmoved override (lookup k e));
    told = rw (found_at, gone) refl;
    base = refl;
  }
    where
      unmoved : (override : Bool) (o : Option Text) → o ≡ merged override none o
      unmoved true o = refl
      unmoved false none = refl
      unmoved false (some v) = refl

  present :
      (override : Bool) (f : Text) (e e' : Environ) (m : GoMap Text Text)
      → KeepBase
      → godotenv.contents (join (basedir e) f) ≡ some m
      → ((k : Text) → lookup k e' ≡ merged override (lookup k m) (lookup k e))
      → Loaded override f e e' true
  present override f e e' m keep here sees = record {
    value_of = λ k. sees k ∙ (rw (said, here) refl);
    told = rw (found_at, here) refl;
    base = base_stays e e' (
        sees var_base_dir
        ∙ (rw (keep (join (basedir e) f) m here) (unmoved override (lookup var_base_dir e))));
  }
    where
      unmoved : (override : Bool) (o : Option Text) → merged override none o ≡ o
      unmoved true o = refl
      unmoved false none = refl
      unmoved false (some v) = refl

  pub load_one :
      (override : Bool) (f : Text) (e : Environ)
      → KeepBase
      → Loaded override f e (load godotenv join override f e).0 (load godotenv join override f e).1
  load_one override f e keep = go override (godotenv.contents (join (basedir e) f)) refl
    where
      go :
          (override : Bool) (c : Option (GoMap Text Text))
          → godotenv.contents (join (basedir e) f) ≡ c
          → Loaded override f e
              (load godotenv join override f e).0
              (load godotenv join override f e).1
      go true none gone =
          rw (load_eq true f e none (godotenv.overload_missing _ e gone)) (missing true f e gone)
      go false none gone =
          rw (load_eq false f e none (godotenv.load_missing _ e gone)) (missing false f e gone)
      go true (some m) here =
          let (e', done, sees) = godotenv.overload_found _ e m here in
          rw (load_eq true f e (some e') done) (present true f e e' m keep here sees)
      go false (some m) here =
          let (e', done, sees) = godotenv.load_found _ e m here in
          rw (load_eq false f e (some e') done) (present false f e e' m keep here sees)
