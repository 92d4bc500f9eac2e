-- ===== src/Log/New.antt =====
-- What NewWithContext of pkg/log/log.go makes of the environment.
use goico.Shared.{
  ℕ, ◌≡◌, refl, ap, ◌∙◌, Bool, true, false, not, ◌&&◌, ◌||◌, Option, none, some, List, [], ◌∷◌,
  ◌++◌, arith, if◌then◌else◌,
}
use goico.Shared.GoMap.{lookup}
use goico.Shared.Key.{bytes_keys}
use goico.Env.Os.{Text, Environ, has_byte, is_blank, cut_prefix}
use goico.Env.Getters.{string, workdir}
use goico.Log.{
  Config, LogFile, Writer, console_writer, file_writer, discard, disabled, workdir_rest,
  var_file_name, default_name, replace_first, get_file_name, lumberjack_logger, file_of, console_of,
  writers_of, with_writers, config_of, new_with_context,
}

cut_prefix-append : (p s : Text) → cut_prefix p (p ++ s) ≡ some s
unfolding cut_prefix
cut_prefix-append [] s = refl
cut_prefix-append (c ∷ p) s = ground (arith, cut_prefix-append p s)

-- The first of the texts is replaced, if its first byte does not stand before it.
replace_first_lem :
    (o : ℕ) (old new pre post : Text)
    → has_byte o pre ≡ false
    → replace_first o old new (pre ++ (o ∷ old) ++ post) ≡ pre ++ new ++ post
unfolding replace_first has_byte cut_prefix
replace_first_lem o old new [] post h = ground (arith, cut_prefix-append old post)
replace_first_lem o old new (c ∷ pre) post h = ground (arith, replace_first_lem o old new pre post)

string_found :
    (key : Text) (defs : List Text) (e : Environ) (s : Text)
    → lookup key e ≡ some s
    → string key defs e ≡ s
unfolding string
string_found key defs e s n = rw (n, string)

-- The name of the file: "file.log" if the variable is not set; the variable's value if that holds no
-- '$'; and with the working directory for a "${workdir}" that has no '$' before it.
pub data IsFileName (e : Environ) : Text → Type 0 where
  unset : lookup var_file_name e ≡ none → IsFileName e default_name
  plain : (s : Text) → lookup var_file_name e ≡ some s → has_byte 36 s ≡ false → IsFileName e s
  in_workdir :
      (pre post : Text)
      → has_byte 36 pre ≡ false
      → lookup var_file_name e ≡ some (pre ++ (36 ∷ workdir_rest) ++ post)
      → IsFileName e (pre ++ workdir e ++ post)

replace_first_absent :
    (o : ℕ) (old new s : Text) → has_byte o s ≡ false → replace_first o old new s ≡ s
unfolding replace_first has_byte cut_prefix
replace_first_absent o old new [] h = refl
replace_first_absent o old new (c ∷ s) h = ground (arith, replace_first_absent o old new s)

no_dollar_in_default : has_byte 36 default_name ≡ false
unfolding has_byte
no_dollar_in_default = refl

string_unset : (key def : Text) (e : Environ) → lookup key e ≡ none → string key (def ∷ []) e ≡ def
unfolding string
string_unset key def e n = rw (n, string) refl

file_name-eq : (e : Environ) (name : Text) → IsFileName e name → (config_of e).file_name ≡ name
unfolding config_of get_file_name
file_name-eq e name (unset n) =
    ap (replace_first 36 workdir_rest (workdir e)) (string_unset var_file_name default_name e n)
    ∙ replace_first_absent 36 workdir_rest (workdir e) default_name no_dollar_in_default
file_name-eq e name (plain s n h) =
    ap (replace_first 36 workdir_rest (workdir e))
      (string_found var_file_name (default_name ∷ []) e s n)
    ∙ replace_first_absent 36 workdir_rest (workdir e) s h
file_name-eq e name (in_workdir pre post h n) =
    ap (replace_first 36 workdir_rest (workdir e))
      (string_found var_file_name (default_name ∷ []) e _ n)
    ∙ replace_first_lem 36 workdir_rest (workdir e) pre post h

closer_lem :
    (cfg : Config) (name : Text)
    → cfg.file_name ≡ name
    → file_of cfg ≡ (
        if cfg.file_enabled && not (is_blank name)
        then some (record {
          filename = name;
          max_size = cfg.max_size;
          max_backups = cfg.max_backups;
          max_age = cfg.max_age;
        })
        else none)
unfolding file_of lumberjack_logger
closer_lem cfg name e =
    ap
      (λ (n : Text).
        if cfg.file_enabled && not (is_blank n)
        then some (record {
          filename = n;
          max_size = cfg.max_size;
          max_backups = cfg.max_backups;
          max_age = cfg.max_age;
        })
        else none)
      e

abbrev pub is_some : Option LogFile → Bool
is_some none = false
is_some (some f) = true

abbrev pub files_of : Option LogFile → List Writer
files_of none = []
files_of (some f) = file_writer f ∷ []

with_writers_lem :
    (context : List (Text × Text)) (cfg : Config) (on : Bool) (f : Option LogFile)
    → cfg.console_enabled ≡ on
    → let logger = with_writers context cfg (writers_of (console_of cfg) f) in
      (logger.level ≡ (if on || is_some f then cfg.level else disabled))
      × (logger.writers ≡ (
          if on || is_some f
          then (if on then console_writer cfg.exclude_timestamp ∷ [] else []) ++ files_of f
          else discard ∷ []))
unfolding with_writers
with_writers_lem context cfg true none e = (simp e, simp e)
with_writers_lem context cfg true (some f) e = (simp e, simp e)
with_writers_lem context cfg false none e = (simp e, simp e)
with_writers_lem context cfg false (some f) e = (simp e, simp e)

-- The logger that NewWithContext makes writes to the console, if that is enabled, and to a file, if
-- that is enabled and its name is not blank; with neither it discards everything and is disabled, and
-- otherwise it has the level of the environment. The writer to close is the file's, if there is one.
-- The file's name is "file.log" if its variable is not set, the variable's value if that holds no '$',
-- and the value with the working directory for its first "${workdir}" if no '$' stands before that;
-- other values are not considered.
pub new_with_context_lem :
    (context : List (Text × Text)) (e : Environ) (name : Text)
    → IsFileName e name
    → let cfg = config_of e in
      let (logger, closer) = new_with_context context e in
      (closer ≡ (
        if cfg.file_enabled && not (is_blank name)
        then some (record {
          filename = name;
          max_size = cfg.max_size;
          max_backups = cfg.max_backups;
          max_age = cfg.max_age;
        })
        else none))
      × (logger.level ≡ (if cfg.console_enabled || is_some closer then cfg.level else disabled))
      × (logger.writers ≡ (
          if cfg.console_enabled || is_some closer
          then (if cfg.console_enabled then console_writer cfg.exclude_timestamp ∷ [] else [])
            ++ files_of closer
          else discard ∷ []))
unfolding new_with_context
new_with_context_lem context e name named =
    let (level, writers) =
      with_writers_lem context (config_of e) (config_of e).console_enabled (file_of (config_of e))
        refl in
    (closer_lem (config_of e) name (file_name-eq e name named), level, writers)
