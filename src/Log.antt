-- ===== src/Log.antt =====
-- pkg/log/log.go: the configuration of the logger from the environment, and the logger that is made
-- of it. The writers themselves are zerolog's and lumberjack's; a level is a number.
pub mod New
pub mod Tests
use goico.Shared.{
  ℕ, zero, suc, ◌+◌, ◌-◌, ◌%◌, ◌≤◌, ◌<◌, ◌≡◌, refl, sym, ap, ◌∙◌, ◌≢◌, ◌↔◌, ◌⊎◌, inl, inr, Bool,
  true, false, not, ◌&&◌, ◌||◌, Option, none, some, List, [], ◌∷◌, ◌++◌, map, arith, ltb, leb, eqb,
  eqb_iff, lt→ltb, if◌then◌else◌, Bool-cases, Option-cases, length, get_or, set, take, drop,
  replicate, copy_at, copy_at_next, length-append, length-set, length-drop, length-take,
  length-replicate, take-length, drop_all, copy_at_last,
}
use goico.Shared.Int.{ℤ, pos}
use goico.Env.Os.{Text, Environ, is_blank, cut_prefix}
use goico.Env.Getters.{bool, int, string, workdir}

-- The names of the variables
abbrev var_console_enabled : Text
var_console_enabled =
    108 ∷ 111 ∷ 103 ∷ 46 ∷ 99 ∷ 111 ∷ 110 ∷ 115 ∷ 111 ∷ 108 ∷ 101 ∷ 46 ∷ 101 ∷ 110 ∷ 97 ∷ 98 ∷ 108
    ∷ 101 ∷ 100 ∷ []

abbrev var_exclude_timestamp : Text
var_exclude_timestamp =
    108 ∷ 111 ∷ 103 ∷ 46 ∷ 99 ∷ 111 ∷ 110 ∷ 115 ∷ 111 ∷ 108 ∷ 101 ∷ 46 ∷ 101 ∷ 120 ∷ 99 ∷ 108 ∷ 117
    ∷ 100 ∷ 101 ∷ 46 ∷ 116 ∷ 105 ∷ 109 ∷ 101 ∷ 115 ∷ 116 ∷ 97 ∷ 109 ∷ 112 ∷ []

abbrev var_log_level : Text
var_log_level = 108 ∷ 111 ∷ 103 ∷ 46 ∷ 108 ∷ 101 ∷ 118 ∷ 101 ∷ 108 ∷ []

abbrev var_log_caller : Text
var_log_caller = 108 ∷ 111 ∷ 103 ∷ 46 ∷ 99 ∷ 97 ∷ 108 ∷ 108 ∷ 101 ∷ 114 ∷ []

abbrev pub var_file_enabled : Text
var_file_enabled =
    108 ∷ 111 ∷ 103 ∷ 46 ∷ 102 ∷ 105 ∷ 108 ∷ 101 ∷ 46 ∷ 101 ∷ 110 ∷ 97 ∷ 98 ∷ 108 ∷ 101 ∷ 100 ∷ []

abbrev var_file_max_size : Text
var_file_max_size =
    108 ∷ 111 ∷ 103 ∷ 46 ∷ 102 ∷ 105 ∷ 108 ∷ 101 ∷ 46 ∷ 109 ∷ 97 ∷ 120 ∷ 46 ∷ 115 ∷ 105 ∷ 122 ∷ 101
    ∷ []

abbrev var_file_max_backups : Text
var_file_max_backups =
    108 ∷ 111 ∷ 103 ∷ 46 ∷ 102 ∷ 105 ∷ 108 ∷ 101 ∷ 46 ∷ 109 ∷ 97 ∷ 120 ∷ 46 ∷ 98 ∷ 97 ∷ 99 ∷ 107
    ∷ 117 ∷ 112 ∷ 115 ∷ []

abbrev var_file_max_age : Text
var_file_max_age =
    108 ∷ 111 ∷ 103 ∷ 46 ∷ 102 ∷ 105 ∷ 108 ∷ 101 ∷ 46 ∷ 109 ∷ 97 ∷ 120 ∷ 46 ∷ 97 ∷ 103 ∷ 101 ∷ []

abbrev pub var_file_name : Text
var_file_name = 108 ∷ 111 ∷ 103 ∷ 46 ∷ 102 ∷ 105 ∷ 108 ∷ 101 ∷ 46 ∷ 110 ∷ 97 ∷ 109 ∷ 101 ∷ []

-- "file.log"
abbrev pub default_name : Text
default_name = 102 ∷ 105 ∷ 108 ∷ 101 ∷ 46 ∷ 108 ∷ 111 ∷ 103 ∷ []

-- "${workdir}", behind its first byte
abbrev pub workdir_rest : Text
workdir_rest = 123 ∷ 119 ∷ 111 ∷ 114 ∷ 107 ∷ 100 ∷ 105 ∷ 114 ∷ 125 ∷ []

-- `config`; a file's directory is never set
pub record Config : Type 0 where
  pub console_enabled : Bool
  pub exclude_timestamp : Bool
  pub file_enabled : Bool
  pub file_name : Text
  pub max_size : ℤ
  pub max_backups : ℤ
  pub max_age : ℤ
  pub level : ℤ
  pub caller : Bool

-- The writer that `lumberjackLogger` makes
pub record LogFile : Type 0 where
  pub filename : Text
  pub max_size : ℤ
  pub max_backups : ℤ
  pub max_age : ℤ

pub data Writer : Type 0 where
  console_writer : Bool → Writer
  file_writer : LogFile → Writer
  discard : Writer

pub record Logger : Type 0 where
  pub writers : List Writer
  pub level : ℤ
  pub caller : Bool
  pub context : List (Text × Text)

-- zerolog.InfoLevel and zerolog.Disabled
abbrev pub info_level : ℤ
info_level = pos 1

abbrev pub disabled : ℤ
disabled = pos 7

-- `strings.Replace(s, old, new, 1)` for an old text with a first byte
unfoldable pub replace_first : ℕ → Text → Text → Text → Text
unfolding cut_prefix
replace_first o old new [] = []
replace_first o old new (c ∷ s) =
    let later = c ∷ replace_first o old new s in
    elim (cut_prefix (o ∷ old) (c ∷ s)) [ some rest ↦ new ++ rest | none ↦ later ]

-- `getFileName`
unfoldable pub get_file_name : Environ → Text
unfolding replace_first string workdir
get_file_name e =
    replace_first 36 workdir_rest (workdir e) (string var_file_name (default_name ∷ []) e)

-- `lumberjackLogger`
unfoldable pub lumberjack_logger : Config → LogFile
lumberjack_logger cfg = record {
  filename = cfg.file_name;
  max_size = cfg.max_size;
  max_backups = cfg.max_backups;
  max_age = cfg.max_age;
}

-- The file, if it is enabled and its name is not blank
unfoldable pub file_of : Config → Option LogFile
unfolding lumberjack_logger is_blank
file_of cfg =
    if cfg.file_enabled && not (is_blank cfg.file_name) then some (lumberjack_logger cfg) else none

-- The writers of the console and of the file
abbrev pub console_of : Config → List Writer
console_of cfg = if cfg.console_enabled then console_writer cfg.exclude_timestamp ∷ [] else []

abbrev pub writers_of : List Writer → Option LogFile → List Writer
writers_of console none = console
writers_of console (some f) = console ++ file_writer f ∷ []

-- Without a writer nothing is logged.
unfoldable pub with_writers : List (Text × Text) → Config → List Writer → Logger
with_writers context cfg [] = record {
  writers = discard ∷ [];
  level = disabled;
  caller = cfg.caller;
  context = context;
}
with_writers context cfg (w ∷ ws) = record {
  writers = w ∷ ws;
  level = cfg.level;
  caller = cfg.caller;
  context = context;
}

-- `newLogger`: the logger, and the writer to close
unfoldable pub new_logger : List (Text × Text) → Config → Logger × Option LogFile
unfolding file_of with_writers
new_logger context cfg =
    (with_writers context cfg (writers_of (console_of cfg) (file_of cfg)), file_of cfg)

-- The configuration that `NewWithContext` reads
unfoldable pub config_of : Environ → Config
unfolding bool int get_file_name
config_of e = record {
  console_enabled = bool var_console_enabled (true ∷ []) e;
  exclude_timestamp = bool var_exclude_timestamp (false ∷ []) e;
  file_enabled = bool var_file_enabled (false ∷ []) e;
  file_name = get_file_name e;
  max_size = int 63 var_file_max_size (pos 100 ∷ []) e;
  max_backups = int 63 var_file_max_backups (pos 10 ∷ []) e;
  max_age = int 63 var_file_max_age (pos 24 ∷ []) e;
  level = int 7 var_log_level (info_level ∷ []) e;
  caller = bool var_log_caller (false ∷ []) e;
}

-- `NewWithContext`
unfoldable pub new_with_context : List (Text × Text) → Environ → Logger × Option LogFile
unfolding new_logger config_of
new_with_context context e = new_logger context (config_of e)
