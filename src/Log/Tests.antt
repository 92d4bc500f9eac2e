-- ===== src/Log/Tests.antt =====
-- The theorem on pkg/log/log.go at an environment with a file in the working directory.
use goico.Shared.{◌≡◌, refl, false, not, ◌&&◌, ◌||◌, none, some, [], ◌∷◌, ◌++◌, if◌then◌else◌}
use goico.Shared.Int.{pos}
use goico.Shared.GoMap.{lookup}
use goico.Shared.Key.{bytes_keys}
use goico.Env.Os.{Text, Environ, has_byte, is_blank}
use goico.Env.Getters.{workdir, var_work_dir}
use goico.Log.{
  console_writer, file_writer, discard, LogFile, disabled, workdir_rest, var_file_name,
  var_file_enabled, config_of, new_with_context,
}
use goico.Log.New.{in_workdir, is_some, files_of, new_with_context_lem}

-- "/a.log", "/tmp"
abbrev a_log : Text
a_log = 47 ∷ 97 ∷ 46 ∷ 108 ∷ 111 ∷ 103 ∷ []

abbrev tmp : Text
tmp = 47 ∷ 116 ∷ 109 ∷ 112 ∷ []

abbrev environ : Environ
environ =
    (var_file_enabled, 116 ∷ [])
    ∷ (var_work_dir, tmp)
    ∷ (var_file_name, (36 ∷ workdir_rest) ++ a_log)
    ∷ []

named : lookup var_file_name environ ≡ some ([] ++ (36 ∷ workdir_rest) ++ a_log)
unfolding lookup
named = refl

no_dollar : has_byte 36 [] ≡ false
unfolding has_byte
no_dollar = refl

new_with_context_lem_example :
    let cfg = config_of environ in
    let (logger, closer) = new_with_context [] environ in
    (closer ≡ (
      if cfg.file_enabled && not (is_blank (workdir environ ++ a_log))
      then some (record {
        filename = workdir environ ++ a_log;
        max_size = cfg.max_size;
        max_backups = cfg.max_backups;
        max_age = cfg.max_age;
      })
      else none))
    × (logger.level ≡ (if cfg.console_enabled || is_some closer then cfg.level else disabled))
    × (logger.writers ≡ (
        if cfg.console_enabled || is_some closer
        then (if cfg.console_enabled then console_writer cfg.exclude_timestamp ∷ [] else [])
          ++ files_of closer
        else discard ∷ []))
new_with_context_lem_example =
    new_with_context_lem [] environ (workdir environ ++ a_log) (in_workdir [] a_log no_dollar named)

abbrev the_file : LogFile
the_file = record {
  filename = tmp ++ a_log;
  max_size = pos 100;
  max_backups = pos 10;
  max_age = pos 24;
}

makes_both : new_with_context [] environ ≡ (
  record {
    writers = console_writer false ∷ file_writer the_file ∷ [];
    level = pos 1;
    caller = false;
    context = [];
  },
  some the_file,
)
unfolding new_with_context lookup
makes_both = refl
