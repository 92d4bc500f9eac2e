-- ===== src/File/Write/Tests.antt =====
-- An instance of the theorem on Touch and WriteToRandomFile (pkg/ioutil/ioutil.go), on a disk of one file.
use goico.File.Write.{
  List, Paths, Disk, Faults, IsFaultless, touch, write_to_random_file, touch_lem,
}
use goico.Shared.{eqb, ◌&&◌, ℕ, ◌≡◌, refl, none, some, [], ◌∷◌, ◌++◌, if◌then◌else◌}
use goico.Shared.GoMap.{lookup}
use goico.Shared.Key.{bytes_keys}
use goico.Shared.Result.{ok}

abbrev one_file : Disk
one_file = (97 ∷ [], 120 ∷ []) ∷ []

abbrev no_faults : Faults ℕ
no_faults = record {
  stat = none;
  create = none;
  write = none;
  flush = none;
  close = none;
  reached = [];
}

no_faults-IsFaultless : IsFaultless no_faults
no_faults-IsFaultless = record {
  stat_ok = refl;
  create_ok = refl;
  write_ok = refl;
  flush_ok = refl;
  close_ok = refl;
}

-- "./a" and "a" are one file, which Clean calls "a".
abbrev without_dot : List ℕ → List ℕ
without_dot (a ∷ b ∷ path) = if eqb a 46 && eqb b 47 then path else a ∷ b ∷ path
without_dot path = path

abbrev some_paths : Paths
some_paths = record { clean = without_dot; join = λ d f. d ++ 47 ∷ f; file_at = without_dot }

touch_lem_example :
    ((touch some_paths no_faults (46 ∷ 47 ∷ 98 ∷ []) one_file).0 ≡ none)
    × (lookup (98 ∷ []) (touch some_paths no_faults (46 ∷ 47 ∷ 98 ∷ []) one_file).1 ≡ some [])
    × ((write_to_random_file some_paths no_faults
          (ok (99 ∷ []))
          (46 ∷ 47 ∷ 98 ∷ [])
          []
          []
          (5 ∷ [])
          one_file).0
        ≡ ok (98 ∷ 47 ∷ 99 ∷ []))
    × (lookup
          (98 ∷ [])
          (write_to_random_file some_paths no_faults
            (ok (99 ∷ []))
            (46 ∷ 47 ∷ 98 ∷ [])
            []
            []
            (5 ∷ [])
            one_file).1
        ≡ none)
unfolding lookup
touch_lem_example =
    touch_lem some_paths no_faults (46 ∷ 47 ∷ 98 ∷ []) (98 ∷ []) (99 ∷ []) [] [] (5 ∷ []) one_file
      no_faults-IsFaultless refl refl
