-- ===== src/File/Oldest/Tests.antt =====
-- Instances of the theorems on the oldest files (pkg/ioutil/ioutil.go) at a directory of three entries.
use goico.File.Oldest.{Entry, read_each, read_oldest_files}
use goico.File.Oldest.Matching.{AllMatch, NoneMatches}
use goico.File.Oldest.Order.{InOrder, read_oldest_files_lem}
use goico.Shared.{min, ℕ, ◌≡◌, false, List, [], ◌∷◌, ◌++◌, length}
use goico.Shared.Int.{pos}
use goico.Shared.Result.{Result, ok}
use goico.Shared.Outcome.{returns}
use mathlib.Core.List.{Permᴰ}

abbrev entry : ℕ → ℕ → Entry
entry name time = record {
  full_name = 47 ∷ name ∷ [];
  name = name ∷ [];
  mod_time = time;
  is_dir = false;
}

abbrev three_entries : List Entry
three_entries = entry 97 30 ∷ entry 98 10 ∷ entry 97 20 ∷ []

abbrev read_all : List ℕ → Result ℕ (List ℕ)
read_all path = ok path

read_oldest_files_lem_example :
    (fs : List Entry) × (left : List Entry) × (others : List Entry) × (read_oldest_files read_all
        false
        (ok three_entries)
        (97 ∷ [])
        []
        (pos 1)
      ≡ returns (read_each read_all fs))
    × (length fs ≡ min 1 (length (fs ++ left)))
    × Permᴰ ((fs ++ left) ++ others) three_entries
    × AllMatch (97 ∷ []) [] (fs ++ left)
    × NoneMatches (97 ∷ []) [] others
    × InOrder (fs ++ left)
read_oldest_files_lem_example = read_oldest_files_lem read_all three_entries (97 ∷ []) [] 1
