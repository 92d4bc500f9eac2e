-- ===== src/File/Listing/Tests.antt =====
-- Instance of the theorem on Files and Dirs (pkg/ioutil/ioutil.go) at a directory with a directory and
-- two files below it.
use goico.Shared.{ℕ, ◌≡◌, refl, true, false, List, [], ◌∷◌, ◌++◌}
use mathlib.Core.List.{Permᴰ}
use goico.Shared.Result.{ok}
use goico.File.Oldest.{Entry}
use goico.File.Oldest.Order.{InOrder}
use goico.File.Listing.{files_of, dirs_of}
use goico.File.Listing.Kinds.{AllDirs, files_dirs_lem}

-- "d", "d/s", "d/s/a", "d/b"
abbrev root : Entry
root = record { full_name = 100 ∷ []; name = 100 ∷ []; mod_time = 9; is_dir = true }

abbrev sub_dir : Entry
sub_dir = record { full_name = 100 ∷ 47 ∷ 115 ∷ []; name = 115 ∷ []; mod_time = 8; is_dir = true }

abbrev file_a : Entry
file_a = record {
  full_name = 100 ∷ 47 ∷ 115 ∷ 47 ∷ 97 ∷ [];
  name = 97 ∷ [];
  mod_time = 7;
  is_dir = false;
}

abbrev file_b : Entry
file_b = record { full_name = 100 ∷ 47 ∷ 98 ∷ []; name = 98 ∷ []; mod_time = 5; is_dir = false }

files_dirs_lem_example :
    (fs : List Entry) × (ds : List Entry) × (files_of {X = ℕ} false
        (ok (root ∷ sub_dir ∷ file_a ∷ file_b ∷ []))
      ≡ ok fs)
    × (dirs_of {X = ℕ} (100 ∷ []) false (ok (root ∷ sub_dir ∷ file_a ∷ file_b ∷ [])) ≡ ok ds)
    × Permᴰ (fs ++ ds) (sub_dir ∷ file_a ∷ file_b ∷ [])
    × AllDirs false fs
    × AllDirs true ds
    × InOrder fs
    × InOrder ds
files_dirs_lem_example =
    files_dirs_lem root (sub_dir ∷ file_a ∷ file_b ∷ []) refl (refl, (refl, (refl, tt)))

files_test :
    files_of {X = ℕ} false (ok (root ∷ sub_dir ∷ file_a ∷ file_b ∷ [])) ≡ ok (file_b ∷ file_a ∷ [])
unfolding files_of
files_test = refl
