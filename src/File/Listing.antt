-- ===== src/File/Listing.antt =====
-- pkg/ioutil/ioutil.go: Files and Dirs, the entries under a directory. What Stat and WalkDir find is
-- an input; Info of an entry is taken to succeed.
pub mod Kinds
pub mod Tests
use goico.Shared.{
  ℕ, zero, suc, ◌+◌, ◌-◌, ◌%◌, ◌≤◌, ◌<◌, ◌≡◌, refl, sym, ap, ◌∙◌, ◌≢◌, ◌↔◌, ◌⊎◌, inl, inr, Bool,
  true, false, not, ◌&&◌, ◌||◌, Option, none, some, List, [], ◌∷◌, ◌++◌, map, arith, ltb, leb, eqb,
  eqb_iff, lt→ltb, if◌then◌else◌, Bool-cases, Option-cases, length, get_or, set, take, drop,
  replicate, copy_at, copy_at_next, length-append, length-set, length-drop, length-take,
  length-replicate, take-length, drop_all, copy_at_last,
}
use goico.Shared.Key.{◌==◌, bytes_keys}
use goico.Shared.Result.{Result, ok, err}
use goico.File.Oldest.{Entry, FileError, getting_files, sort_by_time}

-- The callback of the walk: the entries that the filter takes
unfoldable pub filtered : (Entry → Bool) → List Entry → List Entry
filtered filter [] = []
filtered filter (e ∷ es) = let rest = filtered filter es in if filter e then e ∷ rest else rest

-- The filter of `Files`
abbrev pub is_file : Entry → Bool
is_file e = not e.is_dir

-- The filter of `Dirs`: the directory itself is left out.
abbrev pub is_below : List ℕ → Entry → Bool
is_below path_dir e = if e.full_name == path_dir then false else e.is_dir

module _ {X : Type 0} where
  -- `files`; `missing` says that the path does not exist, `walked` is what the walk visits.
  unfoldable pub files :
      Bool → Result X (List Entry) → (Entry → Bool) → Result (FileError X) (List Entry)
  unfolding filtered sort_by_time
  files missing walked filter = if missing then ok [] else (elim walked [
    | err x ↦ err (getting_files x)
    | ok es ↦ ok (sort_by_time (filtered filter es))
  ])

  -- `Files`
  unfoldable pub files_of : Bool → Result X (List Entry) → Result (FileError X) (List Entry)
  unfolding files
  files_of missing walked = files missing walked is_file

  -- `Dirs`
  unfoldable pub dirs_of : List ℕ → Bool → Result X (List Entry) → Result (FileError X) (List Entry)
  unfolding files
  dirs_of path_dir missing walked = files missing walked (is_below path_dir)
