-- ===== src/File/Oldest.antt =====
-- pkg/ioutil/ioutil.go: the oldest files of a directory. What Stat, WalkDir and ReadFile find is an
-- input; a time of modification is in seconds, as the source compares it.
pub mod Matching
pub mod Order
pub mod Tests
use goico.Shared.{
  ℕ, Bool, true, false, ◌&&◌, Option, none, some, List, [], ◌∷◌, ltb, eqb, if◌then◌else◌, length,
  take,
}
use goico.Shared.Int.{ℤ, pos, negsuc}
use goico.Shared.Result.{Result, ok, err}
use goico.Shared.Outcome.{Outcome, returns, panics, ◌>>=◌}
use mathlib.Core.List.{reverse}

-- `file`: the path, with the name, the time and the kind of its entry
pub record Entry : Type 0 where
  pub full_name : List ℕ
  pub name : List ℕ
  pub mod_time : ℕ
  pub is_dir : Bool

-- "error getting files", or what ReadFile returns
pub data FileError (X : Type 0) : Type 0 where
  getting_files : X → FileError X
  reading : X → FileError X

-- `strings.HasPrefix`
unfoldable pub has_prefix : List ℕ → List ℕ → Bool
has_prefix [] s = true
has_prefix (p ∷ ps) [] = false
has_prefix (p ∷ ps) (x ∷ s) = eqb p x && has_prefix ps s

-- `strings.HasSuffix`
unfoldable pub has_suffix : List ℕ → List ℕ → Bool
unfolding has_prefix
has_suffix p s = has_prefix (reverse p) (reverse s)

abbrev pub is_match : List ℕ → List ℕ → Entry → Bool
is_match preffix suffix e = has_prefix preffix e.name && has_suffix suffix e.name

-- The callback of the walk: the entries that match
unfoldable pub matching : List ℕ → List ℕ → List Entry → List Entry
matching preffix suffix [] = []
matching preffix suffix (e ∷ es) =
    let rest = matching preffix suffix es in if is_match preffix suffix e then e ∷ rest else rest

-- `sort.Slice` by the time; for equal times Go leaves the order open
unfoldable pub insert : Entry → List Entry → List Entry
insert e [] = e ∷ []
insert e (f ∷ fs) =
    let rest = insert e fs in if ltb f.mod_time e.mod_time then f ∷ rest else e ∷ f ∷ fs

unfoldable pub sort_by_time : List Entry → List Entry
unfolding insert
sort_by_time [] = []
sort_by_time (e ∷ es) = insert e (sort_by_time es)

module _ {X : Type 0} where
  -- `filesSorted`; `missing` says that the path does not exist, `walked` is what the walk visits.
  unfoldable pub files_sorted :
      Bool → Result X (List Entry) → List ℕ → List ℕ → Result (FileError X) (List Entry)
  unfolding matching sort_by_time
  files_sorted missing walked preffix suffix = if missing then ok [] else (elim walked [
    | err x ↦ err (getting_files x)
    | ok es ↦ ok (sort_by_time (matching preffix suffix es))
  ])

  abbrev top : ℤ → List Entry → Outcome (Result (FileError X) (List Entry))
  top (pos n) fs = if ltb (length fs) n then returns (ok fs) else returns (ok (take n fs))
  top (negsuc n) fs = panics

  -- `topNfilesSorted`: a slice up to a negative index panics
  unfoldable pub top_n_files_sorted :
      Bool
      → Result X (List Entry)
      → List ℕ
      → List ℕ
      → ℤ
      → Outcome (Result (FileError X) (List Entry))
  unfolding files_sorted
  top_n_files_sorted missing walked preffix suffix n =
      elim (files_sorted missing walked preffix suffix) [
        | err x ↦ returns (err x)
        | ok fs ↦ top n fs
      ]

  -- The loop of `ReadOldestFiles`
  unfoldable pub read_each :
      (List ℕ → Result X (List ℕ)) → List Entry → Result (FileError X) (List (List ℕ × List ℕ))
  read_each read_file [] = ok []
  read_each read_file (f ∷ fs) =
      let rest = read_each read_file fs in
      elim (read_file f.full_name) [
        | err x ↦ err (reading x)
        | ok bytes ↦ elim rest [ err x ↦ err x | ok files ↦ ok ((f.full_name, bytes) ∷ files) ]
      ]

  -- `ReadOldestFiles`: names and contents
  unfoldable pub read_oldest_files :
      (List ℕ → Result X (List ℕ))
      → Bool
      → Result X (List Entry)
      → List ℕ
      → List ℕ
      → ℤ
      → Outcome (Result (FileError X) (List (List ℕ × List ℕ)))
  unfolding top_n_files_sorted read_each
  read_oldest_files read_file missing walked preffix suffix n = do
    found ← top_n_files_sorted missing walked preffix suffix n
    elim found [ err x ↦ returns (err x) | ok fs ↦ returns (read_each read_file fs) ]

  -- `ReadOldestFile`
  unfoldable pub read_oldest_file :
      (List ℕ → Result X (List ℕ))
      → Bool
      → Result X (List Entry)
      → List ℕ
      → List ℕ
      → Outcome (Result (FileError X) (Option (List ℕ × List ℕ)))
  unfolding read_oldest_files
  read_oldest_file read_file missing walked preffix suffix = do
    files ← read_oldest_files read_file missing walked preffix suffix (pos 1)
    elim files [
      | err x ↦ returns (err x)
      | ok [] ↦ returns (ok none)
      | ok (f ∷ fs) ↦ returns (ok (some f))
    ]
