-- ===== src/File/Listing/Kinds.antt =====
-- What Files and Dirs of pkg/ioutil/ioutil.go find under a directory.
use goico.Shared.{ℕ, ◌≡◌, refl, inl, inr, Bool, true, false, List, [], ◌∷◌, ◌++◌, ltb, Bool-cases}
use mathlib.Core.List.{Permᴰ}
use mathlib.Core.List.Permᴰ
use goico.Shared.Key.{◌==◌, bytes_keys, ==-refl}
use goico.Shared.Result.{ok}
use goico.File.Oldest.{Entry, insert, sort_by_time}
use goico.File.Oldest.Order.{InOrder, sort_by_time-Permᴰ, sort_by_time-InOrder}
use goico.File.Listing.{filtered, is_file, is_below, files, files_of, dirs_of}

-- The entries are directories, or none is.
abbrev pub AllDirs : Bool → List Entry → Type 0
AllDirs b [] = Unit {0}
AllDirs b (e ∷ es) = (e.is_dir ≡ b) × AllDirs b es

-- No entry has this path.
abbrev pub Below : List ℕ → List Entry → Type 0
Below path [] = Unit {0}
Below path (e ∷ es) = ((e.full_name == path) ≡ false) × Below path es

insert-AllDirs :
    (b : Bool) (e : Entry) (es : List Entry) → e.is_dir ≡ b → AllDirs b es → AllDirs b (insert e es)
unfolding insert
insert-AllDirs b e [] k ks = (k, tt)
insert-AllDirs b e (f ∷ fs) k ks = elim (Bool-cases (ltb f.mod_time e.mod_time)) [
  | inl later ↦ rw later (ks.0, insert-AllDirs b e fs k ks.1)
  | inr here ↦ rw here (k, ks)
]

sort_by_time-AllDirs : (b : Bool) (es : List Entry) → AllDirs b es → AllDirs b (sort_by_time es)
unfolding sort_by_time
sort_by_time-AllDirs b [] ks = tt
sort_by_time-AllDirs b (e ∷ es) ks =
    insert-AllDirs b e (sort_by_time es) ks.0 (sort_by_time-AllDirs b es ks.1)

-- The two filters share the entries below the directory out.
filtered-shared :
    (path : List ℕ) (es : List Entry)
    → Below path es
    → Permᴰ (filtered is_file es ++ filtered (is_below path) es) es
      × AllDirs false (filtered is_file es)
      × AllDirs true (filtered (is_below path) es)
unfolding filtered
filtered-shared path [] below = (Permᴰ.nil, tt, tt)
filtered-shared path (e ∷ es) below =
    let (share, none_dirs, all_dirs) = filtered-shared path es below.1 in
    elim (Bool-cases e.is_dir) [
      | inl dir ↦
          simp (dir, below.0)
            (
              Permᴰ.trans (Permᴰ.middle e (filtered is_file es) (filtered (is_below path) es))
                  (Permᴰ.cons refl share),
              none_dirs,
              (refl, all_dirs),
            )
      | inr file ↦ simp (file, below.0) (Permᴰ.cons refl share, (refl, none_dirs), all_dirs)
    ]

-- Of a directory that exists and can be walked, Files and Dirs return each entry below it once, Files
-- those that are no directories and Dirs the directories, both from the oldest on. The walk starts
-- with the directory itself, and no entry below has its path.
pub files_dirs_lem :
    {X : Type 0} (root : Entry) (es : List Entry)
    → root.is_dir ≡ true
    → Below root.full_name es
    → (fs : List Entry) × (ds : List Entry) × (files_of {X = X} false (ok (root ∷ es)) ≡ ok fs)
      × (dirs_of {X = X} root.full_name false (ok (root ∷ es)) ≡ ok ds)
      × Permᴰ (fs ++ ds) es
      × AllDirs false fs
      × AllDirs true ds
      × InOrder fs
      × InOrder ds
unfolding files_of dirs_of files filtered
files_dirs_lem root es dir below =
    let (share, none_dirs, all_dirs) = filtered-shared root.full_name es below in
    let fs = filtered is_file es in
    let ds = filtered (is_below root.full_name) es in
    (
      sort_by_time fs,
      sort_by_time ds,
      simp (dir),
      simp (==-refl root.full_name),
      Permᴰ.trans (Permᴰ.append_right (sort_by_time ds) (sort_by_time-Permᴰ fs))
          (Permᴰ.trans (Permᴰ.append_left fs (sort_by_time-Permᴰ ds)) share),
      sort_by_time-AllDirs false fs none_dirs,
      sort_by_time-AllDirs true ds all_dirs,
      sort_by_time-InOrder fs,
      sort_by_time-InOrder ds,
    )
