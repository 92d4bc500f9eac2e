-- ===== src/File/Write.antt =====
-- pkg/ioutil/ioutil.go: the functions that make and write files. The disk is a map from files to
-- contents. What the operating system refuses, and which file a path names, are inputs.
pub mod Tests
use goico.Shared.{
  ℕ, ◌≡◌, refl, ap, ◌∙◌, Bool, true, false, not, Option, none, some, List, [], ◌++◌, arith,
  if◌then◌else◌,
}
use goico.Shared.GoMap.{GoMap, lookup, put, lookup-put}
use goico.Shared.Key.{bytes_beq_iff, bytes_keys, ◌==◌}
use goico.Shared.Result.{Result, ok, err}

abbrev pub Disk : Type 0
Disk = GoMap (List ℕ) (List ℕ)

-- The errors of `write`, each joined with that of the system
pub data WriteError (X : Type 0) : Type 0 where
  creating : X → WriteError X
  writing : X → WriteError X
  flushing : X → WriteError X
  closing : X → WriteError X
  checking : X → WriteError X

-- What Stat, Create, Write, Flush and Close return, and the bytes that reach the file if a write or the
-- flush fails.
pub record Faults (X : Type 0) : Type 0 where
  pub stat : Option X
  pub create : Option X
  pub write : Option X
  pub flush : Option X
  pub close : Option X
  pub reached : List ℕ

-- `filepath.Clean` and `filepath.Join`, and which file of the disk a path names
pub record Paths : Type 0 where
  pub clean : List ℕ → List ℕ
  pub join : List ℕ → List ℕ → List ℕ
  pub file_at : List ℕ → List ℕ

module _ {X : Type 0} (paths : Paths) (faults : Faults X) where
  open paths use {clean, join, file_at}

  -- `FileExists`
  unfoldable pub file_exists : List ℕ → Disk → Result X Bool
  file_exists path disk = elim faults.stat [
    | some x ↦ err x
    | none ↦ ok (elim (lookup (file_at path) disk) [ none ↦ false | some _ ↦ true ])
  ]

  -- The deferred Close of `write`, whose error takes the place of the result
  abbrev closed : Option (WriteError X) → Option (WriteError X)
  closed result = elim faults.close [ none ↦ result | some x ↦ some (closing x) ]

  -- `write`, once the file is created, which empties it
  unfoldable pub write_created : List ℕ → List ℕ → Disk → Option (WriteError X) × Disk
  write_created path bytes disk = elim faults.write [
    | some x ↦ (closed (some (writing x)), put (file_at path) faults.reached disk)
    | none ↦ elim faults.flush [
      | some x ↦ (closed (some (flushing x)), put (file_at path) faults.reached disk)
      | none ↦ (closed none, put (file_at path) bytes disk)
    ]
  ]

  -- `write`
  unfoldable pub write : List ℕ → List ℕ → Disk → Option (WriteError X) × Disk
  unfolding write_created
  write path bytes disk = elim faults.create [
    | some x ↦ (some (creating x), disk)
    | none ↦ let file = clean path in write_created file bytes (put (file_at file) [] disk)
  ]

  -- `Touch`
  unfoldable pub touch : List ℕ → Disk → Option (WriteError X) × Disk
  unfolding file_exists write
  touch path disk = elim (file_exists path disk) [
    | err x ↦ (some (checking x), disk)
    | ok e ↦ if not e then write path [] disk else (none, disk)
  ]

  -- `randomFileName`, where the encoded random bytes are an input
  unfoldable pub random_file_name : Result X (List ℕ) → List ℕ → List ℕ → Result X (List ℕ)
  random_file_name rs preffix suffix = elim rs [
    | err x ↦ err x
    | ok s ↦ ok (preffix ++ s ++ suffix)
  ]

  -- `WriteToRandomFile`
  unfoldable pub write_to_random_file :
      Result X (List ℕ)
      → List ℕ
      → List ℕ
      → List ℕ
      → List ℕ
      → Disk
      → Result (WriteError X) (List ℕ) × Disk
  unfolding random_file_name write
  write_to_random_file rs path preffix suffix bytes disk =
      elim (random_file_name rs preffix suffix) [
        | err x ↦ (err (checking x), disk)
        | ok fn ↦
            let full = join (clean path) (clean fn) in
            let (e, disk') = write full bytes disk in
            (elim e [ none ↦ ok full | some x ↦ err x ], disk')
      ]

-- No call of the system fails.
pub record IsFaultless {X : Type 0} (faults : Faults X) : Type 0 where
  pub stat_ok : faults.stat ≡ none
  pub create_ok : faults.create ≡ none
  pub write_ok : faults.write ≡ none
  pub flush_ok : faults.flush ≡ none
  pub close_ok : faults.close ≡ none

-- The cleaned path names the same file.
abbrev pub CleansTo : Paths → List ℕ → Type 0
CleansTo paths path = paths.file_at (paths.clean path) ≡ paths.file_at path

written :
    {X : Type 0} (paths : Paths) (faults : Faults X) (path bytes : List ℕ) (disk : Disk)
    → IsFaultless faults
    → CleansTo paths path
    → write paths faults path bytes disk
      ≡ (none, put (paths.file_at path) bytes (put (paths.file_at path) [] disk))
unfolding write write_created
written paths faults path bytes disk f same =
    let made : write paths faults path bytes disk ≡ (
      none,
      put (paths.file_at (paths.clean path)) bytes (put (paths.file_at (paths.clean path)) [] disk),
    ) =
      ground (arith, f.create_ok, f.write_ok, f.flush_ok, f.close_ok) in
    made ∙ ap (λ file. (none, put file bytes (put file [] disk))) same

lookup-written :
    (file other bytes : List ℕ) (disk : Disk)
    → lookup other (put file bytes (put file [] disk))
      ≡ (if file == other then some bytes else lookup other disk)
lookup-written file other bytes disk =
    ground (arith, lookup-put file other bytes (put file [] disk), lookup-put file other [] disk)

-- Where no call of the system fails, and the cleaned paths name the files that the paths name: Touch
-- leaves a file that exists as it is and makes an empty one otherwise, and WriteToRandomFile returns
-- the path at which the bytes then are; neither changes another file.
pub touch_lem :
    {X : Type 0} (paths : Paths) (faults : Faults X) (path other s preffix suffix bytes : List ℕ)
    (disk : Disk)
    → IsFaultless faults
    → CleansTo paths path
    → CleansTo paths (paths.join (paths.clean path) (paths.clean (preffix ++ s ++ suffix)))
    → let full = paths.join (paths.clean path) (paths.clean (preffix ++ s ++ suffix)) in
      ((touch paths faults path disk).0 ≡ none)
      × (lookup other (touch paths faults path disk).1 ≡ (
          if paths.file_at path == other
          then (elim (lookup (paths.file_at path) disk) [ none ↦ some [] | some old ↦ some old ])
          else lookup other disk))
      × ((write_to_random_file paths faults (ok s) path preffix suffix bytes disk).0 ≡ ok full)
      × (lookup other (write_to_random_file paths faults (ok s) path preffix suffix bytes disk).1
          ≡ (if paths.file_at full == other then some bytes else lookup other disk))
unfolding write_to_random_file random_file_name
touch_lem {X} paths faults path other s preffix suffix bytes disk f same same_full =
    let full = paths.join (paths.clean path) (paths.clean (preffix ++ s ++ suffix)) in
    let file = paths.file_at full in
    let random : write_to_random_file paths faults (ok s) path preffix suffix bytes disk
        ≡ (ok full, put file bytes (put file [] disk)) =
      ap
        (λ (p : Option (WriteError X) × Disk). (
          elim p.0 as (λ x. Result (WriteError X) (List ℕ)) [ none ↦ ok full | some x ↦ err x ],
          p.1,
        ))
        (written paths faults full bytes disk f same_full) in
    let (fine, content) = touched (lookup (paths.file_at path) disk) refl in
    (
      fine,
      content,
      ap (λ (p : Result (WriteError X) (List ℕ) × Disk). p.0) random,
      ap (λ (p : Result (WriteError X) (List ℕ) × Disk). lookup other p.1) random
          ∙ lookup-written file other bytes disk,
    )
  where
    touched :
        (o : Option (List ℕ))
        → lookup (paths.file_at path) disk ≡ o
        → ((touch paths faults path disk).0 ≡ none)
          × (lookup other (touch paths faults path disk).1 ≡ (
              if paths.file_at path == other
              then (elim (lookup (paths.file_at path) disk) [
                | none ↦ some []
                | some old ↦ some old
              ])
              else lookup other disk))
    touched none h =
        let made : touch paths faults path disk
            ≡ (none, put (paths.file_at path) [] (put (paths.file_at path) [] disk)) =
          unfold touch file_exists in
          ground (arith, f.stat_ok, h, written paths faults path [] disk f same) in
        rw (made, h) (refl, lookup-written (paths.file_at path) other [] disk)
    touched (some old) h =
        let kept : touch paths faults path disk ≡ (none, disk) =
          unfold touch file_exists in ground (arith, f.stat_ok, h) in
        rw (kept, h) (refl, ground (arith, bytes_beq_iff (paths.file_at path) other, h))
