-- ===== src/File/Oldest/Order.antt =====
-- Which files `ReadOldestFiles` (pkg/ioutil/ioutil.go) reads, and in which order.
use goico.File.Oldest.Matching.{
  AllMatch, NoneMatches, unmatched, matching_lem, sort_by_time-AllMatch,
}
use goico.File.Oldest.{
  Entry, FileError, matching, insert, sort_by_time, files_sorted, top_n_files_sorted, read_each,
  read_oldest_files,
}
use goico.Shared.{
  take_all, min, take-append-drop, ℕ, suc, ◌≤◌, ◌≡◌, refl, sym, ap, ◌∙◌, inl, inr, false, List, [],
  ◌∷◌, ◌++◌, arith, ltb, if◌then◌else◌, Bool-cases, length, take, drop, length-take,
}
use goico.Shared.Int.{pos}
use goico.Shared.Result.{Result, ok, err}
use goico.Shared.Outcome.{Outcome, returns, ◌>>=◌}
use mathlib.Core.List.{Permᴰ}
use mathlib.Core.List.Permᴰ

-- No entry is newer than the one after it.
abbrev pub InOrder : List Entry → Type 0
InOrder [] = Unit {0}
InOrder (e ∷ []) = Unit {0}
InOrder (e ∷ f ∷ fs) = (e.mod_time ≤ f.mod_time) × InOrder (f ∷ fs)

insert-Permᴰ : (e : Entry) (fs : List Entry) → Permᴰ (insert e fs) (e ∷ fs)
unfolding insert
insert-Permᴰ e [] = Permᴰ.refl (e ∷ [])
insert-Permᴰ e (f ∷ fs) = elim (Bool-cases (ltb f.mod_time e.mod_time)) [
  | inl later ↦ rw later (Permᴰ.trans (Permᴰ.cons refl (insert-Permᴰ e fs)) (Permᴰ.swap refl refl))
  | inr here ↦ rw here (Permᴰ.refl (e ∷ f ∷ fs))
]

pub sort_by_time-Permᴰ : (es : List Entry) → Permᴰ (sort_by_time es) es
unfolding sort_by_time
sort_by_time-Permᴰ [] = Permᴰ.nil
sort_by_time-Permᴰ (e ∷ es) =
    Permᴰ.trans (insert-Permᴰ e (sort_by_time es)) (Permᴰ.cons refl (sort_by_time-Permᴰ es))

insert-InOrder : (e : Entry) (fs : List Entry) → InOrder fs → InOrder (insert e fs)
unfolding insert
insert-InOrder e [] s = tt
insert-InOrder e (f ∷ []) s = ground arith
insert-InOrder e (f ∷ g ∷ fs) s = ground (arith, insert-InOrder e (g ∷ fs) s.1)

pub sort_by_time-InOrder : (es : List Entry) → InOrder (sort_by_time es)
unfolding sort_by_time
sort_by_time-InOrder [] = tt
sort_by_time-InOrder (e ∷ es) = insert-InOrder e (sort_by_time es) (sort_by_time-InOrder es)

length-Permᴰ : {A : Type 0} {xs ys : List A} → Permᴰ xs ys → length xs ≡ length ys
length-Permᴰ Permᴰ.nil = refl
length-Permᴰ (Permᴰ.cons e p) = ap suc (length-Permᴰ p)
length-Permᴰ (Permᴰ.swap e f) = refl
length-Permᴰ (Permᴰ.trans p q) = length-Permᴰ p ∙ length-Permᴰ q

-- Of a directory that exists and can be walked, ReadOldestFiles with a count n reads the n oldest of
-- the entries whose names have the prefix and the suffix, or all of them if they are fewer, from the
-- oldest on: with the matching entries that it leaves they stand in the order of their times, and
-- with those and the entries that do not match they are the entries of the walk, each once.
pub read_oldest_files_lem :
    {X : Type 0} (read_file : List ℕ → Result X (List ℕ)) (es : List Entry)
    (preffix suffix : List ℕ) (n : ℕ)
    → (fs : List Entry) × (left : List Entry) × (others : List Entry) × (read_oldest_files read_file
          false
          (ok es)
          preffix
          suffix
          (pos n)
        ≡ returns (read_each read_file fs))
      × (length fs ≡ min n (length (fs ++ left)))
      × Permᴰ ((fs ++ left) ++ others) es
      × AllMatch preffix suffix (fs ++ left)
      × NoneMatches preffix suffix others
      × InOrder (fs ++ left)
unfolding read_oldest_files top_n_files_sorted files_sorted
read_oldest_files_lem {X} read_file es preffix suffix n =
    let found = matching preffix suffix es in
    let sorted = sort_by_time found in
    let (share, all_match, none_match) = matching_lem preffix suffix es in
    let whole = take-append-drop n sorted in
    (
      take n sorted,
      drop n sorted,
      unmatched preffix suffix es,
      ap (λ r. r >>= continued) (taken (sort_by_time found)),
      length-take n sorted ∙ ap (λ l. min n (length l)) (sym whole),
      rw whole (
          Permᴰ.trans (Permᴰ.append_right (unmatched preffix suffix es) (sort_by_time-Permᴰ found))
            share),
      rw whole (sort_by_time-AllMatch preffix suffix found all_match),
      none_match,
      rw whole (sort_by_time-InOrder found),
    )
  where
    continued :
        Result (FileError X) (List Entry) → Outcome (Result (FileError X) (List (List ℕ × List ℕ)))
    continued (err x) = returns (err x)
    continued (ok fs) = returns (read_each read_file fs)

    taken :
        (fs : List Entry)
        → ◌≡◌ {A = Outcome (Result (FileError X) (List Entry))}
            (if ltb (length fs) n then returns (ok fs) else returns (ok (take n fs)))
            (returns (ok (take n fs)))
    taken fs = elim (Bool-cases (ltb (length fs) n)) [
      | inl few ↦ rw few (ap (λ l. returns (ok l)) (sym (take_all n fs (ground (arith, few)))))
      | inr enough ↦ rw enough refl
    ]
