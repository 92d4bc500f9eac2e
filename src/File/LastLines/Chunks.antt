-- ===== src/File/LastLines/Chunks.antt =====
-- `LastLines` (pkg/ioutil/ioutil.go) reads in chunks what one pass over the file would read.
use goico.File.LastLines.{
  after_read, Options, Scan, started, scan_byte, scan_back, finish, read_loop, last_lines,
}
use goico.Shared.Result.{ok}
use goico.Shared.{
  take_all, ℕ, zero, suc, ◌+◌, ◌-◌, ◌≤◌, ◌<◌, ◌≡◌, refl, sym, ap, ◌∙◌, ◌⊎◌, inl, inr, Bool, true,
  false, ◌&&◌, ◌||◌, List, [], ◌∷◌, ◌++◌, arith, ltb, leb, eqb, if◌then◌else◌, Bool-cases, length,
  take, drop, length-drop, length-take, take-length,
}

pub scan_back-append :
    (o : Options) (xs ys : List ℕ) (s : Scan)
    → scan_back o (xs ++ ys) s ≡ scan_back o xs (scan_back o ys s)
unfolding scan_back
scan_back-append o [] ys s = refl
scan_back-append o (x ∷ xs) ys s = ap (scan_byte o x) (scan_back-append o xs ys s)

pub scan_back-done : (o : Options) (xs : List ℕ) (s : Scan) → s.done ≡ true → scan_back o xs s ≡ s
unfolding scan_back scan_byte
scan_back-done o [] s d = refl
scan_back-done o (x ∷ xs) s d = rw (scan_back-done o xs s d) (rw d refl)

take-append : (a b : ℕ) (xs : List ℕ) → take (a + b) xs ≡ take a xs ++ take b (drop a xs)
take-append zero b xs = ap (λ n. take n xs) (omega arith)
take-append (suc a) b [] = take_all (suc a + b) [] (omega arith) ∙ sym (take_all b [] (omega arith))
take-append (suc a) b (x ∷ xs) =
    ap (λ n. take n (x ∷ xs)) {x = suc a + b} {y = suc (a + b)} (omega arith)
    ∙ ap (λ t. x ∷ t) (take-append a b xs)

-- What one turn of the outer loop does, when its reads succeed.
turn :
    (o : Options) (file : List ℕ) (buffer_size fuel offset size cursor : ℕ) (s : Scan)
    → length file ≡ cursor + offset
    → offset + size ≤ length file
    → read_loop o file buffer_size (suc fuel) cursor size s ≡ (
        let s1 = scan_back o (take size (drop offset file)) s in
        if s1.done || eqb offset 0
        then ok (finish o s1)
        else read_loop o file buffer_size fuel
            (if leb offset buffer_size then cursor + offset else cursor + size)
            (if leb offset buffer_size then offset else size)
            s1)
unfolding read_loop
turn o file buffer_size fuel offset size cursor s place fits =
    let at : length file - cursor ≡ offset = omega (arith, place) in
    let len : length (take size (drop offset file)) ≡ size =
      omega (arith, length-take size (drop offset file), length-drop offset file, fits) in
    let inside : ltb (length file) cursor ≡ false = ground (arith, place) in
    let some_read : (eqb size 0 && ltb 0 size) ≡ false = ground arith in
    ap
      (λ n.
        after_read o file buffer_size (read_loop o file buffer_size fuel) cursor size n
          (take size (drop n file)) s)
      at
    ∙ (rw (after_read, len, inside, some_read) refl)

pub if_true : {A : Type 0} (b : Bool) (x y : A) → b ≡ true → (if b then x else y) ≡ x
if_true true x y h = refl
if_true false x y h = absurd (cc)

if_false : {A : Type 0} (b : Bool) (x y : A) → b ≡ false → (if b then x else y) ≡ y
if_false true x y h = absurd (cc)
if_false false x y h = refl

-- With this fuel, the outer loop reads the bytes that are left.
abbrev Reads : Options → List ℕ → ℕ → ℕ → Type 0
Reads o file buffer_size fuel =
    (offset size cursor : ℕ) (s : Scan)
    → length file ≡ cursor + offset
    → offset + size ≤ length file
    → offset < fuel
    → (offset ≡ 0) ⊎ ((size ≡ buffer_size) × (0 < size))
    → read_loop o file buffer_size fuel cursor size s
      ≡ ok (finish o (scan_back o (take (offset + size) file) s))

stopped :
    (o : Options) (file : List ℕ) (offset : ℕ) (s : Scan)
    → (s.done || eqb offset 0) ≡ true
    → scan_back o (take offset file) s ≡ s
unfolding scan_back
stopped o file offset s h = elim (Bool-cases s.done) [
  | inl d ↦ scan_back-done o (take offset file) s d
  | inr d ↦
      let front : offset ≡ 0 = ground (arith, h, d) in ap (λ n. scan_back o (take n file) s) front
]

next_turn :
    (o : Options) (file : List ℕ) (buffer_size fuel offset size cursor : ℕ) (s : Scan)
    → Reads o file buffer_size fuel
    → length file ≡ cursor + offset
    → offset + size ≤ length file
    → offset < suc fuel
    → (offset ≡ 0) ⊎ ((size ≡ buffer_size) × (0 < size))
    → eqb offset 0 ≡ false
    → read_loop o file buffer_size fuel
        (if leb offset buffer_size then cursor + offset else cursor + size)
        (if leb offset buffer_size then offset else size)
        s
      ≡ ok (finish o (scan_back o (take offset file) s))
next_turn o file buffer_size fuel offset size cursor s reads place fits enough full more =
    elim (Bool-cases (leb offset buffer_size)) [
      | inl at_front ↦ rw at_front (
          reads 0 offset (cursor + offset) s (omega (arith, place)) (omega (arith, fits))
            (ground (arith, more, enough)) (inl refl)
          ∙ ap (λ n. ok (finish o (scan_back o (take n file) s))) {x = 0 + offset} {y = offset}
              (omega arith))
      | inr further ↦
          let big : (size ≡ buffer_size) × (0 < size) = ground (arith, full, more) in
          let beyond : buffer_size < offset = ground (arith, further) in
          rw further (
            reads (offset - size) size (cursor + size) s (omega (arith, place, big, beyond))
              (omega (arith, fits, big, beyond)) (omega (arith, enough, big, beyond)) (inr big)
            ∙ ap (λ n. ok (finish o (scan_back o (take n file) s))) {x = offset - size + size}
                {y = offset} (omega (arith, big, beyond)))
    ]

read_loop_lem : (o : Options) (file : List ℕ) (buffer_size fuel : ℕ) → Reads o file buffer_size fuel
read_loop_lem o file buffer_size zero offset size cursor s place fits enough full =
    absurd (omega (arith, enough))
read_loop_lem o file buffer_size (suc fuel) offset size cursor s place fits enough full =
    turn o file buffer_size fuel offset size cursor s place fits
    ∙ go (scan_back o (take size (drop offset file)) s) (read_loop_lem o file buffer_size fuel)
    ∙ ap (λ s. ok (finish o s)) (sym whole)
  where
    whole :
        scan_back o (take (offset + size) file) s
        ≡ scan_back o (take offset file) (scan_back o (take size (drop offset file)) s)
    whole =
        ap (λ xs. scan_back o xs s) (take-append offset size file)
        ∙ scan_back-append o (take offset file) (take size (drop offset file)) s

    go :
        (s1 : Scan)
        → Reads o file buffer_size fuel
        → (if s1.done || eqb offset 0
            then ok (finish o s1)
            else read_loop o file buffer_size fuel
                (if leb offset buffer_size then cursor + offset else cursor + size)
                (if leb offset buffer_size then offset else size)
                s1)
          ≡ ok (finish o (scan_back o (take offset file) s1))
    go s1 reads = elim (Bool-cases (s1.done || eqb offset 0)) [
      | inl stop ↦
          if_true _ _ _ stop ∙ ap (λ s. ok (finish o s)) (sym (stopped o file offset s1 stop))
      | inr on ↦
          if_false _ _ _ on
          ∙ next_turn o file buffer_size fuel offset size cursor s1 reads place fits enough full
              (ground (arith, on))
    ]

-- LastLines ends without an error and returns what one pass over the whole file, from its last byte
-- to its first, gives: neither the size of the file nor the bounds of the chunks matter.
pub last_lines-scan_back :
    (o : Options) (file : List ℕ) → last_lines o file ≡ ok (finish o (scan_back o file started))
unfolding last_lines
last_lines-scan_back o file = elim (Bool-cases (ltb (length file) 4096)) [
  | inl small ↦
      ap (λ n. read_loop o file n (suc (length file)) n n started)
        (if_true _ (length file) 4096 small)
      ∙ (read_loop_lem o file (length file) (suc (length file)) 0 (length file) (length file)
            started (omega arith) (omega arith) (omega arith) (inl refl)
          ∙ ap (λ xs. ok (finish o (scan_back o xs started)))
              (ap (λ n. take n file) {x = 0 + length file} {y = length file} (omega arith)
                ∙ take-length file))
  | inr large ↦
      let many : 4096 ≤ length file = ground (arith, large) in
      ap (λ n. read_loop o file n (suc (length file)) n n started)
        (if_false _ (length file) 4096 large)
      ∙ (read_loop_lem o file 4096 (suc (length file)) (length file - 4096) 4096 4096 started
            (omega (arith, many)) (omega (arith, many)) (omega (arith, many))
            (inr (refl, omega arith))
          ∙ ap (λ xs. ok (finish o (scan_back o xs started)))
              (ap (λ n. take n file) {x = length file - 4096 + 4096} {y = length file}
                  (omega (arith, many))
                ∙ take-length file))
]
