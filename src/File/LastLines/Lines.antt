-- ===== src/File/LastLines/Lines.antt =====
-- What `LastLines` (pkg/ioutil/ioutil.go) returns for a file of lines.
use goico.File.LastLines.{
  Line, Options, Scan, started, end_line, scan_byte, scan_back, finish, finish_runes, utf8,
  last_lines, is_newline, remove_crlf,
}
use goico.File.LastLines.Chunks.{last_lines-scan_back, if_true, scan_back-append, scan_back-done}
use goico.Shared.Result.{ok}
use goico.Shared.Int.{pos}
use mathlib.Core.List.{Subset, reverse}
use mathlib.Core.List
use mathlib.Core.Path.{subst}
use goico.Shared.{
  ℕ, suc, ◌-◌, ◌≤◌, ◌<◌, ◌≡◌, refl, sym, ap, ◌∙◌, inl, inr, Bool, true, false, List, [], ◌∷◌, ◌++◌,
  map, arith, eqb, if◌then◌else◌, Bool-cases, length, drop, length-append, drop_all,
}

-- The last n lines, whole and with the empty ones
abbrev pub last : ℕ → Options
last n = record { nlines = pos n; skip_empty = false; noincludecrlf = false }

-- A text without line ends
abbrev pub Plain : List ℕ → Type 0
Plain [] = Unit {0}
Plain (b ∷ text) = (eqb b 10 ≡ false) × (eqb b 13 ≡ false) × Plain text

abbrev pub AllPlain : List (List ℕ) → Type 0
AllPlain [] = Unit {0}
AllPlain (text ∷ texts) = Plain text × AllPlain texts

abbrev pub ended : List ℕ → Line
ended text = text ++ 10 ∷ []

-- The file of these lines, each with its line feed
abbrev pub file_of : List (List ℕ) → List ℕ
file_of [] = []
file_of (text ∷ texts) = text ++ 10 ∷ file_of texts

plain_byte :
    (o : Options) (b : ℕ) (s : Scan)
    → eqb b 10 ≡ false
    → eqb b 13 ≡ false
    → s.done ≡ false
    → scan_byte o b s ≡ record s { curr_line = b ∷ s.curr_line }
unfolding scan_byte
plain_byte o b s a c d = ground arith

-- A line feed ends the line that has been read.
feed :
    (n : ℕ) (acc : List Line) (line : Line)
    → scan_byte
        (last n)
        10
        (record { acc_lines = acc; curr_line = line; first_character = false; done = false })
      ≡ (if eqb n (length (acc ++ line ∷ []))
          then record {
            acc_lines = acc ++ line ∷ [];
            curr_line = line;
            first_character = false;
            done = true;
          }
          else record {
            acc_lines = acc ++ line ∷ [];
            curr_line = 10 ∷ [];
            first_character = false;
            done = false;
          })
unfolding scan_byte end_line remove_crlf
feed n acc line = cases (eqb n (length (acc ++ line ∷ []))) (is_newline line) refl refl
  where
    cases :
        (b c : Bool)
        → eqb n (length (acc ++ line ∷ [])) ≡ b
        → is_newline line ≡ c
        → scan_byte
            (last n)
            10
            (record { acc_lines = acc; curr_line = line; first_character = false; done = false })
          ≡ (if eqb n (length (acc ++ line ∷ []))
              then record {
                acc_lines = acc ++ line ∷ [];
                curr_line = line;
                first_character = false;
                done = true;
              }
              else record {
                acc_lines = acc ++ line ∷ [];
                curr_line = 10 ∷ [];
                first_character = false;
                done = false;
              })
    cases true true h i = rw (h, i) refl
    cases true false h i = rw (h, i) refl
    cases false true h i = rw (h, i) refl
    cases false false h i = rw (h, i) refl

scan_back-Plain :
    (o : Options) (text : List ℕ) (s : Scan)
    → Plain text
    → s.done ≡ false
    → scan_back o text s ≡ record s { curr_line = text ++ s.curr_line }
unfolding scan_back
scan_back-Plain o [] s p d = refl
scan_back-Plain o (b ∷ text) s (a, c, p) d =
    ap (scan_byte o b) (scan_back-Plain o text s p d)
    ∙ plain_byte o b (record s { curr_line = text ++ s.curr_line }) a c d

-- The state after the bytes of these lines, from the last to the first.
pub data Reached (n : ℕ) (text : List ℕ) (texts : List (List ℕ)) (s : Scan) : Type 0 where
  reading :
      length texts < n
      → s ≡ record {
        acc_lines = reverse (map ended texts);
        curr_line = ended text;
        first_character = false;
        done = false;
      }
      → Reached n text texts s
  stopped :
      n ≤ length texts
      → s.done ≡ true
      → s.acc_lines ≡ reverse (map ended (drop (length texts - n) texts))
      → Reached n text texts s

length-reverse : {A : Type 0} (xs : List A) → length (reverse xs) ≡ length xs
length-reverse [] = refl
length-reverse (x ∷ xs) =
    ap length (List.reverse-cons x xs)
    ∙ length-append (reverse xs) (x ∷ [])
    ∙ omega (arith, length-reverse xs)

length-map : {A B : Type 0} (f : A → B) (xs : List A) → length (map f xs) ≡ length xs
length-map f [] = refl
length-map f (x ∷ xs) = ap suc (length-map f xs)

reached_first :
    (n : ℕ) (text : List ℕ)
    → 0 < n
    → Plain text
    → Reached n text [] (scan_back (last n) text (scan_byte (last n) 10 started))
reached_first n text h p = reading h (
    ap (λ s. scan_back (last n) text s) first_feed
    ∙ scan_back-Plain (last n) text
        (record { acc_lines = []; curr_line = 10 ∷ []; first_character = false; done = false }) p
        refl)
  where
    first_feed :
        scan_byte (last n) 10 started
        ≡ record { acc_lines = []; curr_line = 10 ∷ []; first_character = false; done = false }
    first_feed = unfold scan_byte end_line in refl

reached_next :
    (n : ℕ) (before text : List ℕ) (texts : List (List ℕ)) (s : Scan)
    → 0 < n
    → Plain before
    → Reached n text texts s
    → Reached n before (text ∷ texts) (scan_back (last n) before (scan_byte (last n) 10 s))
reached_next n before text texts s h p (reading few eq) =
    rw (eq, feed n (reverse (map ended texts)) (ended text), collected, counted)
      (elim (Bool-cases (eqb n (suc (length texts)))) [
        | inl enough ↦ rw enough (
            rw
              (scan_back-done (last n) before
                (record {
                  acc_lines = reverse (map ended (text ∷ texts));
                  curr_line = ended text;
                  first_character = false;
                  done = true;
                })
                refl)
              (stopped (ground (arith, enough)) refl (
                ap (λ k. reverse (map ended (drop k (text ∷ texts)))) {x = 0}
                  {y = suc (length texts) - n} (ground (arith, enough)))))
        | inr more ↦ rw more (
            reading (ground (arith, more, few)) (
              scan_back-Plain (last n) before
                (record {
                  acc_lines = reverse (map ended (text ∷ texts));
                  curr_line = 10 ∷ [];
                  first_character = false;
                  done = false;
                })
                p refl))
      ])
  where
    collected : reverse (map ended texts) ++ ended text ∷ [] ≡ reverse (map ended (text ∷ texts))
    collected = sym (List.reverse-cons (ended text) (map ended texts))

    counted : length (reverse (map ended (text ∷ texts))) ≡ suc (length texts)
    counted = length-reverse (map ended (text ∷ texts)) ∙ ap suc (length-map ended texts)
reached_next n before text texts s h p (stopped many d acc) =
    rw (byte_done, scan_back-done (last n) before s d)
      (stopped (omega (arith, many)) d (
        acc
        ∙ ap (λ k. reverse (map ended (drop k (text ∷ texts)))) {x = suc (length texts - n)}
            {y = suc (length texts) - n} (omega (arith, many))))
  where
    byte_done : scan_byte (last n) 10 s ≡ s
    byte_done = unfold scan_byte in rw d refl

file_step :
    (n : ℕ) (text : List ℕ) (texts : List (List ℕ))
    → scan_back (last n) (file_of (text ∷ texts)) started
      ≡ scan_back (last n) text (scan_byte (last n) 10 (scan_back (last n) (file_of texts) started))
unfolding scan_back
file_step n text texts = scan_back-append (last n) text (10 ∷ file_of texts) started

reached :
    (n : ℕ) (text : List ℕ) (texts : List (List ℕ))
    → 0 < n
    → AllPlain (text ∷ texts)
    → Reached n text texts (scan_back (last n) (file_of (text ∷ texts)) started)
unfolding scan_back
reached n text [] h (p, u) =
    subst (λ s. Reached n text [] s) (sym (file_step n text [])) (reached_first n text h p)
reached n text (next ∷ texts) h (p, ps) =
    subst (λ s. Reached n text (next ∷ texts) s) (sym (file_step n text (next ∷ texts)))
      (reached_next n text next texts (scan_back (last n) (file_of (next ∷ texts)) started) h p
        (reached n next texts h ps))

finish_runes-Reached :
    (n : ℕ) (text : List ℕ) (texts : List (List ℕ)) (s : Scan)
    → Reached n text texts s
    → finish_runes (last n) s ≡ map ended (drop (suc (length texts) - n) (text ∷ texts))
unfolding finish_runes remove_crlf
finish_runes-Reached n text texts s (reading few eq) =
    ap (λ s. finish_runes (last n) s) eq
    ∙ whole text (reverse (map ended texts))
    ∙ ap reverse (sym (List.reverse-cons (ended text) (map ended texts)))
    ∙ List.reverse-reverse (map ended (text ∷ texts))
    ∙ ap (λ k. map ended (drop k (text ∷ texts))) {x = 0} {y = suc (length texts) - n}
        (omega (arith, few))
  where
    whole :
        (text : List ℕ) (acc : List Line)
        → finish_runes (last n) (record {
          acc_lines = acc;
          curr_line = ended text;
          first_character = false;
          done = false;
        })
          ≡ reverse (acc ++ ended text ∷ [])
    whole [] acc = refl
    whole (b ∷ text) acc = refl
finish_runes-Reached n text texts s (stopped many d acc) =
    if_true _ _ _ d
    ∙ ap reverse acc
    ∙ List.reverse-reverse _
    ∙ ap (λ k. map ended (drop k (text ∷ texts))) {x = suc (length texts - n)}
        {y = suc (length texts) - n} (omega (arith, many))

-- The first line end that is met, from the end of the file, drops what was read before it.
first_line :
    (o : Options) (line : Line)
    → scan_byte o 10
        (record { acc_lines = []; curr_line = line; first_character = true; done = false })
      ≡ record { acc_lines = []; curr_line = 10 ∷ []; first_character = false; done = false }
unfolding scan_byte end_line
first_line o line = go (is_newline line) refl
  where
    go :
        (c : Bool)
        → is_newline line ≡ c
        → scan_byte o 10
            (record { acc_lines = []; curr_line = line; first_character = true; done = false })
          ≡ record { acc_lines = []; curr_line = 10 ∷ []; first_character = false; done = false }
    go true i = rw i refl
    go false i = rw i refl

-- Bytes after the last line feed are dropped, if there is a line feed at all and no carriage return in
-- them: LastLines returns what it would without them.
pub last_lines-unfinished :
    (o : Options) (file tail : List ℕ)
    → Plain tail
    → last_lines o (file ++ 10 ∷ tail) ≡ last_lines o (file ++ 10 ∷ [])
last_lines-unfinished o file tail p =
    last_lines-scan_back o (file ++ 10 ∷ tail)
    ∙ ap (λ s. ok (finish o s))
        (scan_back-append o file (10 ∷ tail) started
          ∙ ap (λ s. scan_back o file s) (first_feed o tail p)
          ∙ sym (scan_back-append o file (10 ∷ []) started))
    ∙ sym (last_lines-scan_back o (file ++ 10 ∷ []))
  where
    first_feed :
        (o : Options) (tail : List ℕ)
        → Plain tail
        → scan_back o (10 ∷ tail) started ≡ scan_back o (10 ∷ []) started
    first_feed o tail p =
        unfold scan_back in
        (ap (λ s. scan_byte o 10 s) (scan_back-Plain o tail started p refl)
          ∙ first_line o (tail ++ [])
          ∙ sym (first_line o []))

-- A line as it is returned
abbrev pub encoded : List ℕ → List ℕ
encoded text = utf8 (ended text)

map-encoded : (texts : List (List ℕ)) → map utf8 (map ended texts) ≡ map encoded texts
map-encoded [] = refl
map-encoded (text ∷ texts) = ap (λ ls. encoded text ∷ ls) (map-encoded texts)

-- Of a file of lines without carriage returns, each ended by a line feed, LastLines with a positive
-- count that keeps the empty lines and the line ends returns the last lines, that many or all, in
-- their order, each with its bytes read as the numbers of characters and encoded in UTF-8.
pub last_lines-drop :
    (n : ℕ) (texts : List (List ℕ))
    → 0 < n
    → AllPlain texts
    → last_lines (last n) (file_of texts) ≡ ok (map encoded (drop (length texts - n) texts))
last_lines-drop n [] h p =
    last_lines-scan_back (last n) []
    ∙ ap ok (
        unfold scan_back finish_runes finish in
        ap (map encoded) (sym (drop_all (0 - n) [] (omega arith))))
last_lines-drop n (text ∷ texts) h p =
    last_lines-scan_back (last n) (file_of (text ∷ texts))
    ∙ ap ok (
        unfold finish in
        (ap (map utf8) (finish_runes-Reached n text texts _ (reached n text texts h p))
          ∙ map-encoded (drop (suc (length texts) - n) (text ∷ texts))))
