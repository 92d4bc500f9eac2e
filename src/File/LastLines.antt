-- ===== src/File/LastLines.antt =====
-- pkg/ioutil/ioutil.go: `LastLines`, which reads a file backwards in chunks. A file is its bytes; each
-- Seek and Read succeeds where the operating system allows it. The strings that the loop builds are
-- lists of runes, which are encoded in UTF-8 when they are returned.
pub mod Chunks
pub mod Lines
pub mod Tests
use goico.Shared.{
  ◌/◌, ℕ, zero, suc, ◌+◌, ◌-◌, ◌%◌, ◌≤◌, ◌<◌, ◌≡◌, refl, sym, ap, ◌∙◌, ◌≢◌, ◌↔◌, ◌⊎◌, inl, inr,
  Bool, true, false, not, ◌&&◌, ◌||◌, Option, none, some, List, [], ◌∷◌, ◌++◌, map, arith, ltb, leb,
  eqb, eqb_iff, lt→ltb, if◌then◌else◌, Bool-cases, Option-cases, length, get_or, set, take, drop,
  replicate, copy_at, copy_at_next, length-append, length-set, length-drop, length-take,
  length-replicate, take-length, drop_all, copy_at_last,
}
use goico.Shared.Int.{ℤ, pos, negsuc}
use goico.Shared.Result.{Result, ok, err}
use mathlib.Core.List.{reverse}
use goico.Shared.Key.{bytes_keys, ◌==◌}

abbrev pub Line : Type 0
Line = List ℕ

-- The white space of `strings.TrimSpace` among the runes of one byte
unfoldable pub is_space : ℕ → Bool
is_space r = (leb 9 r && leb r 13) || eqb r 32 || eqb r 133 || eqb r 160

-- `strings.TrimSpace(line) == ""`
unfoldable pub is_blank_line : Line → Bool
unfolding is_space
is_blank_line [] = true
is_blank_line (r ∷ line) = is_space r && is_blank_line line

abbrev trim_left : Line → Line
trim_left [] = []
trim_left (r ∷ line) = let rest = trim_left line in if is_space r then rest else r ∷ line

-- `strings.TrimSpace`
unfoldable pub trim_space : Line → Line
trim_space line = reverse (trim_left (reverse (trim_left line)))

-- `removeCRLF`
unfoldable pub remove_crlf : Bool → Line → Line
unfolding trim_space
remove_crlf noincludecrlf curr_line = if noincludecrlf then trim_space curr_line else curr_line

-- The parameters of a call, less the file.
pub record Options : Type 0 where
  pub nlines : ℤ
  pub skip_empty : Bool
  pub noincludecrlf : Bool

-- The local variables of the loop over the bytes; `done`: `break loop` has run.
pub record Scan : Type 0 where
  pub acc_lines : List Line
  pub curr_line : Line
  pub first_character : Bool
  pub done : Bool

abbrev pub started : Scan
started = record { acc_lines = []; curr_line = []; first_character = true; done = false }

abbrev pub is_count : ℤ → ℕ → Bool
is_count (pos n) m = eqb n m
is_count (negsuc n) m = false

abbrev pub is_newline : Line → Bool
is_newline line = line == 10 ∷ []

-- The line that has been read is appended, or not
unfoldable pub end_line : Options → Scan → Scan
unfolding is_blank_line remove_crlf
end_line o s =
    if s.first_character
    then record s { first_character = false; curr_line = [] }
    else if o.skip_empty && is_blank_line s.curr_line
    then record s { curr_line = [] }
    else let acc = s.acc_lines ++ remove_crlf o.noincludecrlf s.curr_line ∷ [] in
      if is_count o.nlines (length acc)
      then record s { acc_lines = acc; done = true }
      else record s { acc_lines = acc; curr_line = [] }

-- One byte of the buffer
unfoldable pub scan_byte : Options → ℕ → Scan → Scan
unfolding end_line
scan_byte o b s =
    if s.done
    then s
    else let ends = (eqb b 10 || eqb b 13) && (not (is_newline s.curr_line) || eqb b 10) in
      let s1 = if ends then end_line o s else s in
      if s1.done then s1 else record s1 { curr_line = b ∷ s1.curr_line }

-- The loop over the buffer, from its last byte to its first
unfoldable pub scan_back : Options → List ℕ → Scan → Scan
unfolding scan_byte
scan_back o [] s = s
scan_back o (b ∷ buffer) s = scan_byte o b (scan_back o buffer s)

-- The bytes of a string whose runes came of single bytes: `string(b)` is the UTF-8 encoding of the
-- rune with the number of the byte, which takes two bytes from 0x80 on.
unfoldable pub utf8 : Line → List ℕ
utf8 [] = []
utf8 (r ∷ line) =
    let rest = utf8 line in if ltb r 128 then r ∷ rest else (192 + r / 64) ∷ (128 + r % 64) ∷ rest

-- The lines at the beginning of the file, or after `break loop`, as runes
unfoldable pub finish_runes : Options → Scan → List Line
unfolding remove_crlf
finish_runes o s = if s.done then reverse s.acc_lines else (elim s.curr_line [
  | [] ↦ reverse s.acc_lines
  | r ∷ line ↦ reverse (s.acc_lines ++ remove_crlf o.noincludecrlf (r ∷ line) ∷ [])
])

-- What the function returns then
unfoldable pub finish : Options → Scan → List (List ℕ)
unfolding finish_runes utf8
finish o s = map utf8 (finish_runes o s)

pub data ReadError : Type 0 where
  before_start end_of_file out_of_fuel : ReadError

-- One turn of the outer loop, whose next turn is `again`; `cursor` is the distance from the end and
-- `size` the length of the buffer.
unfoldable pub after_read :
    Options
    → List ℕ
    → ℕ
    → (ℕ → ℕ → Scan → Result ReadError (List Line))
    → ℕ
    → ℕ
    → ℕ
    → List ℕ
    → Scan
    → Result ReadError (List Line)
unfolding scan_back finish
after_read o file buffer_size again cursor size new_offset buffer s =
    let s1 = scan_back o buffer s in
    let at_front = leb new_offset buffer_size in
    let rest =
      again (if at_front then cursor + new_offset else cursor + length buffer)
        (if at_front then new_offset else size) s1 in
    if ltb (length file) cursor
    then err before_start
    else if eqb (length buffer) 0 && ltb 0 size
    then err end_of_file
    else if s1.done || eqb new_offset 0
    then ok (finish o s1)
    else rest

-- The outer loop
unfoldable pub read_loop : Options → List ℕ → ℕ → ℕ → ℕ → ℕ → Scan → Result ReadError (List Line)
unfolding after_read
read_loop o file buffer_size zero cursor size s = err out_of_fuel
read_loop o file buffer_size (suc fuel) cursor size s =
    after_read o file buffer_size (read_loop o file buffer_size fuel) cursor size
      (length file - cursor) (take size (drop (length file - cursor) file)) s

-- `LastLines` on a file that opens: the buffer is of 4096 bytes, or of the size of the file
unfoldable pub last_lines : Options → List ℕ → Result ReadError (List Line)
unfolding read_loop
last_lines o file =
    let buffer_size = if ltb (length file) 4096 then length file else 4096 in
    read_loop o file buffer_size (suc (length file)) buffer_size buffer_size started
