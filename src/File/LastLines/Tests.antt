-- ===== src/File/LastLines/Tests.antt =====
-- Instances of the theorems on `LastLines` (pkg/ioutil/ioutil.go) at small files.
use goico.File.LastLines.{started, scan_back, finish, utf8, last_lines}
use goico.File.LastLines.Chunks.{last_lines-scan_back}
use goico.File.LastLines.Lines.{last, last_lines-drop, last_lines-unfinished}
use goico.Shared.Result.{ok}
use goico.Shared.{ℕ, ◌≡◌, refl, List, [], ◌∷◌, arith}

-- "a", "" and "bc"
abbrev three_lines : List (List ℕ)
three_lines = (97 ∷ []) ∷ [] ∷ (98 ∷ 99 ∷ []) ∷ []

last_lines-scan_back_example :
    last_lines (last 2) (97 ∷ 10 ∷ 98 ∷ [])
    ≡ ok (finish (last 2) (scan_back (last 2) (97 ∷ 10 ∷ 98 ∷ []) started))
last_lines-scan_back_example = last_lines-scan_back (last 2) (97 ∷ 10 ∷ 98 ∷ [])

last_lines-drop_example :
    last_lines (last 2) (97 ∷ 10 ∷ 10 ∷ 98 ∷ 99 ∷ 10 ∷ [])
    ≡ ok ((10 ∷ []) ∷ (98 ∷ 99 ∷ 10 ∷ []) ∷ [])
unfolding utf8
last_lines-drop_example =
    last_lines-drop 2 three_lines (omega arith)
      ((refl, refl, tt), (tt, ((refl, refl, (refl, refl, tt)), tt)))

last_lines-unfinished_example :
    last_lines (last 2) (97 ∷ 10 ∷ 98 ∷ []) ≡ last_lines (last 2) (97 ∷ 10 ∷ [])
last_lines-unfinished_example = last_lines-unfinished (last 2) (97 ∷ []) (98 ∷ []) (refl, refl, tt)

-- A byte from 0x80 on comes back as two.
last_lines_two_bytes : last_lines (last 1) (233 ∷ 10 ∷ []) ≡ ok ((195 ∷ 169 ∷ 10 ∷ []) ∷ [])
unfolding last_lines
last_lines_two_bytes = refl
