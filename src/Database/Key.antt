-- ===== src/Database/Key.antt =====
-- pkg/database/table.go: `Key` and its encodings. A Go string or byte slice is a list of bytes.
use mathlib.Core.List.{append-nil}
use goico.Shared.{
  drop_all, copy_at_last, ℕ, ◌+◌, ◌-◌, ◌≤◌, ◌≡◌, refl, ap, ◌∙◌, List, [], ◌++◌, arith, length, drop,
  replicate, copy_at, copy_at_next, length-append, length-drop, length-replicate,
}

abbrev pub Bytes : Type 0
Bytes = List ℕ

-- `Key`
pub record Key : Type 0 where
  pub version : Bytes
  pub tenant : Bytes
  pub table : Bytes
  pub id : Bytes

-- `(*Key).len`
pub key_len : Key → ℕ
key_len k = length k.version + length k.tenant + length k.table + length k.id

-- `(*Key).lenpreffix`
pub key_lenpreffix : Key → ℕ
key_lenpreffix k = length k.version + length k.tenant + length k.table

-- `(*Key).encode`: the parts are copied one behind the other into a blank slice.
unfoldable pub encode : Key → Bytes
unfolding key_len
encode k =
    let n1 = length k.version in
    let n2 = n1 + length k.tenant in
    let n3 = n2 + length k.table in
    let d1 = copy_at (replicate (key_len k) 0) 0 k.version in
    let d2 = copy_at d1 n1 k.tenant in let d3 = copy_at d2 n2 k.table in copy_at d3 n3 k.id

-- `(*Key).encodepreffix`
unfoldable pub encodepreffix : Key → Bytes
unfolding key_lenpreffix
encodepreffix k =
    let n1 = length k.version in
    let n2 = n1 + length k.tenant in
    let d1 = copy_at (replicate (key_lenpreffix k) 0) 0 k.version in
    let d2 = copy_at d1 n1 k.tenant in copy_at d2 n2 k.table

three_copies :
    (b v t n : Bytes)
    → length v + length t + length n ≤ length b
    → copy_at (copy_at (copy_at b 0 v) (length v) t) (length v + length t) n
      ≡ ((v ++ t) ++ n) ++ drop (length n) (drop (length t) (drop (length v) b))
three_copies b v t n h = rw (copy_at_next [] b v 0 refl (omega arith)) (
    rw
      (copy_at_next v (drop (length v) b) t (length v) refl
        (omega (arith, length-drop (length v) b)))
      (copy_at_next (v ++ t) _ n (length v + length t) (omega (arith, length-append v t))
        (omega (arith, length-drop (length v) b, length-drop (length t) (drop (length v) b)))))

three_copies_tail :
    (b : Bytes) (x y z : ℕ) → length (drop z (drop y (drop x b))) ≡ length b - x - y - z
three_copies_tail b x y z =
    omega (arith, length-drop x b, length-drop y (drop x b), length-drop z (drop y (drop x b)))

-- The encoding is the four parts joined, with nothing between them.
pub encode-append : (k : Key) → encode k ≡ ((k.version ++ k.tenant) ++ k.table) ++ k.id
unfolding encode
encode-append k =
    let blank : Bytes = replicate (key_len k) 0 in
    let len_blank : length blank ≡ key_len k = length-replicate (key_len k) 0 in
    ap (λ d. copy_at d (length k.version + length k.tenant + length k.table) k.id)
      (three_copies blank k.version k.tenant k.table (omega arith))
    ∙ copy_at_last ((k.version ++ k.tenant) ++ k.table) _ k.id
        (length k.version + length k.tenant + length k.table)
        (omega
          (arith, length-append (k.version ++ k.tenant) k.table, length-append k.version k.tenant))
        (omega
          (arith, three_copies_tail blank (length k.version) (length k.tenant) (length k.table)))

-- The prefix is the encoding without the id.
pub encodepreffix-append : (k : Key) → encodepreffix k ≡ (k.version ++ k.tenant) ++ k.table
unfolding encodepreffix
encodepreffix-append k =
    let blank : Bytes = replicate (key_lenpreffix k) 0 in
    let len_blank : length blank ≡ key_lenpreffix k = length-replicate (key_lenpreffix k) 0 in
    three_copies blank k.version k.tenant k.table (omega arith)
    ∙ rw
        (drop_all (length k.table) (drop (length k.tenant) (drop (length k.version) blank)) (
          omega (
            arith,
            length-drop (length k.version) blank,
            length-drop (length k.tenant) (drop (length k.version) blank),
          )))
        (append-nil ((k.version ++ k.tenant) ++ k.table))

-- Every encoding starts with its prefix.
pub encode-encodepreffix : (k : Key) → encode k ≡ encodepreffix k ++ k.id
encode-encodepreffix k = rw (encode-append k, encodepreffix-append k)
