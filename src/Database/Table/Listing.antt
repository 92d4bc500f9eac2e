-- ===== src/Database/Table/Listing.antt =====
-- What `All` (pkg/database/table.go) lists: exactly the entries whose keys start with the table's
-- prefix, in key order. Keys join their parts without separators, so a prefix may also belong to
-- another table.
use mathlib.Core.List.{append_assoc, append-nil, Mem, mem-cons_self, mem-cons_of_mem}
use goico.Shared.Key.{bytes_beq, bytes_beq_iff, bytes_keys}
use goico.Shared.GoMap.{GoMap, lookup}
use goico.Shared.Result.{Result, ok, err, ◌>>=◌, Result-cases}
use goico.Database.Key.{Bytes}
use goico.Database.Order.{has_prefix, IsBytes}
use goico.Database.UpperBound.{key_upper_bound, in_bounds-key_upper_bound}
use goico.Database.Engine.{Engine, Scan, Scans, select}
use goico.Database.Table.{Table, Marshaler, finish_all, decode_rows, all}
use goico.Database.Table.Rows.{table_prefix, encodepreffix-row_key}
use goico.Shared.{
  ◌≡◌, refl, sym, ap, ◌∙◌, inl, inr, Bool, true, none, some, List, [], ◌∷◌, ◌++◌, arith, Bool-cases,
}

-- Every key is a byte string, as its Go type says.
abbrev pub HasByteKeys : GoMap Bytes Bytes → Type 0
HasByteKeys [] = Unit
HasByteKeys ((k, v) ∷ m) = IsBytes k × HasByteKeys m

select-cong :
    (p q : Bytes → Bool) (m : GoMap Bytes Bytes)
    → ((k : Bytes) → IsBytes k → p k ≡ q k)
    → HasByteKeys m
    → select p m ≡ select q m
select-cong p q [] same h = refl
select-cong p q ((k, v) ∷ m) same h = rw (same k h.0, select-cong p q m same h.1)

-- The iterator ran to its end and closed without error.
abbrev pub Complete : {E : Type 0} → Scan E → Type 0
Complete (Scan.opened seen c) = c ≡ none
Complete (Scan.failed e) = ⊥

module _ {E S : Type 0} where
  -- The rows of a list of entries, or the first error of decoding.
  unfoldable pub decode_all : (Bytes → Result E S) → GoMap Bytes Bytes → Result (List E) (List S)
  decode_all f [] = ok []
  decode_all f ((k, v) ∷ m) = elim (f v) [
    | ok s ↦ do rest ← decode_all f m; ok (s ∷ rest)
    | err e ↦ err (e ∷ [])
  ]

  abbrev prepend : List S → Result (List E) (List S) → Result (List E) (List S)
  prepend rows (ok more) = ok (rows ++ more)
  prepend rows (err es) = err es

  prepend-nil : (r : Result (List E) (List S)) → prepend [] r ≡ r
  prepend-nil (ok more) = refl
  prepend-nil (err es) = refl

  prepend-cons :
      (rows : List S) (s : S) (r : Result (List E) (List S))
      → prepend (rows ++ s ∷ []) r ≡ prepend rows (r >>= λ rest. ok (s ∷ rest))
  prepend-cons rows s (ok more) = ap ok (append_assoc rows (s ∷ []) more)
  prepend-cons rows s (err es) = refl

  finish-decode_rows :
      (f : Bytes → Result E S) (rows : List S) (m : GoMap Bytes Bytes)
      → finish_all (decode_rows f rows m) none ≡ prepend rows (decode_all f m)
  unfolding decode_rows decode_all finish_all
  finish-decode_rows f rows [] = ap ok (sym (append-nil rows))
  finish-decode_rows f rows ((k, v) ∷ m) = elim (Result-cases (f v)) [
    | inl (s, e) ↦
        rw (e, decode_rows, decode_all)
          (finish-decode_rows f (rows ++ s ∷ []) m ∙ prepend-cons rows s (decode_all f m))
    | inr (x, e) ↦ rw (e, decode_rows, decode_all)
  ]

  decode_all-cons :
      (f : Bytes → Result E S) (j w : Bytes) (m : GoMap Bytes Bytes) (rows : List S)
      → decode_all f ((j, w) ∷ m) ≡ ok rows
      → (s : S) × (rest : List S) × (f w ≡ ok s) × (decode_all f m ≡ ok rest) × (rows ≡ s ∷ rest)
  unfolding decode_all
  decode_all-cons f j w m rows h = elim (Result-cases (f w)) [
    | inr (x, e) ↦ absurd (ground arith)
    | inl (s, e) ↦ elim (Result-cases (decode_all f m)) [
      | inr (x, e') ↦ absurd (ground arith)
      | inl (rest, e') ↦ (s, rest, e, e', ground arith)
    ]
  ]

  -- A decoded list holds the row of each entry that it was made of.
  pub mem-decode_all :
      (f : Bytes → Result E S) (p : Bytes → Bool) (k v : Bytes) (s : S) (m : GoMap Bytes Bytes)
      (rows : List S)
      → lookup k m ≡ some v
      → p k ≡ true
      → f v ≡ ok s
      → decode_all f (select p m) ≡ ok rows
      → Mem s rows
  unfolding lookup decode_all
  mem-decode_all f p k v s [] rows hl hp hf hd = absurd (cc)
  mem-decode_all f p k v s ((j, w) ∷ m) rows hl hp hf hd = elim (Bool-cases (bytes_beq j k)) [
    | inl same ↦
        let q : p j ≡ true = rw ((bytes_beq_iff j k).0 same) hp in
        let (s', rest, fs, _, shape) = decode_all-cons f j w (select p m) rows (rw q at hd) in
        let first : s ≡ s' = ground arith in rw (shape, first) mem-cons_self
    | inr other ↦ elim (Bool-cases (p j)) [
      | inl q ↦
          let (s', rest, fs, more, shape) = decode_all-cons f j w (select p m) rows (rw q at hd) in
          rw shape
            (mem-cons_of_mem s' (mem-decode_all f p k v s m rest (rw other at hl) hp hf more))
      | inr q ↦ mem-decode_all f p k v s m rows (rw other at hl) hp hf (rw q at hd)
    ]
  ]

module _ {E S : Type 0} (eng : Engine E) (m : Marshaler E S) where
  open eng use {Db, entries, new_iter, new_iter_law}

  all-eq :
      (g : Scan E) (held : GoMap Bytes Bytes)
      → Scans held g
      → Complete g
      → elim g [
        | Scan.opened seen closed ↦ finish_all (decode_rows m.unmarshal [] seen) closed
        | Scan.failed e ↦ err (e ∷ [])
      ]
        ≡ decode_all m.unmarshal held
  all-eq (Scan.opened seen none) held same c =
      rw same (finish-decode_rows m.unmarshal [] held ∙ prepend-nil (decode_all m.unmarshal held))
  all-eq (Scan.opened seen (some e)) held same c = absurd (cc)
  all-eq (Scan.failed e) held same c = absurd c

  -- `All` returns the rows of exactly the entries whose keys start with the table's prefix, in key
  -- order, or the first error of decoding one, if the iteration runs to its end and closes.
  pub all-decode_all :
      (t : Table) (db : Db)
      → IsBytes (table_prefix t)
      → HasByteKeys (entries db)
      → Complete (new_iter (table_prefix t) (key_upper_bound (table_prefix t)) db)
      → all eng m t db ≡ decode_all m.unmarshal (select (has_prefix (table_prefix t)) (entries db))
  unfolding all
  all-decode_all t db hp hk c =
      rw (encodepreffix-row_key t, all)
        (all-eq _ _ (new_iter_law (table_prefix t) (key_upper_bound (table_prefix t)) db) c
          ∙ ap (decode_all m.unmarshal) (
              select-cong _ _ (entries db)
                (λ k hb. in_bounds-key_upper_bound (table_prefix t) k hp hb) hk))
