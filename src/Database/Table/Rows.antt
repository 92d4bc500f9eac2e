-- ===== src/Database/Table/Rows.antt =====
-- Reading and writing single rows through the methods of `Table` (pkg/database/table.go).
use goico.Shared.Key.{bytes_beq, bytes_beq_iff, bytes_keys}
use goico.Shared.GoMap.{lookup, lookup-remove}
use goico.Shared.Result.{Result, ok, err}
use goico.Database.Key.{Bytes, encode, encodepreffix, encode-append, encodepreffix-append}
use goico.Database.Order.{append-injective}
use goico.Database.Engine.{Engine, Got, Reads, put_sorted, lookup-put_sorted}
use goico.Database.Table.{Table, Marshaler, row_key, finish_get, add, delete, get}
use goico.Shared.{
  ◌≡◌, refl, sym, ap, ◌∙◌, inl, inr, Option, none, some, List, [], ◌∷◌, ◌++◌, arith, if◌then◌else◌,
  Bool-cases,
}

-- What every key of a table starts with: the version, the tenant and the name.
abbrev pub table_prefix : Table → Bytes
table_prefix t = (b'0' ∷ t.tenant) ++ t.name

pub encode-row_key : (t : Table) (id : Bytes) → encode (row_key t id) ≡ table_prefix t ++ id
unfolding row_key
encode-row_key t id = encode-append (row_key t id)

pub encodepreffix-row_key : (t : Table) → encodepreffix (row_key t []) ≡ table_prefix t
unfolding row_key
encodepreffix-row_key t = encodepreffix-append (row_key t [])

-- In one table two ids have two keys.
pub encode-injective :
    (t : Table) (i j : Bytes) → encode (row_key t i) ≡ encode (row_key t j) → i ≡ j
encode-injective t i j h =
    append-injective (table_prefix t) i j (sym (encode-row_key t i) ∙ h ∙ encode-row_key t j)

same_key :
    (t : Table) (i j : Bytes)
    → bytes_beq (encode (row_key t i)) (encode (row_key t j)) ≡ bytes_beq i j
same_key t i j = elim (Bool-cases (bytes_beq i j)) [
  | inl e ↦
      let same : i ≡ j = (bytes_beq_iff i j).0 e in
      (bytes_beq_iff _ _).1 (ap (λ x. encode (row_key t x)) same) ∙ sym e
  | inr e ↦ ground (
    arith,
    e,
    bytes_beq_iff i j,
    bytes_beq_iff (encode (row_key t i)) (encode (row_key t j)),
    encode-injective t i j,
  )
]

-- The read did not fail, nor did the closing of what it returned.
abbrev pub Healthy : {E : Type 0} → Got E → Type 0
Healthy (Got.found v c) = c ≡ none
Healthy Got.not_found = Unit
Healthy (Got.failed e) = ⊥

module _ {E S : Type 0} (eng : Engine E) (m : Marshaler E S) (t : Table) where
  open eng use {Db, entries, set_key, delete_key, get_key, set_key_law, delete_key_law, get_key_law}

  -- What `Get` makes of an entry.
  abbrev pub decoded : Option Bytes → Result (List E) (Option S)
  decoded none = ok none
  decoded (some v) = finish_get (m.unmarshal v) none

  decoded-eq :
      (held : Option Bytes) (g : Got E)
      → Reads held g
      → Healthy g
      → elim g [
        | Got.found v closed ↦ finish_get (m.unmarshal v) closed
        | Got.not_found ↦ ok none
        | Got.failed e ↦ err (e ∷ [])
      ]
        ≡ decoded held
  decoded-eq held (Got.found v c) r h = rw (r, h)
  decoded-eq held Got.not_found r h = rw r
  decoded-eq held (Got.failed e) r h = absurd h

  pub get-decoded :
      (id : Bytes) (db : Db)
      → Healthy (get_key (encode (row_key t id)) db)
      → get eng m t id db ≡ decoded (lookup (encode (row_key t id)) (entries db))
  unfolding get
  get-decoded id db h = decoded-eq _ _ (get_key_law (encode (row_key t id)) db) h

  pub add-eq :
      (row : S) (id buf : Bytes) (db : Db)
      → m.marshal row ≡ ok (id, buf)
      → add eng m t row db ≡ set_key (encode (row_key t id)) buf db
  unfolding add
  add-eq row id buf db hm = rw (hm, add)

  -- A successful Add puts the row's bytes under its key.
  pub entries-add :
      (row : S) (id buf : Bytes) (db : Db)
      → m.marshal row ≡ ok (id, buf)
      → (add eng m t row db).1 ≡ none
      → entries (add eng m t row db).0 ≡ put_sorted (encode (row_key t id)) buf (entries db)
  entries-add row id buf db hm done =
      rw (add-eq row id buf db hm)
        (set_key_law (encode (row_key t id)) buf db (rw (add-eq row id buf db hm) at done))

  -- After a successful Add of a row that decodes to itself, Get of its id returns the row, and Get of
  -- any other id returns what it returned before, wherever the store's reads do not fail.
  pub get-add :
      (row : S) (id buf j : Bytes) (db : Db)
      → m.marshal row ≡ ok (id, buf)
      → m.unmarshal buf ≡ ok row
      → (add eng m t row db).1 ≡ none
      → Healthy (get_key (encode (row_key t j)) db)
      → Healthy (get_key (encode (row_key t j)) (add eng m t row db).0)
      → get eng m t j (add eng m t row db).0
        ≡ (if bytes_beq id j then ok (some row) else get eng m t j db)
  get-add row id buf j db hm hu done before after =
      rw
        (
          get-decoded j (add eng m t row db).0 after,
          get-decoded j db before,
          entries-add row id buf db hm done,
          lookup-put_sorted (encode (row_key t id)) (encode (row_key t j)) buf (entries db),
          same_key t id j,
        )
        (elim (Bool-cases (bytes_beq id j)) [
          | inl e ↦ rw (e, hu) (unfold finish_get in refl)
          | inr e ↦ rw e
        ])

  -- After a successful Delete, Get of that id finds nothing, and Get of any other id returns what it
  -- returned before, wherever the store's reads do not fail.
  pub get-delete :
      (id j : Bytes) (db : Db)
      → (delete eng m t id db).1 ≡ none
      → Healthy (get_key (encode (row_key t j)) db)
      → Healthy (get_key (encode (row_key t j)) (delete eng m t id db).0)
      → get eng m t j (delete eng m t id db).0
        ≡ (if bytes_beq id j then ok none else get eng m t j db)
  unfolding delete
  get-delete id j db done before after =
      rw
        (
          get-decoded j (delete_key (encode (row_key t id)) db).0 after,
          get-decoded j db before,
          delete_key_law (encode (row_key t id)) db done,
          lookup-remove (encode (row_key t id)) (encode (row_key t j)) (entries db),
          same_key t id j,
        )
        (elim (Bool-cases (bytes_beq id j)) [ inl e ↦ rw e | inr e ↦ rw e ])
