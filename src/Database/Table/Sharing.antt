-- ===== src/Database/Table/Sharing.antt =====
-- Which tables see a row (pkg/database/table.go). A key is "0", tenant, table name and id with
-- nothing between them, so tables are told apart only as far as these texts are no prefixes of one
-- another.
use mathlib.Core.List.{append_assoc, Mem}
use goico.Shared.Key.{bytes_beq_iff, bytes_keys}
use goico.Shared.Result.{ok, Result-cases}
use goico.Database.Key.{Bytes, encode, encodepreffix}
use goico.Database.Order.{has_prefix, has_prefix-append, IsBytes}
use goico.Database.UpperBound.{key_upper_bound}
use goico.Database.Engine.{Engine, lookup-put_sorted, put_sorted, select}
use goico.Database.Table.{Table, Marshaler, row_key, add, get, all}
use goico.Database.Table.Rows.{table_prefix, encode-row_key, encodepreffix-row_key, entries-add}
use goico.Database.Table.Listing.{HasByteKeys, Complete, mem-decode_all, all-decode_all, decode_all}
use goico.Shared.GoMap.{GoMap}
use goico.Shared.{
  Bool, Bool-cases, ◌⊎◌, false, ℕ, ◌≡◌, refl, sym, ap, ◌∙◌, ◌↔◌, inl, inr, true, none, List, [],
  ◌∷◌, ◌++◌, arith,
}

-- The listing of `t` takes in the key of `u` under `id`.
abbrev Sees : Table → Table → Bytes → Type 0
Sees t u id = has_prefix (table_prefix t) (encode (row_key u id)) ≡ true

has_prefix-cons : (x : ℕ) (p k : Bytes) → has_prefix (x ∷ p) (x ∷ k) ≡ has_prefix p k
has_prefix-cons x p k = ground arith

-- `All` of a table takes in a row of another exactly when tenant and name of the first, joined, are a
-- prefix of tenant, name and id of the other, joined.
Sees-iff :
    (t u : Table) (id : Bytes)
    → Sees t u id ↔ (has_prefix (t.tenant ++ t.name) ((u.tenant ++ u.name) ++ id) ≡ true)
Sees-iff t u id =
    let same : has_prefix (table_prefix t) (encode (row_key u id))
        ≡ has_prefix (t.tenant ++ t.name) ((u.tenant ++ u.name) ++ id) =
      rw (encode-row_key u id) (has_prefix-cons b'0' (t.tenant ++ t.name) _) in
    (λ h. sym same ∙ h, λ h. same ∙ h)

Sees-self : (t : Table) (id : Bytes) → Sees t t id
Sees-self t id = rw (encode-row_key t id) (has_prefix-append (table_prefix t) id)

-- A table of the same tenant whose name continues that of `t` is seen by `t`, whatever the id.
Sees-longer_name :
    (t u : Table) (rest id : Bytes) → u.tenant ≡ t.tenant → u.name ≡ t.name ++ rest → Sees t u id
Sees-longer_name t u rest id ht hn = (Sees-iff t u id).1 (
    rw (ht, hn)
      (rw (← append_assoc t.tenant t.name rest, append_assoc (t.tenant ++ t.name) rest id)
        (has_prefix-append (t.tenant ++ t.name) (rest ++ id))))

-- An entry that a selection leaves out does not change it.
select-put_sorted :
    (p : Bytes → Bool) (k v : Bytes) (m : GoMap Bytes Bytes)
    → p k ≡ false
    → select p (put_sorted k v m) ≡ select p m
unfolding put_sorted
select-put_sorted p k v [] out = ground arith
select-put_sorted p k v ((j, w) ∷ m) out =
    ground (arith, bytes_beq_iff j k, select-put_sorted p k v m out)

module _ {E S : Type 0} (eng : Engine E) (m : Marshaler E S) where
  open eng use {Db, entries, new_iter}

  all-add_Sees :
      (t u : Table) (row : S) (id buf : Bytes) (db : Db) (rows : List S)
      → Sees t u id
      → m.marshal row ≡ ok (id, buf)
      → m.unmarshal buf ≡ ok row
      → (add eng m u row db).1 ≡ none
      → IsBytes (table_prefix t)
      → HasByteKeys (entries (add eng m u row db).0)
      → Complete
          (new_iter (table_prefix t) (key_upper_bound (table_prefix t)) (add eng m u row db).0)
      → all eng m t (add eng m u row db).0 ≡ ok rows
      → Mem row rows
  all-add_Sees t u row id buf db rows seen hm hu done hp hk hc h =
      let db' = (add eng m u row db).0 in
      let key = encode (row_key u id) in
      mem-decode_all m.unmarshal (has_prefix (table_prefix t)) key buf row (entries db') rows
        (rw (
          entries-add eng m u row id buf db hm done,
          lookup-put_sorted key key buf (entries db),
          (bytes_beq_iff key key).1 refl,
        ))
        seen hu (sym (all-decode_all eng m t db' hp hk hc) ∙ h)

  -- After a successful Add of a row that Unmarshal gives back from its bytes, a listing of the table
  -- that succeeds holds the row, if the keys are bytes and the iteration runs to its end and closes.
  pub all-add :
      (t : Table) (row : S) (id buf : Bytes) (db : Db) (rows : List S)
      → m.marshal row ≡ ok (id, buf)
      → m.unmarshal buf ≡ ok row
      → (add eng m t row db).1 ≡ none
      → IsBytes (table_prefix t)
      → HasByteKeys (entries (add eng m t row db).0)
      → Complete
          (new_iter (table_prefix t) (key_upper_bound (table_prefix t)) (add eng m t row db).0)
      → all eng m t (add eng m t row db).0 ≡ ok rows
      → Mem row rows
  all-add t row id buf db rows = all-add_Sees t t row id buf db rows (Sees-self t id)

  -- A row added to a table whose name continues the name of another table of the tenant also stands
  -- in every successful listing of that other table.
  all-add_longer_name :
      (t u : Table) (rest : Bytes) (row : S) (id buf : Bytes) (db : Db) (rows : List S)
      → u.tenant ≡ t.tenant
      → u.name ≡ t.name ++ rest
      → m.marshal row ≡ ok (id, buf)
      → m.unmarshal buf ≡ ok row
      → (add eng m u row db).1 ≡ none
      → IsBytes (table_prefix t)
      → HasByteKeys (entries (add eng m u row db).0)
      → Complete
          (new_iter (table_prefix t) (key_upper_bound (table_prefix t)) (add eng m u row db).0)
      → all eng m t (add eng m u row db).0 ≡ ok rows
      → Mem row rows
  all-add_longer_name t u rest row id buf db rows ht hn =
      all-add_Sees t u row id buf db rows (Sees-longer_name t u rest id ht hn)

  -- After a successful Add of a row to a table, a listing of another table, or of the same, that
  -- succeeds holds the row if tenant and name of the other, joined, are a prefix of tenant, name and id
  -- of the row, joined; otherwise it is the listing of before the Add. The row is one that Unmarshal
  -- gives back from its bytes, the keys are bytes, and both iterations run to their ends and close.
  pub all-add_other :
      (t u : Table) (row : S) (id buf : Bytes) (db : Db) (rows : List S)
      → m.marshal row ≡ ok (id, buf)
      → m.unmarshal buf ≡ ok row
      → (add eng m u row db).1 ≡ none
      → IsBytes (table_prefix t)
      → HasByteKeys (entries db)
      → HasByteKeys (entries (add eng m u row db).0)
      → Complete (new_iter (table_prefix t) (key_upper_bound (table_prefix t)) db)
      → Complete
          (new_iter (table_prefix t) (key_upper_bound (table_prefix t)) (add eng m u row db).0)
      → all eng m t (add eng m u row db).0 ≡ ok rows
      → ((has_prefix (t.tenant ++ t.name) ((u.tenant ++ u.name) ++ id) ≡ true) × Mem row rows)
        ⊎ ((has_prefix (t.tenant ++ t.name) ((u.tenant ++ u.name) ++ id) ≡ false)
            × (all eng m t db ≡ ok rows))
  all-add_other t u row id buf db rows hm hu done hp hk hk' hc hc' h =
      let p = table_prefix t in
      let key = encode (row_key u id) in
      let same : has_prefix p key ≡ has_prefix (t.tenant ++ t.name) ((u.tenant ++ u.name) ++ id) =
        rw (encode-row_key u id) (has_prefix-cons b'0' (t.tenant ++ t.name) _) in
      elim (Bool-cases (has_prefix p key)) [
        | inl seen ↦
            inl (sym same ∙ seen, all-add_Sees t u row id buf db rows seen hm hu done hp hk' hc' h)
        | inr unseen ↦
            let kept : select (has_prefix p) (entries (add eng m u row db).0)
                ≡ select (has_prefix p) (entries db) =
              ap (select (has_prefix p)) (entries-add eng m u row id buf db hm done)
              ∙ select-put_sorted (has_prefix p) key buf (entries db) unseen in
            inr (
              sym same ∙ unseen,
              all-decode_all eng m t db hp hk hc
                  ∙ ap (decode_all m.unmarshal) (sym kept)
                  ∙ sym (all-decode_all eng m t (add eng m u row db).0 hp hk' hc')
                  ∙ h,
            )
      ]

  -- Tables with the same tenant and name joined are one table: every Add, Get and All of one is that
  -- of the other, whatever the tenants.
  pub joined_names_share :
      (t u : Table) (row : S) (id : Bytes) (db : Db)
      → t.tenant ++ t.name ≡ u.tenant ++ u.name
      → (add eng m t row db ≡ add eng m u row db)
        × (get eng m t id db ≡ get eng m u id db)
        × (all eng m t db ≡ all eng m u db)
  unfolding add get all
  joined_names_share t u row id db h =
      let same : table_prefix t ≡ table_prefix u = ap (λ p. b'0' ∷ p) h in
      let keys : (x : Bytes) → encode (row_key t x) ≡ encode (row_key u x) =
        λ x. encode-row_key t x ∙ ap (λ p. p ++ x) same ∙ sym (encode-row_key u x) in
      let prefixes : encodepreffix (row_key t []) ≡ encodepreffix (row_key u []) =
        encodepreffix-row_key t ∙ same ∙ sym (encodepreffix-row_key u) in
      (
        elim (Result-cases (m.marshal row)) [
          | inl ((i, buf), e) ↦ rw (e, add) (rw (keys i))
          | inr (x, e) ↦ rw (e, add)
        ],
        rw (keys id, get),
        rw (prefixes, all),
      )
