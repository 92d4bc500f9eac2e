-- ===== src/Database/Table/Refinement.antt =====
-- What a table of pkg/database/table.go promises: a map from ids to rows. `run` is a program that
-- calls its methods one after the other, `run_rows` the same program on the map.
use goico.Shared.Key.{bytes_beq}
use goico.Shared.GoMap.{lookup}
use goico.Shared.Result.{Result, ok, err}
use goico.Database.Key.{Bytes}
use goico.Database.Engine.{Engine}
use goico.Database.Table.{Table, Marshaler, add, update, delete, get}
use goico.Database.Table.Rows.{Healthy, add-eq, get-add, get-delete, get-decoded}
use goico.Shared.{
  ◌≡◌, refl, ap, ◌∙◌, inl, inr, Option, none, some, List, [], ◌∷◌, if◌then◌else◌, Bool-cases,
}

pub data Call (S : Type 0) : Type 0 where
  call_add : S → Call S
  call_update : S → Call S
  call_delete : Bytes → Call S
  call_get : Bytes → Call S

-- What a call returns: an error or not, or the row that was asked for
pub data Answer (E S : Type 0) : Type 0 where
  done : Option E → Answer E S
  row : Result (List E) (Option S) → Answer E S

abbrev pub Rows : Type 0 → Type 0
Rows S = Bytes → Option S

abbrev pub put_row : {S : Type 0} → Bytes → Option S → Rows S → Rows S
put_row id s rows j = if bytes_beq id j then s else rows j

module _ {E S : Type 0} (m : Marshaler E S) where
  -- A call on the map; a row that cannot be marshaled is refused.
  unfoldable pub put_marshaled : S → Result E (Bytes × Bytes) → Rows S → Rows S × Answer E S
  put_marshaled s (ok (id, buf)) rows = (put_row id (some s) rows, done none)
  put_marshaled s (err e) rows = (rows, done (some e))

  unfoldable pub call_rows : Call S → Rows S → Rows S × Answer E S
  unfolding put_marshaled
  call_rows (call_add s) rows = put_marshaled s (m.marshal s) rows
  call_rows (call_update s) rows = put_marshaled s (m.marshal s) rows
  call_rows (call_delete id) rows = (put_row id none rows, done none)
  call_rows (call_get id) rows = (rows, row (ok (rows id)))

  unfoldable pub run_rows : List (Call S) → Rows S → List (Answer E S)
  unfolding call_rows
  run_rows [] rows = []
  run_rows (c ∷ cs) rows = (call_rows c rows).1 ∷ run_rows cs (call_rows c rows).0

module _ {E S : Type 0} (eng : Engine E) (m : Marshaler E S) (t : Table) where
  open eng use {Db, entries, set_key, delete_key, get_key}

  -- A call of a method
  unfoldable pub call_table : Call S → Db → Db × Answer E S
  call_table (call_add s) db = let r = add eng m t s db in (r.0, done r.1)
  call_table (call_update s) db = let r = update eng m t s db in (r.0, done r.1)
  call_table (call_delete id) db = let r = delete eng m t id db in (r.0, done r.1)
  call_table (call_get id) db = (db, row (get eng m t id db))

  unfoldable pub run : List (Call S) → Db → List (Answer E S)
  unfolding call_table
  run [] db = []
  run (c ∷ cs) db = (call_table c db).1 ∷ run cs (call_table c db).0

  -- The store does not fail.
  pub record Available : Type 0 where
    pub sets : (k v : Bytes) (db : Db) → (set_key k v db).1 ≡ none
    pub deletes : (k : Bytes) (db : Db) → (delete_key k db).1 ≡ none
    pub gets : (k : Bytes) (db : Db) → Healthy (get_key k db)

  -- A row that is marshaled is unmarshaled again.
  abbrev pub RoundTrips : Type 0
  RoundTrips = (s : S) (id buf : Bytes) → m.marshal s ≡ ok (id, buf) → m.unmarshal buf ≡ ok s

  -- The table holds the rows.
  abbrev Holds : Db → Rows S → Type 0
  Holds db rows = (id : Bytes) → get eng m t id db ≡ ok (rows id)

  module _ (av : Available) (rt : RoundTrips) where
    add-Holds :
        (s : S) (id buf : Bytes) (db : Db) (rows : Rows S)
        → m.marshal s ≡ ok (id, buf)
        → Holds db rows
        → ((add eng m t s db).1 ≡ none) × Holds (add eng m t s db).0 (put_row id (some s) rows)
    add-Holds s id buf db rows e h =
        let written : (add eng m t s db).1 ≡ none =
          rw (add-eq eng m t s id buf db e) (av.sets _ _ _) in
        (
          written,
          λ j.
              get-add eng m t s id buf j db e (rt s id buf e) written (av.gets _ _) (av.gets _ _)
              ∙ (elim (Bool-cases (bytes_beq id j)) [
                | inl same ↦ rw same refl
                | inr other ↦ rw other (h j)
              ]),
        )

    delete-Holds :
        (id : Bytes) (db : Db) (rows : Rows S)
        → Holds db rows
        → ((delete eng m t id db).1 ≡ none) × Holds (delete eng m t id db).0 (put_row id none rows)
    delete-Holds id db rows h =
        let written : (delete eng m t id db).1 ≡ none = unfold delete in av.deletes _ _ in
        (
          written,
          λ j.
              get-delete eng m t id j db written (av.gets _ _) (av.gets _ _)
              ∙ (elim (Bool-cases (bytes_beq id j)) [
                | inl same ↦ rw same refl
                | inr other ↦ rw other (h j)
              ]),
        )

    add-refused : (s : S) (x : E) (db : Db) → m.marshal s ≡ err x → add eng m t s db ≡ (db, some x)
    unfolding add
    add-refused s x db e = rw (e, add)

    marshaled-Holds :
        (s : S) (r : Result E (Bytes × Bytes)) (db : Db) (rows : Rows S)
        → m.marshal s ≡ r
        → Holds db rows
        → (done (add eng m t s db).1 ≡ (put_marshaled m s r rows).1)
          × Holds (add eng m t s db).0 (put_marshaled m s r rows).0
    unfolding put_marshaled
    marshaled-Holds s (ok (id, buf)) db rows e h =
        let (written, holds) = add-Holds s id buf db rows e h in (ap done written, holds)
    marshaled-Holds s (err x) db rows e h = rw (add-refused s x db e) (refl, h)

    call-Holds :
        (c : Call S) (db : Db) (rows : Rows S)
        → Holds db rows
        → ((call_table c db).1 ≡ (call_rows m c rows).1)
          × Holds (call_table c db).0 (call_rows m c rows).0
    unfolding call_table call_rows update add
    call-Holds (call_add s) db rows h = marshaled-Holds s (m.marshal s) db rows refl h
    call-Holds (call_update s) db rows h = marshaled-Holds s (m.marshal s) db rows refl h
    call-Holds (call_delete id) db rows h =
        let (written, holds) = delete-Holds id db rows h in (ap done written, holds)
    call-Holds (call_get id) db rows h = (ap row (h id), h)

    run-Holds :
        (cs : List (Call S)) (db : Db) (rows : Rows S)
        → Holds db rows
        → run cs db ≡ run_rows m cs rows
    unfolding run run_rows
    run-Holds [] db rows h = refl
    run-Holds (c ∷ cs) db rows h =
        let (answered, holds) = call-Holds c db rows h in
        λ i. answered i ∷ run-Holds cs (call_table c db).0 (call_rows m c rows).0 holds i

    -- On a store that does not fail, with a marshaler that reads what it writes: from an empty store
    -- on, every sequence of calls of Add, Update, Delete and Get of a table answers what the same
    -- calls answer on a map from ids to rows.
    pub run-run_rows :
        (cs : List (Call S)) (db : Db) → entries db ≡ [] → run cs db ≡ run_rows m cs (λ id. none)
    unfolding lookup
    run-run_rows cs db empty =
        run-Holds cs db (λ id. none) (λ id. get-decoded eng m t id db (av.gets _ _) ∙ rw empty refl)
