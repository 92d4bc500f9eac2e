-- ===== src/Database/Table.antt =====
-- pkg/database/table.go: a table of rows in the key-value store. The store and the marshaler are
-- parameters; the functions of this file are the methods of `Table`, each with its error paths.
pub mod Rows
pub mod Sharing
pub mod Listing
pub mod Refinement
use goico.Shared.Result.{Result, ok, err}
use goico.Database.Key.{Bytes, Key, encode, encodepreffix}
use goico.Database.UpperBound.{key_upper_bound}
use goico.Database.Engine.{Engine, Got, Scan}
use goico.Shared.{Option, none, some, List, [], ◌∷◌, ◌++◌}

-- `Table`, less the store and the marshaler
pub record Table : Type 0 where
  pub name : Bytes
  pub tenant : Bytes

-- `NewTable`
unfoldable pub new_table : Bytes → Bytes → Table
new_table name tenant = record { name = name; tenant = tenant }

-- `Marshaler`: a row to its id and its bytes, and bytes to a row
pub record Marshaler (E S : Type 0) : Type 0 where
  pub marshal : S → Result E (Bytes × Bytes)
  pub unmarshal : Bytes → Result E S

-- `(*Table).getKey`; the version is the text "0".
unfoldable pub row_key : Table → Bytes → Key
row_key t id = record { version = b'0' ∷ []; tenant = t.tenant; table = t.name; id = id }

module _ {E S : Type 0} where
  -- The errors of decoding and of closing, in the order in which they are collected.
  unfoldable pub finish_get : Result E S → Option E → Result (List E) (Option S)
  finish_get (ok s) none = ok (some s)
  finish_get (ok s) (some c) = err (c ∷ [])
  finish_get (err e) none = err (e ∷ [])
  finish_get (err e) (some c) = err (e ∷ c ∷ [])

  unfoldable pub finish_all : List S × Option E → Option E → Result (List E) (List S)
  finish_all (rows, none) none = ok rows
  finish_all (rows, none) (some c) = err (c ∷ [])
  finish_all (rows, some e) none = err (e ∷ [])
  finish_all (rows, some e) (some c) = err (e ∷ c ∷ [])

  -- The loop of `All`: rows are appended, and the first that does not decode ends it.
  unfoldable pub decode_rows :
      (Bytes → Result E S) → List S → List (Bytes × Bytes) → List S × Option E
  decode_rows unmarshal rows [] = (rows, none)
  decode_rows unmarshal rows ((k, v) ∷ more) = elim (unmarshal v) [
    | ok s ↦ decode_rows unmarshal (rows ++ s ∷ []) more
    | err e ↦ (rows, some e)
  ]

module _ {E S : Type 0} (eng : Engine E) (m : Marshaler E S) (t : Table) where
  open eng use {Db, set_key, delete_key, get_key, new_iter}

  -- `(*Table).Add`
  unfoldable pub add : S → Db → Db × Option E
  add row db = elim (m.marshal row) [
    | ok (id, buf) ↦ set_key (encode (row_key t id)) buf db
    | err e ↦ (db, some e)
  ]

  -- `(*Table).Update`
  unfoldable pub update : S → Db → Db × Option E
  update row db = elim (m.marshal row) [
    | ok (id, buf) ↦ set_key (encode (row_key t id)) buf db
    | err e ↦ (db, some e)
  ]

  -- `(*Table).Delete`
  unfoldable pub delete : Bytes → Db → Db × Option E
  delete id db = delete_key (encode (row_key t id)) db

  -- `(*Table).Get`
  unfoldable pub get : Bytes → Db → Result (List E) (Option S)
  unfolding finish_get
  get id db = elim (get_key (encode (row_key t id)) db) [
    | Got.found v closed ↦ finish_get (m.unmarshal v) closed
    | Got.not_found ↦ ok none
    | Got.failed e ↦ err (e ∷ [])
  ]

  -- `(*Table).All`
  unfoldable pub all : Db → Result (List E) (List S)
  unfolding finish_all
  all db =
      let prefix = encodepreffix (row_key t []) in
      elim (new_iter prefix (key_upper_bound prefix) db) [
        | Scan.opened seen closed ↦ finish_all (decode_rows m.unmarshal [] seen) closed
        | Scan.failed e ↦ err (e ∷ [])
      ]
