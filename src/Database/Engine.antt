-- ===== src/Database/Engine.antt =====
-- The key-value store under pkg/database, Pebble: not part of the repository, so an interface. It
-- keeps what its documentation says of Set, Delete, Get and iterators, wherever these do not fail.
use goico.Shared.Key.{bytes_beq, bytes_beq_iff, bytes_keys}
use goico.Shared.GoMap.{GoMap, lookup, remove}
use goico.Database.Key.{Bytes}
use goico.Database.Order.{bytes_ltb, in_bounds}
use goico.Shared.{◌≡◌, refl, Bool, Option, none, some, List, [], ◌∷◌, arith, if◌then◌else◌}

-- `value, closer, err := db.Get(k)`: a value with the error of `closer.Close()`, `ErrNotFound`, or
-- another error.
pub data Got (E : Type 0) : Type 0 where
  found : Bytes → Option E → Got E
  not_found : Got E
  failed : E → Got E

-- `iter, err := db.NewIter(bounds)`: the entries that the loop meets with the error of
-- `iter.Close()`, or an error.
pub data Scan (E : Type 0) : Type 0 where
  opened : List (Bytes × Bytes) → Option E → Scan E
  failed : E → Scan E

-- Entries stand in the order of their keys.
unfoldable pub put_sorted : Bytes → Bytes → GoMap Bytes Bytes → GoMap Bytes Bytes
put_sorted k v [] = (k, v) ∷ []
put_sorted k v ((j, w) ∷ m) =
    if bytes_beq j k
    then (k, v) ∷ m
    else if bytes_ltb k j
    then (k, v) ∷ ((j, w) ∷ m)
    else (j, w) ∷ put_sorted k v m

pub lookup-put_sorted :
    (k j v : Bytes) (m : GoMap Bytes Bytes)
    → lookup j (put_sorted k v m) ≡ (if bytes_beq k j then some v else lookup j m)
unfolding put_sorted lookup
lookup-put_sorted k j v [] = refl
lookup-put_sorted k j v ((i, w) ∷ m) =
    ground
      (arith, bytes_beq_iff k j, bytes_beq_iff i k, bytes_beq_iff i j, lookup-put_sorted k j v m)

abbrev pub select : (Bytes → Bool) → GoMap Bytes Bytes → GoMap Bytes Bytes
select p [] = []
select p ((k, v) ∷ m) = let rest = select p m in if p k then (k, v) ∷ rest else rest

module _ {E : Type 0} where
  abbrev pub Reads : Option Bytes → Got E → Type 0
  Reads held (Got.found v c) = held ≡ some v
  Reads held Got.not_found = held ≡ none
  Reads held (Got.failed e) = Unit

  -- An iterator that met an error says so when it is closed.
  abbrev pub Scans : GoMap Bytes Bytes → Scan E → Type 0
  Scans held (Scan.opened seen none) = seen ≡ held
  Scans held (Scan.opened seen (some e)) = Unit
  Scans held (Scan.failed e) = Unit

pub record Engine (E : Type 0) : Type 1 where
  pub Db : Type 0
  pub entries : Db → GoMap Bytes Bytes
  pub set_key : Bytes → Bytes → Db → Db × Option E
  pub delete_key : Bytes → Db → Db × Option E
  pub get_key : Bytes → Db → Got E
  pub new_iter : Bytes → Option Bytes → Db → Scan E
  pub set_key_law :
      (k v : Bytes) (d : Db)
      → (set_key k v d).1 ≡ none
      → entries (set_key k v d).0 ≡ put_sorted k v (entries d)
  pub delete_key_law :
      (k : Bytes) (d : Db)
      → (delete_key k d).1 ≡ none
      → entries (delete_key k d).0 ≡ remove k (entries d)
  pub get_key_law : (k : Bytes) (d : Db) → Reads (lookup k (entries d)) (get_key k d)
  pub new_iter_law :
      (lower : Bytes) (upper : Option Bytes) (d : Db)
      → Scans (select (in_bounds lower upper) (entries d)) (new_iter lower upper d)
