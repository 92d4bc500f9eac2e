-- ===== src/Collection/SyncMap.antt =====
-- pkg/collection/syncmap.go: a map behind a read-write lock. Each method holds the lock from its first
-- line to its last, so it is one step on the map.
use mathlib.Core.List.{append_assoc, append-nil}
use goico.Shared.Key.{Comparable, ◌==◌}
use goico.Shared.GoMap.{
  GoMap, lookup, put, remove, Distinct, lookup-put, lookup-remove, put-Distinct, remove-Distinct,
}
use goico.Shared.{
  ◌≡◌, sym, ◌∙◌, inl, inr, Bool, not, Option, none, some, [], ◌∷◌, ◌++◌, arith, if◌then◌else◌,
  Bool-cases,
}

-- `Range`: the callback's state, and whether it goes on
unfoldable pub range_map : {K V S : Type 0} → (K → V → S → S × Bool) → S → GoMap K V → S
range_map f state [] = state
range_map f state ((k, v) ∷ m) =
    let (state', go_on) = f k v state in
    let rest = range_map f state' m in if not go_on then state' else rest

-- What stands up to and with the first entry at which the callback says no.
abbrev pub until_no : {K V : Type 0} → (K → V → Bool) → GoMap K V → GoMap K V
until_no go_on [] = []
until_no go_on ((k, v) ∷ m) = (k, v) ∷ (if go_on k v then until_no go_on m else [])

module _ {K V : Type 0} ⦃c : Comparable K⦄ where
  -- `NewSyncMap`
  unfoldable pub new_sync_map : GoMap K V
  new_sync_map = []

  -- `Swap`: the key is deleted, then set
  unfoldable pub swap : K → V → GoMap K V → GoMap K V
  swap k v m = put k v (remove k m)

  -- `Store`
  unfoldable pub store : K → V → GoMap K V → GoMap K V
  unfolding swap
  store k v m = swap k v m

  -- `LoadOrStore`
  unfoldable pub load_or_store : K → V → GoMap K V → V × GoMap K V
  load_or_store k v m = elim (lookup k m) [ some va ↦ (va, m) | none ↦ (v, put k v m) ]

  -- `Load`
  unfoldable pub load : K → GoMap K V → Option V
  load k m = lookup k m

  -- `Delete`
  unfoldable pub delete : K → GoMap K V → GoMap K V
  delete k m = remove k m

  -- After a call of Store, Swap, Delete or LoadOrStore, Load of any key: the stored value or nothing
  -- at the key of the call, where LoadOrStore keeps and returns a value that was there; what it was
  -- before at any other key. Each keeps the keys distinct.
  pub load_lem :
      (k j : K) (v : V) (m : GoMap K V)
      → Distinct m
      → (load j (store k v m) ≡ (if k == j then some v else load j m))
        × (load j (swap k v m) ≡ (if k == j then some v else load j m))
        × (load j (delete k m) ≡ (if k == j then none else load j m))
        × (load j (load_or_store k v m).1
            ≡ (if k == j then some (load_or_store k v m).0 else load j m))
        × ((load_or_store k v m).0 ≡ (elim (load k m) [ some va ↦ va | none ↦ v ]))
        × Distinct (store k v m)
        × Distinct (delete k m)
        × Distinct (load_or_store k v m).1
  unfolding store swap delete load load_or_store
  load_lem k j v m d = (
    ground (arith, lookup-put k j v (remove k m), lookup-remove k j m),
    ground (arith, lookup-put k j v (remove k m), lookup-remove k j m),
    lookup-remove k j m,
    ground (arith, lookup-put k j v m, c.same_iff k j),
    ground arith,
    put-Distinct k v (remove k m) (remove-Distinct k m d),
    remove-Distinct k m d,
    ground (arith, put-Distinct k v m d),
  )

  abbrev pub collect : (K → V → Bool) → K → V → GoMap K V → GoMap K V × Bool
  collect go_on k v seen = (seen ++ (k, v) ∷ [], go_on k v)

  collected :
      (go_on : K → V → Bool) (seen m : GoMap K V)
      → range_map (collect go_on) seen m ≡ seen ++ until_no go_on m
  unfolding range_map
  collected go_on seen [] = sym (append-nil seen)
  collected go_on seen ((k, v) ∷ m) = elim (Bool-cases (go_on k v)) [
    | inl more ↦ rw more (
        collected go_on (seen ++ (k, v) ∷ []) m
        ∙ append_assoc seen ((k, v) ∷ []) (until_no go_on m))
    | inr stop ↦ rw stop
  ]

  -- Range calls back for the entries in the order of the iteration, up to and with the first at which
  -- the callback returns false.
  pub range_map-until_no :
      (go_on : K → V → Bool) (m : GoMap K V) → range_map (collect go_on) [] m ≡ until_no go_on m
  range_map-until_no go_on m = collected go_on [] m
