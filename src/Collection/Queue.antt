-- ===== src/Collection/Queue.antt =====
-- pkg/collection/syncqueue.go: a queue behind a mutex. Each method holds the mutex from its first line
-- to its last, so it is one step on the data; those that call others are composed of them.
use goico.Shared.Outcome.{Outcome, returns, panics}
use goico.Shared.{
  take_all, ℕ, zero, suc, ◌≤◌, ◌≡◌, refl, ap, ◌∙◌, List, [], ◌∷◌, ◌++◌, arith, ltb, eqb,
  if◌then◌else◌, Bool-cases, inl, inr, length, take, drop, replicate, overwrite, take-length,
  drop_all,
}
use goico.Shared.Int.{ℤ, pos, negsuc}

-- `SyncQueue`, less the mutex
pub record SyncQueue (A : Type 0) : Type 0 where
  pub items : List A

module _ {A : Type 0} where
  -- `NewSyncQueue`
  unfoldable pub new_sync_queue : SyncQueue A
  new_sync_queue = record { items = [] }

  -- `Queue`
  unfoldable pub queue : A → SyncQueue A → SyncQueue A
  queue t s = record { items = s.items ++ t ∷ [] }

  -- `Dequeue`: indexing an empty slice panics
  unfoldable pub dequeue : SyncQueue A → Outcome (A × SyncQueue A)
  dequeue s = elim s.items [ [] ↦ panics | d ∷ rest ↦ returns (d, record { items = rest }) ]

  -- `Size`
  unfoldable pub size : SyncQueue A → ℕ
  size s = length s.items

  -- `newq := make([]T, n); copy(newq, data)`, where `zero_value` is the type's
  unfoldable pub copy_front : A → ℕ → List A → List A
  copy_front zero_value n items = overwrite (replicate n zero_value) items

  -- `DequeueN` with the length given; the second test is the source's, on the clamped length
  unfoldable pub dequeue_clamped : A → ℕ → SyncQueue A → List A × SyncQueue A
  unfolding copy_front
  dequeue_clamped zero_value n s =
      let n' = if ltb (length s.items) n then length s.items else n in
      let newq = copy_front zero_value n' s.items in
      if ltb (length s.items) n'
      then (newq, record { items = [] })
      else (newq, record { items = drop n' s.items })

  -- `DequeueN`: `make` with a negative length panics
  unfoldable pub dequeue_n : A → ℤ → SyncQueue A → Outcome (List A × SyncQueue A)
  unfolding dequeue_clamped
  dequeue_n zero_value (pos n) s = returns (dequeue_clamped zero_value n s)
  dequeue_n zero_value (negsuc n) s = panics

  -- `DequeueAll`: the size is read under a lock of its own, so other calls may come between
  unfoldable pub dequeue_all : A → ℕ → SyncQueue A → Outcome (List A × SyncQueue A)
  unfolding dequeue_n
  dequeue_all zero_value seen s = dequeue_n zero_value (pos seen) s

  -- `PeekSlice`
  unfoldable pub peek_slice : A → ℤ → SyncQueue A → List A
  unfolding copy_front
  peek_slice zero_value (negsuc (suc n)) s = []
  peek_slice zero_value (negsuc zero) s = copy_front zero_value (length s.items) s.items
  peek_slice zero_value (pos n) s =
      copy_front zero_value (if ltb (length s.items) n then length s.items else n) s.items

  -- `Peek`, where nothing comes between its two calls
  unfoldable pub peek : A → SyncQueue A → Outcome A
  unfolding size peek_slice
  peek zero_value s =
      if eqb (size s) 0
      then returns zero_value
      else elim (peek_slice zero_value (pos 1) s) [ [] ↦ panics | t ∷ more ↦ returns t ]

  -- `Clear`
  unfoldable pub clear : SyncQueue A → SyncQueue A
  clear s = record { items = [] }

  copy_front-take :
      (zero_value : A) (n : ℕ) (items : List A)
      → n ≤ length items
      → copy_front zero_value n items ≡ take n items
  unfolding copy_front
  copy_front-take z zero items h = refl
  copy_front-take z (suc n) [] h = absurd (omega arith)
  copy_front-take z (suc n) (x ∷ items) h =
      ap (λ t. x ∷ t) (copy_front-take z n items (omega arith))

  dequeue_clamped-eq :
      (zero_value : A) (n : ℕ) (items : List A)
      → dequeue_clamped zero_value n (record { items = items })
        ≡ (take n items, record { items = drop n items })
  unfolding dequeue_clamped
  dequeue_clamped-eq z n items = elim (Bool-cases (ltb (length items) n)) [
    | inl more ↦ ground (
      arith,
      copy_front-take z (length items) items,
      take-length items,
      take_all n items,
      drop_all n items,
      drop_all (length items) items,
    )
    | inr fits ↦ ground (arith, copy_front-take z n items)
  ]

  -- DequeueN(n) takes the oldest n values, or all if there are fewer, and leaves the others; with a
  -- negative n it panics.
  pub dequeue_n-take :
      (zero_value : A) (k : ℤ) (s : SyncQueue A)
      → dequeue_n zero_value k s ≡ (elim k [
        | pos n ↦ returns (take n s.items, record { items = drop n s.items })
        | negsuc n ↦ panics
      ])
  unfolding dequeue_n
  dequeue_n-take z (pos n) s = ap returns (dequeue_clamped-eq z n s.items)
  dequeue_n-take z (negsuc n) s = refl

  -- PeekSlice(n) shows the oldest n values, or all if there are fewer or n is -1; below -1 it shows
  -- none. Peek shows the oldest, or the zero value if there is none.
  pub peek_lem :
      (zero_value : A) (n : ℕ) (s : SyncQueue A)
      → (peek_slice zero_value (pos n) s ≡ take n s.items)
        × (peek_slice zero_value (negsuc 0) s ≡ s.items)
        × (peek_slice zero_value (negsuc (suc n)) s ≡ [])
        × (peek zero_value s ≡ returns (elim s.items [ [] ↦ zero_value | t ∷ more ↦ t ]))
  unfolding peek peek_slice
  peek_lem z n s = (
    elim (Bool-cases (ltb (length s.items) n)) [
      | inl more ↦ ground (
        arith,
        copy_front-take z (length s.items) s.items,
        take-length s.items,
        take_all n s.items,
      )
      | inr fits ↦ ground (arith, copy_front-take z n s.items)
    ],
    copy_front-take z (length s.items) s.items (omega arith) ∙ take-length s.items,
    refl,
    peek_items s.items,
  )
    where
      peek_items :
          (items : List A)
          → peek z (record { items = items }) ≡ returns (elim items [ [] ↦ z | t ∷ more ↦ t ])
      peek_items [] = refl
      peek_items (t ∷ more) = ground arith
