-- ===== src/Broadcaster/Heap.antt =====
-- The listeners of a broadcaster (pkg/broadcaster/broadcaster.go): the pointers that are subscribed,
-- and the objects that they point to.
use goico.Shared.Key.{number_keys, ==-refl}
use goico.Shared.GoMap.{
  GoMap, lookup, put, remove, Distinct, lookup-put, lookup-remove, put-Distinct, remove-Distinct,
  remove_absent,
}
use goico.Broadcaster.Listener.{
  Listener, IsQuiet, start_listener, start_listener-IsQuiet, stopped, stop_listener-returns,
  write_listener,
}
use goico.Shared.{
  ℕ, suc, ◌≤◌, ◌≡◌, refl, inl, inr, true, false, none, some, [], ◌∷◌, arith, eqb, eqb_iff,
  Bool-cases, Option-cases, length-append,
}
use goico.Shared.Outcome.{Safely, Safely-bind, returns}
use goico.Broadcaster.Chan.{Pick, send_case, timer_case}
use goico.Broadcaster.State.{stop_at, write_at, stop_all, keys_of}

module _ {T : Type 0} where
  -- Subscribed pointers lead to started listeners, all others to stopped ones, and pointers from
  -- `next` on are free.
  pub record HeapOk (listeners : GoMap ℕ (Unit {0})) (heap : GoMap ℕ (Listener T)) (next : ℕ)
      : Type 0 where
    pub quiet : (l : ℕ) (x : Listener T) → lookup l heap ≡ some x → IsQuiet x
    pub live :
        (l : ℕ)
        → lookup l listeners ≡ some tt
        → (x : Listener T) × (lookup l heap ≡ some x) × (x.status_barrier.started ≡ true)
    pub others :
        (l : ℕ) (x : Listener T)
        → lookup l listeners ≡ none
        → lookup l heap ≡ some x
        → x.status_barrier.started ≡ false
    pub fresh : (l : ℕ) → next ≤ l → (lookup l heap ≡ none) × (lookup l listeners ≡ none)
    pub distinct : Distinct listeners

  pub subscribe-HeapOk :
      (listeners : GoMap ℕ (Unit {0})) (heap : GoMap ℕ (Listener T)) (next : ℕ)
      → HeapOk listeners heap next
      → HeapOk (put next tt listeners) (put next start_listener heap) (suc next)
  unfolding start_listener
  subscribe-HeapOk listeners heap next h = record {
    quiet = λ l x e.
        ground (
          arith,
          lookup-put next l start_listener heap,
          h.quiet l x,
          start_listener-IsQuiet {T = T},
        );
    live = λ l e. elim (Bool-cases (eqb next l)) [
      | inl same ↦ (start_listener, rw (lookup-put next l start_listener heap, same), refl)
      | inr other ↦
          let (x, at, on) = h.live l (rw (lookup-put next l tt listeners, other) at e) in
          (x, rw (lookup-put next l start_listener heap, other) at, on)
    ];
    others = λ l x e a. ground (
      arith,
      lookup-put next l start_listener heap,
      lookup-put next l tt listeners,
      h.others l x,
    );
    fresh = λ l le.
        ground
          (arith, lookup-put next l start_listener heap, lookup-put next l tt listeners, h.fresh l);
    distinct = put-Distinct next tt listeners h.distinct;
  }

  -- Another quiet listener of the same status takes the place of one.
  pub replace-HeapOk :
      (k : ℕ) (x y : Listener T) (listeners : GoMap ℕ (Unit {0})) (heap : GoMap ℕ (Listener T))
      (next : ℕ)
      → HeapOk listeners heap next
      → lookup k heap ≡ some x
      → IsQuiet y
      → y.status_barrier.started ≡ x.status_barrier.started
      → HeapOk listeners (put k y heap) next
  replace-HeapOk k x y listeners heap next h at q same = record {
    quiet = λ l z e. ground (arith, lookup-put k l y heap, h.quiet l z);
    live = λ l e. elim (Bool-cases (eqb k l)) [
      | inl eq ↦
          let (z, at', on) = h.live l e in
          (y, rw (lookup-put k l y heap, eq), ground (arith, eqb_iff k l))
      | inr other ↦ let (z, at', on) = h.live l e in (z, rw (lookup-put k l y heap, other) at', on)
    ];
    others =
        λ l z e a. ground (arith, lookup-put k l y heap, h.others l z, h.others l x, eqb_iff k l);
    fresh = λ l le. ground (arith, lookup-put k l y heap, h.fresh l, eqb_iff k l);
    distinct = h.distinct;
  }

  stopped-IsQuiet : (x : Listener T) → IsQuiet x → IsQuiet (stopped x)
  stopped-IsQuiet x q = ground arith

  -- A stopped listener that is no longer subscribed takes the place of a subscribed one.
  drop-HeapOk :
      (k : ℕ) (x : Listener T) (listeners : GoMap ℕ (Unit {0})) (heap : GoMap ℕ (Listener T))
      (next : ℕ)
      → HeapOk listeners heap next
      → lookup k heap ≡ some x
      → HeapOk (remove k listeners) (put k (stopped x) heap) next
  drop-HeapOk k x listeners heap next h at = record {
    quiet = λ l z e.
        ground
          (arith, lookup-put k l (stopped x) heap, h.quiet l z, stopped-IsQuiet x (h.quiet k x at));
    live = λ l e. elim (Bool-cases (eqb k l)) [
      | inl eq ↦ absurd (ground (arith, lookup-remove k l listeners))
      | inr other ↦
          let (z, at', on) = h.live l (rw (lookup-remove k l listeners, other) at e) in
          (z, rw (lookup-put k l (stopped x) heap, other) at', on)
    ];
    others = λ l z e a. ground (
      arith,
      lookup-put k l (stopped x) heap,
      lookup-remove k l listeners,
      h.others l z,
      eqb_iff k l,
    );
    fresh = λ l le. ground (
      arith,
      lookup-put k l (stopped x) heap,
      lookup-remove k l listeners,
      h.fresh l,
      eqb_iff k l,
    );
    distinct = remove-Distinct k listeners h.distinct;
  }

  -- Stopping a subscribed pointer closes its channel.
  pub stop_at-returns :
      (k : ℕ) (x : Listener T) (listeners : GoMap ℕ (Unit {0})) (heap : GoMap ℕ (Listener T))
      (next : ℕ)
      → HeapOk listeners heap next
      → lookup k heap ≡ some x
      → (stop_at k heap ≡ returns (put k (stopped x) heap))
        × HeapOk (remove k listeners) (put k (stopped x) heap) next
  unfolding stop_at
  stop_at-returns k x listeners heap next h at = (
    rw (at, stop_at) (rw (stop_listener-returns x (h.quiet k x at))),
    drop-HeapOk k x listeners heap next h at,
  )

  write_listener-Safely :
      (pick : Pick) (t : T) (x : Listener T)
      → IsQuiet x
      → Safely
          (λ p. IsQuiet p.0 × (p.0.status_barrier.started ≡ x.status_barrier.started))
          (write_listener pick t x)
  unfolding write_listener
  write_listener-Safely timer_case t x q = ground arith
  write_listener-Safely send_case t x q = ground (arith, length-append x.c.buffer (t ∷ []))

  -- A write through a pointer never panics, and what it returns is sound.
  pub write_at-HeapOk :
      (pick : Pick) (t : T) (k : ℕ) (listeners : GoMap ℕ (Unit {0})) (heap : GoMap ℕ (Listener T))
      (next : ℕ)
      → HeapOk listeners heap next
      → Safely (λ heap'. HeapOk listeners heap' next) (write_at pick t k heap)
  unfolding write_at
  write_at-HeapOk pick t k listeners heap next h = elim (Option-cases (lookup k heap)) [
    | inl e ↦ rw (e, write_at) h
    | inr (x, at) ↦
        rw (at, write_at)
          (Safely-bind _ _ (write_listener pick t x) _
            (write_listener-Safely pick t x (h.quiet k x at))
            (λ p ok. replace-HeapOk k x p.0 listeners heap next h at ok.0 ok.1))
  ]

  -- `Stop` stops and deletes every listener: none is subscribed, and all are sound.
  pub stop_all-returns :
      (listeners : GoMap ℕ (Unit {0})) (heap : GoMap ℕ (Listener T)) (next : ℕ)
      → HeapOk listeners heap next
      → (heap' : GoMap ℕ (Listener T)) × (stop_all (keys_of listeners) listeners heap
          ≡ returns ([], heap'))
        × HeapOk [] heap' next
  unfolding stop_all lookup remove
  stop_all-returns [] heap next h = (heap, refl, h)
  stop_all-returns ((k, v) ∷ m) heap next h =
      let (x, at, on) = h.live k (rw (==-refl k)) in
      let (ret, h') = stop_at-returns k x ((k, v) ∷ m) heap next h at in
      let e : remove k ((k, v) ∷ m) ≡ m = rw (==-refl k) (remove_absent k m h.distinct.0) in
      let (heap', all, h'') = stop_all-returns m (put k (stopped x) heap) next (rw e at h') in
      (heap', rw (ret, e) all, h'')
