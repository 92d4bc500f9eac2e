-- ===== src/Broadcaster/Steps.antt =====
-- The steps of a broadcaster that touch other objects keep its invariant
-- (pkg/broadcaster/broadcaster.go): Unsubscribe, the goroutine of Write, Stop, and the worker.
use goico.Shared.Key.{number_keys}
use goico.Shared.GoMap.{lookup}
use goico.Shared.Outcome.{Safely, Safely-cases}
use goico.Broadcaster.Chan.{Pick, send_case, timer_case}
use goico.Broadcaster.Heap.{HeapOk, stop_at-returns, write_at-HeapOk, stop_all-returns}
use goico.Broadcaster.Invariant.{IsSound}
use goico.Broadcaster.State.{
  work, write_at, Broadcaster, Worker, absent, waiting, delivering, stop, wait_worker, unsubscribe,
  complete, take_next, work_on, pick_out,
}
use goico.Shared.{
  ℕ, zero, suc, ◌≡◌, refl, ap, inl, inr, Option, none, some, List, [], ◌∷◌, arith, Bool-cases,
  Option-cases, length, length-append,
}

length-pick_out {ℓ} :
    {A : Type ℓ} (i : ℕ) (xs : List A) (x : A) (rest : List A)
    → pick_out i xs ≡ some (x, rest)
    → length xs ≡ suc (length rest)
length-pick_out i [] x rest h = absurd (cc)
length-pick_out zero (y ∷ xs) x rest h = ground arith
length-pick_out (suc i) (y ∷ xs) x rest h = elim (Option-cases (pick_out i xs)) [
  | inl e ↦ absurd (ground arith)
  | inr ((z, more), e) ↦ ground (arith, length-pick_out i xs z more e)
]

module _ {T : Type 0} where
  pub unsubscribe-IsSound :
      (l : ℕ) (b : Broadcaster T) → IsSound b → Safely (λ p. IsSound p.0) (unsubscribe l b)
  unfolding unsubscribe
  unsubscribe-IsSound l b s = elim (Option-cases (lookup l b.listeners)) [
    | inl e ↦ ground (arith, s.idle, s.open_while_started)
    | inr (u, e) ↦
        let (x, at, on) = s.heap_ok.live l e in
        let (ret, h') = stop_at-returns l x b.listeners b.heap b.next s.heap_ok at in
        ground (arith, ret, h', s.idle, s.open_while_started)
  ]

  pub complete-IsSound :
      (pick : Pick) (i : ℕ) (b : Broadcaster T) → IsSound b → Safely IsSound (complete pick i b)
  unfolding complete
  complete-IsSound timer_case i b s = elim (Option-cases (pick_out i b.pending)) [
    | inl e ↦ rw (e, complete) tt
    | inr ((t, rest), e) ↦
        ground (arith, s.idle, s.open_while_started, length-pick_out i b.pending t rest e)
  ]
  complete-IsSound send_case i b s = elim (Option-cases (pick_out i b.pending)) [
    | inl e ↦ rw (e, complete) tt
    | inr ((t, rest), e) ↦ ground (
      arith,
      s.idle,
      s.open_while_started,
      length-pick_out i b.pending t rest e,
      length-append b.c.buffer (t ∷ []),
    )
  ]

  pub wait_worker-HeapOk :
      (inside : Option Pick) (w : Worker T) (b : Broadcaster T)
      → HeapOk b.listeners b.heap b.next
      → Safely (λ heap. HeapOk b.listeners heap b.next) (wait_worker inside w b.heap)
  unfolding wait_worker
  wait_worker-HeapOk none w b h = h
  wait_worker-HeapOk (some pick) absent b h = h
  wait_worker-HeapOk (some pick) waiting b h = h
  wait_worker-HeapOk (some pick) (delivering t []) b h = h
  wait_worker-HeapOk (some pick) (delivering t (k ∷ ks)) b h =
      write_at-HeapOk pick t k b.listeners b.heap b.next h

  pub stop-IsSound :
      (inside : Option Pick) (b : Broadcaster T)
      → IsSound b
      → Safely (λ p. IsSound p.0) (stop inside b)
  unfolding stop
  stop-IsSound inside b s =
      elim (Safely-cases (λ heap. HeapOk b.listeners heap b.next)
        (wait_worker inside b.worker b.heap) (wait_worker-HeapOk inside b.worker b s.heap_ok)) [
          | inl e ↦ ground (arith, e, s.idle, s.open_while_started)
          | inr (heap, e, h) ↦
              let (heap', all, h') = stop_all-returns b.listeners heap b.next h in
              ground (arith, e, all, h', s.idle, s.open_while_started)
        ]

  take_next-IsSound :
      (items : List T) (b : Broadcaster T)
      → b.c.buffer ≡ items
      → b.worker ≡ waiting
      → IsSound b
      → Safely IsSound (take_next items b)
  unfolding take_next
  take_next-IsSound [] b e w s = elim (Bool-cases b.c.closed) [
    | inl closed ↦ simp closed s
    | inr still ↦ simp still tt
  ]
  take_next-IsSound (t ∷ more) b e w s = ground (arith, s.idle, s.open_while_started, ap length e)

  work_on-IsSound :
      (pick : Pick) (w : Worker T) (b : Broadcaster T)
      → b.worker ≡ w
      → IsSound b
      → Safely IsSound (work_on pick w b)
  unfolding work_on
  work_on-IsSound pick absent b e s = tt
  work_on-IsSound timer_case waiting b e s = ground (arith, s.idle, s.open_while_started)
  work_on-IsSound send_case waiting b e s = take_next-IsSound b.c.buffer b refl e s
  work_on-IsSound pick (delivering t []) b e s = ground (arith, s.idle, s.open_while_started)
  work_on-IsSound pick (delivering t (k ∷ ks)) b e s =
      elim (Safely-cases (λ heap. HeapOk b.listeners heap b.next) (write_at pick t k b.heap)
        (write_at-HeapOk pick t k b.listeners b.heap b.next s.heap_ok)) [
          | inl e' ↦ ground (arith, e', s.idle, s.open_while_started)
          | inr (heap, e', h) ↦ ground (arith, e', h, s.idle, s.open_while_started)
        ]

  -- A turn of the worker.
  pub work-IsSound : (pick : Pick) (b : Broadcaster T) → IsSound b → Safely IsSound (work pick b)
  unfolding work
  work-IsSound pick b s = work_on-IsSound pick b.worker b refl s
