-- ===== src/Broadcaster/Stopping.antt =====
-- Stop of a broadcaster (pkg/broadcaster/broadcaster.go), what the methods do afterwards, and a start
-- after a stop.
use mathlib.Core.Option
use goico.Shared.GoMap.{lookup}
use goico.Broadcaster.Listener.{err_stopped}
use goico.Shared.Result.{err}
use goico.Shared.Key.{number_keys}
use goico.Shared.Outcome.{panics, returns, Safely-cases}
use goico.Broadcaster.Chan.{send_case, Pick}
use goico.Broadcaster.Heap.{HeapOk, stop_all-returns}
use goico.Broadcaster.Invariant.{IsSound}
use goico.Broadcaster.Steps.{wait_worker-HeapOk}
use goico.Broadcaster.State.{
  waiting, write, is_subscribed, unsubscribe, subscribe, stop_all, write_sync, start, Broadcaster,
  stop, wait_worker,
}
use goico.Shared.{
  Option-cases, ◌≢◌, refl, not, ap, ◌∙◌, some, ℕ, ◌≡◌, inl, inr, true, false, Option, none, [],
  arith,
}

module _ {T : Type 0} (inside : Option Pick) (b b' : Broadcaster T) (s : IsSound b)
    (done : stop inside b ≡ returns (b', none)) where
  -- What a successful Stop leaves.
  stop-heap :
      (b.pending ≡ [])
      × (b'.listeners ≡ [])
      × HeapOk [] b'.heap b'.next
      × (b'.c.closed ≡ true)
      × (b'.status_barrier.started ≡ false)
      × (b'.status_barrier.writing ≡ false)
      × (b'.status_barrier.readers ≡ 0)
      × (b'.pending ≡ [])
  unfolding stop
  stop-heap =
      elim (Safely-cases (λ heap. HeapOk b.listeners heap b.next)
        (wait_worker inside b.worker b.heap) (wait_worker-HeapOk inside b.worker b s.heap_ok)) [
          | inl e ↦ absurd (ground (arith, e))
          | inr (heap, e, h) ↦
              let (heap', all, h') = stop_all-returns b.listeners heap b.next h in
              ground (arith, e, all, h')
        ]

module _ {T : Type 0} where
  -- A successful Stop ran while no goroutine of Write was under way. It leaves no subscription, and
  -- closes the channel of the broadcaster and of every listener that there ever was.
  pub stop_closes_all :
      (inside : Option Pick) (b b' : Broadcaster T)
      → IsSound b
      → stop inside b ≡ returns (b', none)
      → (b.pending ≡ [])
        × (b'.listeners ≡ [])
        × (b'.c.closed ≡ true)
        × ((k : ℕ) → Option.map (λ x. x.c.closed) (lookup k b'.heap) ≢ some false)
  unfolding lookup
  stop_closes_all inside b b' s done =
      let (quiet, gone, heap, closed, off, unlocked, readers, pending) =
        stop-heap inside b b' s done in
      (
        quiet,
        gone,
        closed,
        λ k still. elim (Option-cases (lookup k b'.heap)) [
          | inl e ↦ absurd (ground (arith, e, still))
          | inr (x, at) ↦
              let shut : x.c.closed ≡ true =
                (heap.quiet k x at).open_while_started ∙ ap not (heap.others k x refl at) in
              absurd (ground (arith, at, shut, still))
        ],
      )

  -- After a successful Stop a second Stop, Subscribe, Unsubscribe, IsSubscribed, Write and WriteSync
  -- return ErrStopped and change nothing.
  stopped_refuses :
      (inside inside' : Option Pick) (b b' : Broadcaster T) (l : ℕ) (pick : Pick) (t : T)
      → IsSound b
      → stop inside b ≡ returns (b', none)
      → (stop inside' b' ≡ returns (b', some err_stopped))
        × (subscribe b' ≡ returns (b', err err_stopped))
        × (unsubscribe l b' ≡ returns (b', some err_stopped))
        × (is_subscribed l b' ≡ returns (b', err err_stopped))
        × (write t b' ≡ returns (b', some err_stopped))
        × (write_sync pick t b' ≡ returns (b', some err_stopped))
  stopped_refuses inside inside' b b' l pick t s done =
      let (quiet, gone, heap, closed, off, unlocked, readers, pending) =
        stop-heap inside b b' s done in
      (
        unfold stop in ground arith,
        unfold subscribe in ground arith,
        unfold unsubscribe in ground arith,
        unfold is_subscribed in ground arith,
        unfold write in ground arith,
        unfold write_sync in ground arith,
      )

  abbrev restarted : Broadcaster T → Broadcaster T
  restarted b = record b {
    worker = waiting;
    status_barrier = record b.status_barrier { started = true };
  }

  -- A Start after a successful Stop goes through, but the channel stays closed: the next value that is
  -- sent panics, and so does the next Stop.
  pub restart_panics :
      (inside : Option Pick) (b b' : Broadcaster T) (t : T)
      → IsSound b
      → stop inside b ≡ returns (b', none)
      → (b'' : Broadcaster T) × (start b' ≡ returns b'')
        × (b''.status_barrier.started ≡ true)
        × (write_sync send_case t b'' ≡ panics)
        × (stop none b'' ≡ panics)
  restart_panics inside b b' t s done =
      let (quiet, gone, heap, closed, off, unlocked, readers, pending) =
        stop-heap inside b b' s done in
      (
        restarted b',
        unfold start in ground arith,
        refl,
        unfold write_sync in ground arith,
        unfold stop wait_worker stop_all in ground arith,
      )
