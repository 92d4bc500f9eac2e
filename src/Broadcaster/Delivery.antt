-- ===== src/Broadcaster/Delivery.antt =====
-- How the worker of a broadcaster hands a value to the listeners (pkg/broadcaster/broadcaster.go, the
-- loop of Start), and subscriptions.
use mathlib.Core.Option
use goico.Shared.Key.{◌==◌, number_keys, ==-refl}
use goico.Shared.GoMap.{GoMap, lookup, put, remove, lookup-put, lookup-remove}
use goico.Shared.Result.{ok}
use goico.Shared.Outcome.{returns, ◌>>=◌}
use goico.Broadcaster.Chan.{send_case}
use goico.Broadcaster.Listener.{start_listener, stopped, Listener, IsQuiet, write_listener-returns}
use goico.Broadcaster.Heap.{stop_at-returns, subscribe-HeapOk}
use goico.Broadcaster.Invariant.{IsSound}
use goico.Broadcaster.State.{
  stop_at, Broadcaster, delivering, work, work_on, write_at, subscribe, is_subscribed, unsubscribe,
}
use goico.Broadcaster.Schedule.{works, step, run}
use goico.Shared.{
  sym, ap, ◌∙◌, ℕ, suc, ◌≡◌, refl, true, false, Bool, ◌||◌, List, [], ◌∷◌, ◌++◌, none, some, arith,
  eqb, eqb_iff, if◌then◌else◌, length, replicate,
}

abbrev pub member : ℕ → List ℕ → Bool
member j [] = false
member j (k ∷ ks) = eqb k j || member j ks

abbrev pub NoDouble : List ℕ → Type 0
NoDouble [] = Unit
NoDouble (k ∷ ks) = (member k ks ≡ false) × NoDouble ks

module _ {T : Type 0} where
  abbrev pub queued : T → Listener T → Listener T
  queued t x = record x { c = record x.c { buffer = x.c.buffer ++ t ∷ [] } }

  -- Every listener of the list is started and has an empty channel.
  abbrev pub HasRoom : List ℕ → GoMap ℕ (Listener T) → Type 0
  HasRoom [] heap = Unit
  HasRoom (k ∷ ks) heap =
      ((x : Listener T) × (lookup k heap ≡ some x)
        × IsQuiet x
        × (x.status_barrier.started ≡ true)
        × (x.c.buffer ≡ []))
      × HasRoom ks heap

  HasRoom-put :
      (ks : List ℕ) (k : ℕ) (y : Listener T) (heap : GoMap ℕ (Listener T))
      → member k ks ≡ false
      → HasRoom ks heap
      → HasRoom ks (put k y heap)
  HasRoom-put [] k y heap m h = tt
  HasRoom-put (j ∷ ks) k y heap m ((x, at, q, on, empty), more) = (
    (x, ground (arith, lookup-put k j y heap, eqb_iff k j, eqb_iff j k), q, on, empty),
    HasRoom-put ks k y heap (ground arith) more,
  )

  -- The heap in which each listener of the list has the value queued.
  unfoldable pub deliver : T → List ℕ → GoMap ℕ (Listener T) → GoMap ℕ (Listener T)
  deliver t [] heap = heap
  deliver t (k ∷ ks) heap = elim (lookup k heap) [
    | none ↦ deliver t ks heap
    | some x ↦ deliver t ks (put k (queued t x) heap)
  ]

  lookup-deliver :
      (t : T) (ks : List ℕ) (heap : GoMap ℕ (Listener T)) (j : ℕ)
      → NoDouble ks
      → HasRoom ks heap
      → lookup j (deliver t ks heap)
        ≡ (if member j ks then Option.map (queued t) (lookup j heap) else lookup j heap)
  unfolding deliver
  lookup-deliver t [] heap j d r = refl
  lookup-deliver t (k ∷ ks) heap j d ((x, at, q, on, empty), more) =
      rw (at, deliver)
        (ground (
          arith,
          at,
          lookup-deliver t ks (put k (queued t x) heap) j d.1
              (HasRoom-put ks k (queued t x) heap d.0 more),
          lookup-put k j (queued t x) heap,
          eqb_iff k j,
        ))

  write_at-queued :
      (t : T) (k : ℕ) (x : Listener T) (heap : GoMap ℕ (Listener T))
      → lookup k heap ≡ some x
      → IsQuiet x
      → x.status_barrier.started ≡ true
      → x.c.buffer ≡ []
      → write_at send_case t k heap ≡ returns (put k (queued t x) heap)
  unfolding write_at
  write_at-queued t k x heap at q on empty =
      rw (at, write_at) (simp (write_listener-returns send_case t x q, on, empty))

  deliver-cons :
      (t : T) (k : ℕ) (ks : List ℕ) (x : Listener T) (heap : GoMap ℕ (Listener T))
      → lookup k heap ≡ some x
      → deliver t (k ∷ ks) heap ≡ deliver t ks (put k (queued t x) heap)
  unfolding deliver
  deliver-cons t k ks x heap at = rw (at, deliver)

  one_turn :
      (t : T) (k : ℕ) (ks : List ℕ) (x : Listener T) (b : Broadcaster T)
      → b.cancelled ≡ false
      → write_at send_case t k b.heap ≡ returns (put k (queued t x) b.heap)
      → work_on send_case (delivering t (k ∷ ks)) b
        ≡ returns (record b { heap = put k (queued t x) b.heap; worker = delivering t ks })
  unfolding work_on
  one_turn t k ks x b live e = simp live (rw e)

  turns :
      (t : T) (ks : List ℕ) (b : Broadcaster T)
      → b.worker ≡ delivering t ks
      → b.cancelled ≡ false
      → NoDouble ks
      → HasRoom ks b.heap
      → run (replicate (length ks) (works send_case)) b
        ≡ returns (record b { heap = deliver t ks b.heap; worker = delivering t [] })
  unfolding run step work deliver
  turns t [] b w live d r = ground arith
  turns t (k ∷ ks) b w live d ((x, at, q, on, empty), more) =
      let b' : Broadcaster T = record b {
        heap = put k (queued t x) b.heap;
        worker = delivering t ks;
      } in
      let first : work send_case b ≡ returns b' =
        ap (λ v. work_on send_case v b) w
        ∙ one_turn t k ks x b live (write_at-queued t k x b.heap at q on empty) in
      ap (λ m. m >>= λ c. run (replicate (length ks) (works send_case)) c) first
      ∙ turns t ks b' refl live d.1 (HasRoom-put ks k (queued t x) b.heap d.0 more)
      ∙ ap (λ h. returns (record b { heap = h; worker = delivering t [] }))
          (sym (deliver-cons t k ks x b.heap at))

  -- A value that the worker of a running broadcaster holds reaches every listener that it has still to
  -- visit: with room in each of these, as many turns as there are listeners queue the value in the
  -- channel of each of them, once, and leave all other listeners as they are.
  pub delivers_to_all :
      (t : T) (ks : List ℕ) (b : Broadcaster T)
      → b.worker ≡ delivering t ks
      → b.cancelled ≡ false
      → NoDouble ks
      → HasRoom ks b.heap
      → (heap : GoMap ℕ (Listener T)) × (run (replicate (length ks) (works send_case)) b
          ≡ returns (record b { heap = heap; worker = delivering t [] }))
        × ((j : ℕ)
            → lookup j heap
              ≡ (if member j ks then Option.map (queued t) (lookup j b.heap) else lookup j b.heap))
  delivers_to_all t ks b w live d r =
      (deliver t ks b.heap, turns t ks b w live d r, λ j. lookup-deliver t ks b.heap j d r)

  -- On a started broadcaster Subscribe returns a new pointer, which is subscribed from then on, with
  -- an open and empty channel, while every other pointer stays as it was; after Unsubscribe of it, it
  -- is not subscribed.
  pub subscribe_then :
      (b : Broadcaster T)
      → IsSound b
      → b.status_barrier.started ≡ true
      → (b' : Broadcaster T) × (b'' : Broadcaster T) × (subscribe b ≡ returns (b', ok b.next))
        × (lookup b.next b.listeners ≡ none)
        × (is_subscribed b.next b' ≡ returns (b', ok true))
        × (lookup b.next b'.heap ≡ some start_listener)
        × ((j : ℕ)
            → lookup j b'.listeners ≡ (if b.next == j then some tt else lookup j b.listeners))
        × (unsubscribe b.next b' ≡ returns (b'', none))
        × (is_subscribed b.next b'' ≡ returns (b'', ok false))
  subscribe_then b s on =
      let b' : Broadcaster T = record b {
        listeners = put b.next tt b.listeners;
        heap = put b.next start_listener b.heap;
        next = suc b.next;
      } in
      let b'' : Broadcaster T = record b' {
        listeners = remove b.next b'.listeners;
        heap = put b.next (stopped start_listener) b'.heap;
      } in
      let there : lookup b.next b'.listeners ≡ some tt =
        rw (lookup-put b.next b.next tt b.listeners, ==-refl b.next) in
      let object : lookup b.next b'.heap ≡ some start_listener =
        rw (lookup-put b.next b.next (start_listener {T = T}) b.heap, ==-refl b.next) in
      let stops : stop_at b.next b'.heap ≡ returns b''.heap =
        (stop_at-returns b.next start_listener b'.listeners b'.heap b'.next
          (subscribe-HeapOk b.listeners b.heap b.next s.heap_ok) object).0 in
      let gone : lookup b.next b''.listeners ≡ none =
        rw (lookup-remove b.next b.next b'.listeners, ==-refl b.next) in
      (
        b',
        b'',
        unfold subscribe in ground arith,
        (s.heap_ok.fresh b.next (omega arith)).1,
        unfold is_subscribed in ground (arith, there),
        object,
        λ j. lookup-put b.next j tt b.listeners,
        unfold unsubscribe in ground (arith, there, stops),
        unfold is_subscribed in ground (arith, gone),
      )
