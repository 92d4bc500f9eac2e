-- ===== src/Cache/Publish.antt =====
-- What the changes of a cache (pkg/service/grpc/cache/cache.go) store and publish, and what its event
-- server (pkg/service/grpc/cache/service.go) does with the listener.
use goico.Shared.{
  ℕ, ◌+◌, ◌≡◌, refl, true, false, none, some, List, [], ◌∷◌, ◌++◌, arith, if◌then◌else◌,
}
use goico.Shared.GoMap.{lookup, put, remove, lookup-put, lookup-remove}
use goico.Shared.Key.{number_keys, Comparable, ◌==◌, ==-refl}
use goico.Shared.Outcome.{returns}
use goico.Broadcaster.Listener.{err_stopped, Listener, stopped}
use goico.Broadcaster.Barrier.{barrier}
use goico.Broadcaster.Invariant.{IsSound}
use goico.Broadcaster.State
use goico.Broadcaster.Heap.{stop_at-returns}
use goico.Broadcaster.State.{stop_at, Broadcaster, write}
use goico.Cache.State.{
  Event, EventType, event_add, event_update, event_delete, Cache, of_broadcaster, add_or_update,
  update, delete, get, publish, unsubscribe,
}
use goico.Cache.Events.{
  ended, send_error, context_error, context_done, message, events_turn, take_event,
}

-- The broadcaster once a goroutine of Write holds the event.
abbrev pub with_event : EventType → List ℕ → Broadcaster Event → Broadcaster Event
with_event type name b = record b {
  pending = b.pending ++ record { type = type; name = name } ∷ [];
  status_barrier = barrier (b.status_barrier.readers + 1) true;
}

module _ {K V : Type 0} ⦃c : Comparable K⦄ where
  publish-started :
      (type : EventType) (s : Cache K V) (b : Broadcaster Event)
      → s.broadcaster ≡ some b
      → IsSound b
      → b.status_barrier.started ≡ true
      → publish type s ≡ returns (record s { broadcaster = some (with_event type s.name b) }, none)
  publish-started type s b here sound on =
      unfold publish write in ground (arith, here, sound.unlocked, on)

  publish-stopped :
      (type : EventType) (s : Cache K V) (b : Broadcaster Event)
      → s.broadcaster ≡ some b
      → IsSound b
      → b.status_barrier.started ≡ false
      → publish type s ≡ returns (s, some (of_broadcaster err_stopped))
  publish-stopped type s b here sound off =
      unfold publish write in ground (arith, here, sound.unlocked, off)

  -- On a cache whose broadcaster runs, AddOrUpdate, Update and Delete change the entry of the key and
  -- no other, return no error, and publish one event, of their kind and with the cache's name.
  pub publish_lem :
      (s : Cache K V) (b : Broadcaster Event) (k j : K) (v : V)
      → s.broadcaster ≡ some b
      → IsSound b
      → b.status_barrier.started ≡ true
      → (added : Cache K V) × (updated : Cache K V) × (deleted : Cache K V) × (add_or_update k v s
          ≡ returns (added, none))
        × (get j added ≡ (if k == j then some v else get j s))
        × (added.broadcaster ≡ some (with_event event_add s.name b))
        × (update k v s ≡ returns (updated, none))
        × (get j updated ≡ (if k == j then some v else get j s))
        × (updated.broadcaster ≡ some (with_event event_update s.name b))
        × (delete k s ≡ returns (deleted, none))
        × (get j deleted ≡ (if k == j then none else get j s))
        × (deleted.broadcaster ≡ some (with_event event_delete s.name b))
  unfolding get add_or_update update delete
  publish_lem s b k j v here sound on = (
    record s { defs = put k v s.defs; broadcaster = some (with_event event_add s.name b) },
    record s { defs = put k v s.defs; broadcaster = some (with_event event_update s.name b) },
    record s { defs = remove k s.defs; broadcaster = some (with_event event_delete s.name b) },
    publish-started event_add (record s { defs = put k v s.defs }) b here sound on,
    lookup-put k j v s.defs,
    refl,
    publish-started event_update (record s { defs = put k v s.defs }) b here sound on,
    lookup-put k j v s.defs,
    refl,
    publish-started event_delete (record s { defs = remove k s.defs }) b here sound on,
    lookup-remove k j s.defs,
    refl,
  )

  -- On a cache whose broadcaster does not run, AddOrUpdate, Update and Delete return ErrStopped although
  -- they have changed the entry.
  pub publish_stopped :
      (s : Cache K V) (b : Broadcaster Event) (k : K) (v : V)
      → s.broadcaster ≡ some b
      → IsSound b
      → b.status_barrier.started ≡ false
      → (add_or_update k v s
          ≡ returns (record s { defs = put k v s.defs }, some (of_broadcaster err_stopped)))
        × (update k v s
            ≡ returns (record s { defs = put k v s.defs }, some (of_broadcaster err_stopped)))
        × (delete k s
            ≡ returns (record s { defs = remove k s.defs }, some (of_broadcaster err_stopped)))
  unfolding add_or_update update delete
  publish_stopped s b k v here sound off = (
    publish-stopped event_add (record s { defs = put k v s.defs }) b here sound off,
    publish-stopped event_update (record s { defs = put k v s.defs }) b here sound off,
    publish-stopped event_delete (record s { defs = remove k s.defs }) b here sound off,
  )

  -- A call of Events, on a cache whose broadcaster runs, holds a subscribed listener with an event in
  -- its channel. If the client goes away, the listener is unsubscribed; if the event cannot be sent, the
  -- call ends and the listener stays subscribed.
  pub events_turn_lem :
      {X : Type 0} (s : Cache K V) (b : Broadcaster Event) (l : ℕ) (x : Listener Event) (d : Event)
      (rest : List Event) (e : X)
      → s.broadcaster ≡ some b
      → IsSound b
      → b.status_barrier.started ≡ true
      → lookup l b.listeners ≡ some tt
      → lookup l b.heap ≡ some x
      → x.c.buffer ≡ d ∷ rest
      → (left : Cache K V) × (b1 : Broadcaster Event) × (failed : Cache K V) × (b2 : Broadcaster
          Event)
        × (events_turn {X = X} context_done l s ≡ returns (left, ended context_error))
        × (left.broadcaster ≡ some b1)
        × (lookup l b1.listeners ≡ none)
        × (events_turn (message (some e)) l s ≡ returns (failed, ended (send_error e)))
        × (failed.broadcaster ≡ some b2)
        × (lookup l b2.listeners ≡ some tt)
  events_turn_lem s b l x d rest e here sound on subscribed at full =
      let b1 : Broadcaster Event = record b {
        listeners = remove l b.listeners;
        heap = put l (stopped x) b.heap;
        status_barrier = barrier b.status_barrier.readers true;
      } in
      let b2 : Broadcaster Event = record b {
        heap = put l (record x { c = record x.c { buffer = rest } }) b.heap;
      } in
      let stops : stop_at l b.heap ≡ returns b1.heap =
        (stop_at-returns l x b.listeners b.heap b.next sound.heap_ok at).0 in
      let gone : lookup l b1.listeners ≡ none = rw (lookup-remove l l b.listeners, ==-refl l) in
      let leaves : State.unsubscribe l b ≡ returns (b1, none) =
        unfold State.unsubscribe in ground (arith, subscribed, stops, sound.unlocked, on) in
      (
        record s { broadcaster = some b1 },
        b1,
        record s { broadcaster = some b2 },
        b2,
        unfold events_turn unsubscribe in ground (arith, here, leaves),
        refl,
        gone,
        unfold events_turn take_event in ground (arith, here, at, full),
        refl,
        subscribed,
      )
