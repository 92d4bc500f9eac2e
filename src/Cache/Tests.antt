-- ===== src/Cache/Tests.antt =====
-- Instances of the theorems on pkg/service/grpc/cache at a cache of numbers with a running broadcaster.
use goico.Shared.{List, ◌++◌, ℕ, ◌≡◌, refl, true, false, none, some, [], ◌∷◌, arith, if◌then◌else◌}
use goico.Shared.Result.{ok, err}
use goico.Shared.GoMap.{lookup, put}
use goico.Shared.Key.{number_keys}
use goico.Shared.Outcome.{returns}
use goico.Broadcaster.Listener.{err_stopped, IsQuiet, Listener, start_listener}
use goico.Broadcaster.Barrier.{barrier}
use goico.Broadcaster.Heap.{replace-HeapOk, subscribe-HeapOk}
use goico.Broadcaster.Invariant.{IsSound, new_broadcaster-IsSound, start-IsSound}
use goico.Broadcaster.State
use goico.Broadcaster.State.{Broadcaster, new_broadcaster, waiting, absent}
use goico.Broadcaster.Chan.{make_chan}
use goico.Cache.Recv.{
  Turn, received, stream_done, write_error, recv, with_writes, ended_by, recv_lem,
}
use goico.Cache.Client
use goico.Cache.Client.{
  fresh, Client, ClientError, of_grpc, session, joined, listener_for_events, session_lem,
}
use goico.Cache.State.{
  Event, event_add, event_update, event_delete, Cache, add_or_update, update, delete, get,
}
use goico.Cache.Events.{ended, send_error, context_error, context_done, message, events_turn}
use goico.Cache.Publish.{with_event, publish_lem, events_turn_lem}

abbrev running : Broadcaster Event
running = record {
  listeners = [];
  heap = [];
  next = 0;
  c = record { buffer = []; closed = false };
  cancelled = false;
  worker = waiting;
  status_barrier = barrier 0 true;
  pending = [];
}

running-IsSound : IsSound running
unfolding State.start new_broadcaster
running-IsSound = start-IsSound (new_broadcaster false) (new_broadcaster-IsSound false) refl

abbrev not_started : Broadcaster Event
not_started = record running { worker = absent; status_barrier = barrier 0 false }

not_started-IsSound : IsSound not_started
unfolding new_broadcaster
not_started-IsSound = new_broadcaster-IsSound false

abbrev one_entry : Broadcaster Event → Cache ℕ ℕ
one_entry b = record { name = 99 ∷ []; defs = (4, 40) ∷ []; broadcaster = some b }

publish_lem_example :
    (added : Cache ℕ ℕ) × (updated : Cache ℕ ℕ) × (deleted : Cache ℕ ℕ) × (add_or_update 4 41
        (one_entry running)
      ≡ returns (added, none))
    × (get 4 added ≡ (if number_keys.same 4 4 then some 41 else get 4 (one_entry running)))
    × (added.broadcaster ≡ some (with_event event_add (99 ∷ []) running))
    × (update 4 41 (one_entry running) ≡ returns (updated, none))
    × (get 4 updated ≡ (if number_keys.same 4 4 then some 41 else get 4 (one_entry running)))
    × (updated.broadcaster ≡ some (with_event event_update (99 ∷ []) running))
    × (delete 4 (one_entry running) ≡ returns (deleted, none))
    × (get 4 deleted ≡ (if number_keys.same 4 4 then none else get 4 (one_entry running)))
    × (deleted.broadcaster ≡ some (with_event event_delete (99 ∷ []) running))
publish_lem_example = publish_lem (one_entry running) running 4 4 41 refl running-IsSound refl

-- One listener, whose channel holds an event.
abbrev an_event : Event
an_event = record { type = event_add; name = 99 ∷ [] }

abbrev loaded : Listener Event
loaded = record {
  c = record { buffer = an_event ∷ []; closed = false };
  status_barrier = barrier 0 true;
}

abbrev listened : Broadcaster Event
listened = record running { listeners = (0, tt) ∷ []; heap = (0, loaded) ∷ []; next = 1 }

loaded-IsQuiet : IsQuiet loaded
loaded-IsQuiet = record {
  unread = refl;
  unlocked = refl;
  open_while_started = refl;
  fits = omega arith;
}

listened-IsSound : IsSound listened
listened-IsSound = record {
  unlocked = refl;
  counted = refl;
  heap_ok =
      (unfold put lookup start_listener make_chan in
        replace-HeapOk 0 start_listener loaded ((0, tt) ∷ []) ((0, start_listener) ∷ []) 1
          (subscribe-HeapOk [] [] 0 running-IsSound.heap_ok) refl loaded-IsQuiet refl);
  idle = λ h. absurd (cc);
  fits = omega arith;
  open_while_started = λ h. refl;
}

events_turn_lem_example :
    (left : Cache ℕ ℕ) × (b1 : Broadcaster Event) × (failed : Cache ℕ ℕ) × (b2 : Broadcaster Event)
    × (events_turn {X = ℕ} context_done 0 (one_entry listened)
        ≡ returns (left, ended context_error))
    × (left.broadcaster ≡ some b1)
    × (lookup 0 b1.listeners ≡ none)
    × (events_turn {X = ℕ} (message (some 5)) 0 (one_entry listened)
        ≡ returns (failed, ended (send_error 5)))
    × (failed.broadcaster ≡ some b2)
    × (lookup 0 b2.listeners ≡ some tt)
events_turn_lem_example =
    events_turn_lem (one_entry listened) listened 0 loaded an_event [] 5 refl listened-IsSound refl
      (unfold lookup in refl) (unfold lookup in refl) refl

-- Two messages, one failed RecvMsg, and the end of the stream
abbrev turns : List (Turn ℕ Event)
turns = received (ok an_event) ∷ received (err 3) ∷ received (ok an_event) ∷ []

recv_lem_example :
    (recv turns running ≡ returns (with_writes 0 (an_event ∷ an_event ∷ []) running, none))
    × (recv (turns ++ stream_done 8 ∷ []) running
        ≡ returns (
          with_writes 0 (an_event ∷ an_event ∷ []) running,
          ended_by {T = Event} (stream_done 8),
        ))
    × (recv {X = ℕ} (received (ok an_event) ∷ []) not_started
        ≡ returns
            (not_started, some (record { reason = write_error err_stopped; closed_send = false })))
recv_lem_example =
    recv_lem turns [] (stream_done 8) 0 running not_started an_event refl refl refl refl

session_lem_example :
    ((c : Client) × (session {X = ℕ} false none none (some 4) none (fresh (58 ∷ []))
        ≡ returns (c, ok 0, ok 1, joined of_grpc (some 4)))
      × (c.receivers ≡ 1)
      × (listener_for_events {X = ℕ} false none c
          ≡ returns (c, err (Client.of_broadcaster err_stopped))))
    × ((c : Client) × (session {X = ℕ} false (some 6) none (some 4) none (fresh (58 ∷ []))
          ≡ returns (c, err (of_grpc 6), ok 0, joined of_grpc (some 4)))
        × (c.receivers ≡ 0))
session_lem_example = session_lem (58 ∷ []) false none (some 4) none 6 none
