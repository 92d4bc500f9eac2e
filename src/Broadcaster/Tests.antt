-- ===== src/Broadcaster/Tests.antt =====
-- Tests of pkg/broadcaster, and its theorems at concrete runs.
use mathlib.Core.Option
use goico.Shared.Key.{number_keys}
use goico.Shared.GoMap.{GoMap, lookup}
use goico.Shared.Outcome.{returns, panics, Safely}
use goico.Broadcaster.Chan.{send_case}
use goico.Broadcaster.Barrier.{barrier}
use goico.Broadcaster.Listener.{Listener}
use goico.Broadcaster.Invariant.{IsSound, new_broadcaster-IsSound, start-IsSound}
use goico.Broadcaster.State.{
  Broadcaster, waiting, absent, delivering, new_broadcaster, start, stop, stop_all, wait_worker,
  write_sync,
}
use goico.Broadcaster.Schedule.{
  Event, starts, stops, subscribes, writes, completes, works, receives, run, run-Safely,
}
use goico.Broadcaster.Stopping.{stop_closes_all, restart_panics}
use goico.Broadcaster.Delivery.{HasRoom, member, delivers_to_all, queued}
use goico.Shared.{
  ℕ, ◌≡◌, ◌≢◌, refl, true, false, List, [], ◌∷◌, none, some, arith, if◌then◌else◌, replicate,
}

-- Two listeners, one value written asynchronously and delivered, then a stop.
abbrev session : List (Event ℕ)
session =
    starts
    ∷ subscribes
    ∷ subscribes
    ∷ writes 7
    ∷ completes send_case 0
    ∷ works send_case
    ∷ works send_case
    ∷ works send_case
    ∷ works send_case
    ∷ receives 0
    ∷ stops none
    ∷ []

run-Safely_example : Safely IsSound (run session (new_broadcaster false))
run-Safely_example = run-Safely session false refl

-- A started broadcaster with no listener.
abbrev idle : Broadcaster ℕ
idle = record {
  listeners = [];
  heap = [];
  next = 0;
  c = record { buffer = []; closed = false };
  cancelled = false;
  worker = waiting;
  status_barrier = barrier 0 true;
  pending = [];
}

started : start (new_broadcaster false) ≡ returns idle
unfolding start new_broadcaster
started = refl

idle-IsSound : IsSound idle
unfolding start new_broadcaster
idle-IsSound = start-IsSound (new_broadcaster false) (new_broadcaster-IsSound false) refl

abbrev halted : Broadcaster ℕ
halted = record idle {
  c = record { buffer = []; closed = true };
  cancelled = true;
  worker = absent;
  status_barrier = barrier 0 false;
}

stops_idle : stop none idle ≡ returns (halted, none)
unfolding stop wait_worker stop_all
stops_idle = refl

stop_closes_all_example :
    (idle.pending ≡ [])
    × (halted.listeners ≡ [])
    × (halted.c.closed ≡ true)
    × ((k : ℕ) → Option.map (λ (x : Listener ℕ). x.c.closed) (lookup k halted.heap) ≢ some false)
stop_closes_all_example = stop_closes_all none idle halted idle-IsSound stops_idle

abbrev restarted : Broadcaster ℕ
restarted = record halted { worker = waiting; status_barrier = barrier 0 true }

restarts : start halted ≡ returns restarted
unfolding start
restarts = refl

restart_panics_example :
    (b'' : Broadcaster ℕ) × (start halted ≡ returns b'')
    × (b''.status_barrier.started ≡ true)
    × (write_sync send_case 7 b'' ≡ panics)
    × (stop none b'' ≡ panics)
restart_panics_example = restart_panics none idle halted 7 idle-IsSound stops_idle

abbrev fresh_listener : Listener ℕ
fresh_listener = record {
  c = record { buffer = []; closed = false };
  status_barrier = barrier 0 true;
}

-- The worker holds a value for two listeners out of three.
abbrev fan_out : Broadcaster ℕ
fan_out = record idle {
  heap = (0, fresh_listener) ∷ ((1, fresh_listener) ∷ ((2, fresh_listener) ∷ []));
  worker = delivering 7 (0 ∷ 2 ∷ []);
}

fan_out-HasRoom : HasRoom (0 ∷ 2 ∷ []) fan_out.heap
unfolding lookup
fan_out-HasRoom = (
  (fresh_listener, refl, ground arith, refl, refl),
  ((fresh_listener, refl, ground arith, refl, refl), tt),
)

delivers_to_all_example :
    (heap : GoMap ℕ (Listener ℕ)) × (run (replicate 2 (works send_case)) fan_out
      ≡ returns (record fan_out { heap = heap; worker = delivering 7 [] }))
    × ((j : ℕ)
        → lookup j heap ≡ (
            if member j (0 ∷ 2 ∷ [])
            then Option.map (queued 7) (lookup j fan_out.heap)
            else lookup j fan_out.heap))
delivers_to_all_example =
    delivers_to_all 7 (0 ∷ 2 ∷ []) fan_out refl refl (refl, (refl, tt)) fan_out-HasRoom
