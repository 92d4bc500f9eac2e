-- ===== src/Broadcaster/Invariant.antt =====
-- The invariant of a broadcaster (pkg/broadcaster/broadcaster.go) that each of its steps keeps.
use goico.Shared.Key.{number_keys}
use goico.Shared.GoMap.{lookup}
use goico.Shared.Outcome.{Safely}
use goico.Broadcaster.Chan.{Pick, send_case, timer_case}
use goico.Broadcaster.Heap.{HeapOk, subscribe-HeapOk}
use goico.Broadcaster.State.{
  Broadcaster, absent, new_broadcaster, start, subscribe, is_subscribed, write_sync, write,
  is_stopped_now,
}
use goico.Shared.{ℕ, ◌≤◌, ◌≡◌, refl, Bool, true, false, [], ◌∷◌, arith, length, length-append}

module _ {T : Type 0} where
  -- The lock's readers are the goroutines of `Write`; a stopped broadcaster has none, no listeners and
  -- no worker; a started one has an open channel.
  pub record IsSound (b : Broadcaster T) : Type 0 where
    pub unlocked : b.status_barrier.writing ≡ false
    pub counted : b.status_barrier.readers ≡ length b.pending
    pub heap_ok : HeapOk b.listeners b.heap b.next
    pub idle :
        b.status_barrier.started ≡ false
        → (b.pending ≡ []) × (b.listeners ≡ []) × (b.worker ≡ absent)
    pub fits : length b.c.buffer ≤ 1
    pub open_while_started : b.status_barrier.started ≡ true → b.c.closed ≡ false

  pub new_broadcaster-IsSound : (cancelled : Bool) → IsSound (new_broadcaster cancelled)
  unfolding new_broadcaster lookup
  new_broadcaster-IsSound cancelled = record {
    unlocked = refl;
    counted = refl;
    heap_ok = record {
      quiet = λ l x e. absurd (cc);
      live = λ l e. absurd (cc);
      others = λ l x e a. absurd (cc);
      fresh = λ l h. (refl, refl);
      distinct = tt;
    };
    idle = λ h. (refl, refl, refl);
    fits = omega arith;
    open_while_started = λ h. absurd (cc);
  }

  -- A first start.
  pub start-IsSound :
      (b : Broadcaster T) → IsSound b → b.c.closed ≡ false → Safely IsSound (start b)
  unfolding start
  start-IsSound b s fresh = ground (arith, s.idle, s.open_while_started)

  pub is_subscribed-IsSound :
      (l : ℕ) (b : Broadcaster T) → IsSound b → Safely (λ p. IsSound p.0) (is_subscribed l b)
  unfolding is_subscribed
  is_subscribed-IsSound l b s = ground (arith, s.idle, s.open_while_started)

  pub subscribe-IsSound : (b : Broadcaster T) → IsSound b → Safely (λ p. IsSound p.0) (subscribe b)
  unfolding subscribe
  subscribe-IsSound b s =
      ground
        (arith, s.idle, s.open_while_started, subscribe-HeapOk b.listeners b.heap b.next s.heap_ok)

  pub write-IsSound :
      (t : T) (b : Broadcaster T) → IsSound b → Safely (λ p. IsSound p.0) (write t b)
  unfolding write
  write-IsSound t b s =
      ground (arith, s.idle, s.open_while_started, length-append b.pending (t ∷ []))

  pub write_sync-IsSound :
      (pick : Pick) (t : T) (b : Broadcaster T)
      → IsSound b
      → Safely (λ p. IsSound p.0) (write_sync pick t b)
  unfolding write_sync
  write_sync-IsSound timer_case t b s = ground (arith, s.idle, s.open_while_started)
  write_sync-IsSound send_case t b s =
      ground (arith, s.idle, s.open_while_started, length-append b.c.buffer (t ∷ []))

  pub is_stopped_now-IsSound :
      (b : Broadcaster T) → IsSound b → Safely (λ p. IsSound p.0) (is_stopped_now b)
  unfolding is_stopped_now
  is_stopped_now-IsSound b s = ground (arith, s.idle, s.open_while_started)
