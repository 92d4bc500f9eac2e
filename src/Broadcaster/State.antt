-- ===== src/Broadcaster/State.antt =====
-- pkg/broadcaster/broadcaster.go: `Broadcaster` and its methods, each a step that holds the lock of
-- the source for as long as the source does. Listeners are objects on a heap; the goroutines that
-- `Write` leaves behind and the worker are part of the state.
use mathlib.Core.Option
use goico.Shared.Key.{number_keys}
use goico.Shared.GoMap.{GoMap, lookup, put, remove}
use goico.Shared.Result.{Result, ok, err}
use goico.Shared.Outcome.{Outcome, returns, blocked, ◌>>=◌}
use goico.Broadcaster.Barrier.{
  StatusBarrier, new_status_barrier, entering, out, entering_status_area, out_of_status_area,
  mark_stopped, mark_started, is_stopped,
}
use goico.Broadcaster.Chan.{Chan, Pick, send_case, timer_case, make_chan, select_send, close_chan}
use goico.Broadcaster.Listener.{
  Listener, Error, err_stopped, start_listener, stop_listener, write_listener,
}
use goico.Shared.{
  ℕ, zero, suc, Bool, true, false, not, Option, none, some, List, [], ◌∷◌, ◌++◌, if◌then◌else◌,
}

-- The goroutine of `Start`: not running, at its `select`, or inside `Range` with a value and the
-- listeners that are still to come.
pub data Worker (T : Type 0) : Type 0 where
  absent : Worker T
  waiting : Worker T
  delivering : T → List ℕ → Worker T

-- `Broadcaster`: `listeners` holds pointers into `heap`, `pending` the values of the goroutines of
-- `Write`, each of which holds the read lock.
pub record Broadcaster (T : Type 0) : Type 0 where
  pub listeners : GoMap ℕ (Unit {0})
  pub heap : GoMap ℕ (Listener T)
  pub next : ℕ
  pub c : Chan T
  pub cancelled : Bool
  pub worker : Worker T
  pub status_barrier : StatusBarrier
  pub pending : List T

abbrev pub keys_of : GoMap ℕ (Unit {0}) → List ℕ
keys_of [] = []
keys_of ((k, v) ∷ m) = k ∷ keys_of m

abbrev pub pick_out {ℓ} : {A : Type ℓ} → ℕ → List A → Option (A × List A)
pick_out i [] = none
pick_out zero (x ∷ xs) = some (x, xs)
pick_out (suc i) (x ∷ xs) = Option.map (λ p. (p.0, x ∷ p.1)) (pick_out i xs)

module _ {T : Type 0} where
  -- `New`
  unfoldable pub new_broadcaster : Bool → Broadcaster T
  unfolding make_chan new_status_barrier
  new_broadcaster parent_cancelled = record {
    listeners = [];
    heap = [];
    next = 0;
    c = make_chan;
    cancelled = parent_cancelled;
    worker = absent;
    status_barrier = new_status_barrier;
    pending = [];
  }

  -- `Start`
  unfoldable pub start : Broadcaster T → Outcome (Broadcaster T)
  unfolding entering_status_area out_of_status_area mark_started is_stopped
  start b = do
    s ← entering_status_area b.status_barrier
    if not (is_stopped s)
        then (do s' ← out_of_status_area s; returns (record b { status_barrier = s' }))
        else (do
          s' ← out_of_status_area (mark_started s)
          returns (record b { worker = waiting; status_barrier = s' }))

  -- `NewAndStart`
  unfoldable pub new_and_start : Bool → Outcome (Broadcaster T)
  unfolding new_broadcaster start
  new_and_start parent_cancelled = start (new_broadcaster parent_cancelled)

  -- `k.stop()` of a pointer, its error dropped.
  unfoldable pub stop_at : ℕ → GoMap ℕ (Listener T) → Outcome (GoMap ℕ (Listener T))
  stop_at k heap = elim (lookup k heap) [
    | none ↦ returns heap
    | some l ↦ do (l', e) ← stop_listener l; returns (put k l' heap)
  ]

  -- `k.write(d)` of a pointer, its error dropped.
  unfoldable pub write_at : Pick → T → ℕ → GoMap ℕ (Listener T) → Outcome (GoMap ℕ (Listener T))
  write_at pick t k heap = elim (lookup k heap) [
    | none ↦ returns heap
    | some l ↦ do (l', e) ← write_listener pick t l; returns (put k l' heap)
  ]

  -- `worker.Wait()` after `cancel()`: the worker ends. Only if it is inside a listener's `write` does
  -- it still end that call, with the pick given; before each call it looks at the context.
  unfoldable pub wait_worker :
      Option Pick → Worker T → GoMap ℕ (Listener T) → Outcome (GoMap ℕ (Listener T))
  unfolding write_at
  wait_worker (some pick) (delivering t (k ∷ ks)) heap = write_at pick t k heap
  wait_worker _ _ heap = returns heap

  -- The `Range` of `Stop`: every listener is stopped and deleted.
  unfoldable pub stop_all :
      List ℕ
      → GoMap ℕ (Unit {0})
      → GoMap ℕ (Listener T)
      → Outcome (GoMap ℕ (Unit {0}) × GoMap ℕ (Listener T))
  unfolding stop_at
  stop_all [] listeners heap = returns (listeners, heap)
  stop_all (k ∷ ks) listeners heap = do
    heap' ← stop_at k heap
    stop_all ks (remove k listeners) heap'

  -- `Stop`
  unfoldable pub stop : Option Pick → Broadcaster T → Outcome (Broadcaster T × Option Error)
  unfolding entering_status_area out_of_status_area mark_stopped is_stopped close_chan
  stop inside b = do
    s ← entering_status_area b.status_barrier
    if is_stopped s
        then (do
          s' ← out_of_status_area s
          returns (record b { status_barrier = s' }, some err_stopped))
        else (do
          heap ← wait_worker inside b.worker b.heap
          (listeners', heap') ← stop_all (keys_of b.listeners) b.listeners heap
          c' ← close_chan b.c
          s' ← out_of_status_area (mark_stopped s)
          returns (
            record b {
              listeners = listeners';
              heap = heap';
              c = c';
              cancelled = true;
              worker = absent;
              status_barrier = s';
            },
            none,
          ))

  -- `Entering`, `defer Out` and the test of the status, round a method's body.
  unfoldable pub reading :
      {A : Type 0}
      → A
      → (Broadcaster T → Outcome (Broadcaster T × A))
      → Broadcaster T
      → Outcome (Broadcaster T × A)
  unfolding entering out is_stopped
  reading when_stopped body b = do
    s ← entering b.status_barrier
    if is_stopped s
        then (do s' ← out s; returns (record b { status_barrier = s' }, when_stopped))
        else (do
          (b', a) ← body (record b { status_barrier = s })
          s' ← out b'.status_barrier
          returns (record b' { status_barrier = s' }, a))

  -- `Subscribe`
  unfoldable pub subscribe : Broadcaster T → Outcome (Broadcaster T × Result Error ℕ)
  unfolding reading start_listener
  subscribe = reading (err err_stopped) λ b. returns (
    record b {
      listeners = put b.next tt b.listeners;
      heap = put b.next start_listener b.heap;
      next = suc b.next;
    },
    ok b.next,
  )

  -- `Unsubscribe`
  unfoldable pub unsubscribe : ℕ → Broadcaster T → Outcome (Broadcaster T × Option Error)
  unfolding reading stop_at
  unsubscribe l = reading (some err_stopped) λ b. elim (lookup l b.listeners) [
    | none ↦ returns (b, none)
    | some _ ↦ do
      heap' ← stop_at l b.heap
      returns (record b { listeners = remove l b.listeners; heap = heap' }, none)
  ]

  -- `IsSubscribed`
  unfoldable pub is_subscribed : ℕ → Broadcaster T → Outcome (Broadcaster T × Result Error Bool)
  unfolding reading
  is_subscribed l =
      reading (err err_stopped)
        λ b. returns (b, ok (elim (lookup l b.listeners) [ none ↦ false | some _ ↦ true ]))

  -- `WriteSync`
  unfoldable pub write_sync : Pick → T → Broadcaster T → Outcome (Broadcaster T × Option Error)
  unfolding reading select_send
  write_sync pick t =
      reading (some err_stopped)
        λ b. do c' ← select_send pick t b.c; returns (record b { c = c' }, none)

  -- `Write`: its goroutine keeps the read lock.
  unfoldable pub write : T → Broadcaster T → Outcome (Broadcaster T × Option Error)
  unfolding entering out is_stopped
  write t b = do
    s ← entering b.status_barrier
    if is_stopped s
        then (do s' ← out s; returns (record b { status_barrier = s' }, some err_stopped))
        else returns (record b { status_barrier = s; pending = b.pending ++ t ∷ [] }, none)

  -- The goroutine of `Write`, the i-th of those that are under way.
  unfoldable pub complete : Pick → ℕ → Broadcaster T → Outcome (Broadcaster T)
  unfolding out select_send
  complete pick i b = elim (pick_out i b.pending) [
    | none ↦ blocked
    | some (t, rest) ↦ do
      c' ← select_send pick t b.c
      s' ← out b.status_barrier
      returns (record b { c = c'; status_barrier = s'; pending = rest })
  ]

  -- `IsStopped`
  unfoldable pub is_stopped_now : Broadcaster T → Outcome (Broadcaster T × Bool)
  unfolding entering out is_stopped
  is_stopped_now b = do
    s ← entering b.status_barrier
    s' ← out s
    returns (record b { status_barrier = s' }, is_stopped s)

  -- The worker takes a value; from the closed channel of a stopped broadcaster it takes zero values,
  -- whose `Range` ends at once, as the context is done. The `Range` of a value visits the listeners that
  -- are subscribed when it begins; sync.Map leaves open whether it also meets those that are stored
  -- later, and this is a `Range` that does not.
  unfoldable pub take_next : List T → Broadcaster T → Outcome (Broadcaster T)
  take_next [] b = if b.c.closed then returns b else blocked
  take_next (t ∷ more) b =
      returns
        (record b { c = record b.c { buffer = more }; worker = delivering t (keys_of b.listeners) })

  -- One turn of the worker: take a value, visit the next listener, or end.
  unfoldable pub work_on : Pick → Worker T → Broadcaster T → Outcome (Broadcaster T)
  unfolding take_next write_at
  work_on pick absent b = blocked
  work_on timer_case waiting b =
      if b.cancelled then returns (record b { worker = absent }) else blocked
  work_on send_case waiting b = take_next b.c.buffer b
  work_on pick (delivering t []) b = returns (record b { worker = waiting })
  work_on pick (delivering t (k ∷ ks)) b =
      if b.cancelled then returns (record b { worker = waiting }) else (do
        heap' ← write_at pick t k b.heap
        returns (record b { heap = heap'; worker = delivering t ks }))

  unfoldable pub work : Pick → Broadcaster T → Outcome (Broadcaster T)
  unfolding work_on
  work pick b = work_on pick b.worker b
