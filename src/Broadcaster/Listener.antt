-- ===== src/Broadcaster/Listener.antt =====
-- pkg/broadcaster/broadcaster.go: `Listener`.
use goico.Shared.Outcome.{Outcome, returns, blocked, ◌>>=◌}
use goico.Broadcaster.Barrier.{
  StatusBarrier, new_status_barrier, entering, out, entering_status_area, out_of_status_area,
  mark_stopped, mark_started, is_stopped, barrier,
}
use goico.Broadcaster.Chan.{Chan, Pick, send_case, timer_case, make_chan, select_send, close_chan}
use goico.Shared.{
  ◌≤◌, ◌≡◌, true, false, not, Option, none, some, [], ◌∷◌, ◌++◌, arith, ltb, if◌then◌else◌, length,
}

-- `ErrStopped`
pub data Error : Type 0 where
  err_stopped : Error

-- `Listener`; `C` and `c` are one channel.
pub record Listener (T : Type 0) : Type 0 where
  pub c : Chan T
  pub status_barrier : StatusBarrier

module _ {T : Type 0} where
  -- `startListener`
  unfoldable pub start_listener : Listener T
  unfolding make_chan new_status_barrier mark_started
  start_listener = record { c = make_chan; status_barrier = mark_started new_status_barrier }

  -- `(*Listener).stop`
  unfoldable pub stop_listener : Listener T → Outcome (Listener T × Option Error)
  unfolding entering_status_area out_of_status_area mark_stopped is_stopped close_chan
  stop_listener l = do
    b ← entering_status_area l.status_barrier
    if is_stopped b
        then (do
          b' ← out_of_status_area b
          returns (record l { status_barrier = b' }, some err_stopped))
        else (do
          c' ← close_chan l.c
          b' ← out_of_status_area (mark_stopped b)
          returns (record { c = c'; status_barrier = b' }, none))

  -- `(*Listener).write`
  unfoldable pub write_listener : Pick → T → Listener T → Outcome (Listener T × Option Error)
  unfolding entering out is_stopped select_send
  write_listener pick t l = do
    b ← entering l.status_barrier
    if is_stopped b
        then (do b' ← out b; returns (record l { status_barrier = b' }, some err_stopped))
        else (do
          c' ← select_send pick t l.c
          b' ← out b
          returns (record { c = c'; status_barrier = b' }, none))

  -- Between two calls a listener is unlocked, its channel is open exactly while it is started, and
  -- holds one value at most.
  pub record IsQuiet (l : Listener T) : Type 0 where
    pub unread : l.status_barrier.readers ≡ 0
    pub unlocked : l.status_barrier.writing ≡ false
    pub open_while_started : l.c.closed ≡ not l.status_barrier.started
    pub fits : length l.c.buffer ≤ 1

  pub start_listener-IsQuiet : IsQuiet start_listener
  unfolding start_listener
  start_listener-IsQuiet = ground arith

  abbrev pub stopped : Listener T → Listener T
  stopped l = record {
    c = record { buffer = l.c.buffer; closed = true };
    status_barrier = barrier 0 false;
  }

  -- Stopping a quiet listener closes its channel once, whether or not it was stopped before.
  pub stop_listener-returns :
      (l : Listener T)
      → IsQuiet l
      → stop_listener l
        ≡ returns (stopped l, if l.status_barrier.started then none else some err_stopped)
  unfolding stop_listener
  stop_listener-returns l q = ground arith

  -- A write to a quiet listener: nothing changes if it is stopped or the timer fires; else the value
  -- is queued if there is room, and waits if there is none.
  pub write_listener-returns :
      (pick : Pick) (t : T) (l : Listener T)
      → IsQuiet l
      → write_listener pick t l ≡ (
          if not l.status_barrier.started then returns (l, some err_stopped) else (elim pick [
            | timer_case ↦ returns (l, none)
            | send_case ↦
                if ltb (length l.c.buffer) 1
                then returns (record l { c = record l.c { buffer = l.c.buffer ++ t ∷ [] } }, none)
                else blocked
          ]))
  unfolding write_listener
  write_listener-returns timer_case t l q = ground arith
  write_listener-returns send_case t l q = ground arith
