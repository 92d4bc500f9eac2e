-- ===== src/Broadcaster/Chan.antt =====
-- Go's channels with room for one value, as pkg/broadcaster makes them, and a `select` between a send
-- and a timer.
use goico.Shared.Outcome.{Outcome, returns, blocked, panics}
use goico.Shared.{Bool, true, false, List, [], ◌∷◌, ◌++◌, ltb, if◌then◌else◌, length}

pub record Chan (T : Type 0) : Type 0 where
  pub buffer : List T
  pub closed : Bool

-- Which ready case a `select` takes.
pub data Pick : Type 0 where
  send_case timer_case : Pick

module _ {T : Type 0} where
  -- `make(chan T, 1)`
  unfoldable pub make_chan : Chan T
  make_chan = record { buffer = []; closed = false }

  -- `select { case c <- t: case <-timer.C: }`: a send on a closed channel panics, and one on a full
  -- channel is not ready.
  unfoldable pub select_send : Pick → T → Chan T → Outcome (Chan T)
  select_send timer_case t c = returns c
  select_send send_case t c =
      if c.closed
      then panics
      else if ltb (length c.buffer) 1
      then returns (record c { buffer = c.buffer ++ t ∷ [] })
      else blocked

  -- `close(c)`
  unfoldable pub close_chan : Chan T → Outcome (Chan T)
  close_chan c = if c.closed then panics else returns (record c { closed = true })
