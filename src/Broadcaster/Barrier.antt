-- ===== src/Broadcaster/Barrier.antt =====
-- pkg/broadcaster/statusBarrier.go: a read-write lock around a status.
use goico.Shared.Outcome.{Outcome, returns, blocked, panics}
use goico.Shared.{ℕ, ◌+◌, ◌-◌, Bool, true, false, not, ◌||◌, eqb, if◌then◌else◌}

-- `statusBarrier`: the lock as its number of readers and whether it has a writer.
pub record StatusBarrier : Type 0 where
  pub readers : ℕ
  pub writing : Bool
  pub started : Bool

-- `newStatusBarrier`
unfoldable pub new_status_barrier : StatusBarrier
new_status_barrier = record { readers = 0; writing = false; started = false }

-- `Entering`: `RLock`
unfoldable pub entering : StatusBarrier → Outcome StatusBarrier
entering b = if b.writing then blocked else returns (record b { readers = b.readers + 1 })

-- `Out`: `RUnlock`, which is fatal on a lock without readers
unfoldable pub out : StatusBarrier → Outcome StatusBarrier
out b = if eqb b.readers 0 then panics else returns (record b { readers = b.readers - 1 })

-- `EnteringStatusArea`: `Lock`
unfoldable pub entering_status_area : StatusBarrier → Outcome StatusBarrier
entering_status_area b =
    if b.writing || not (eqb b.readers 0) then blocked else returns (record b { writing = true })

-- `OutOfStatusArea`: `Unlock`, which is fatal on a lock without a writer
unfoldable pub out_of_status_area : StatusBarrier → Outcome StatusBarrier
out_of_status_area b = if b.writing then returns (record b { writing = false }) else panics

-- `MarkStopped`
unfoldable pub mark_stopped : StatusBarrier → StatusBarrier
mark_stopped b = record b { started = false }

-- `MarkStarted`
unfoldable pub mark_started : StatusBarrier → StatusBarrier
mark_started b = record b { started = true }

-- `IsStopped`
unfoldable pub is_stopped : StatusBarrier → Bool
is_stopped b = not b.started

-- A barrier between two calls: nobody holds it for writing.
abbrev pub barrier : ℕ → Bool → StatusBarrier
barrier readers started = record { readers = readers; writing = false; started = started }
