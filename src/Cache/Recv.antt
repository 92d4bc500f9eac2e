-- ===== src/Cache/Recv.antt =====
-- pkg/service/grpc/stream/recv.go: `Recv`, which writes the messages of a stream to a broadcaster.
-- The stream, with its contexts and RecvMsg, is gRPC's: what it answers is an input of each turn.
use goico.Shared.{
  ℕ, suc, ◌+◌, ◌-◌, ◌≡◌, refl, sym, ap, ◌∙◌, Bool, true, false, ◌&&◌, Option, none, some, List, [],
  ◌∷◌, ◌++◌, arith, eqb, length,
}
use mathlib.Core.List.{append-nil, append_assoc}
use goico.Shared.Result.{Result, ok, err}
use goico.Shared.Outcome.{Outcome, returns, ◌>>=◌}
use goico.Broadcaster.Barrier.{entering, out, is_stopped, barrier}
use goico.Broadcaster.Listener.{Error, err_stopped}
use goico.Broadcaster.State.{Broadcaster, write}

-- The case of the select that runs; in the default one with what RecvMsg returns
pub data Turn (X T : Type 0) : Type 0 where
  context_done : Turn X T
  stream_done : X → Turn X T
  received : Result X T → Turn X T

-- What Recv returns, and whether it has called CloseSend
pub data Reason (X : Type 0) : Type 0 where
  context_error : Reason X
  stream_error : X → Reason X
  write_error : Error → Reason X

pub record Ended (X : Type 0) : Type 0 where
  pub reason : Reason X
  pub closed_send : Bool

-- A broadcaster that `n` goroutines of Write keep locked, after some more calls of Write
abbrev pub with_writes : {T : Type 0} → ℕ → List T → Broadcaster T → Broadcaster T
with_writes n ts b = record b {
  status_barrier = barrier (n + length ts) true;
  pending = b.pending ++ ts;
}

write-barrier :
    {T : Type 0} (t : T) (n : ℕ) (b : Broadcaster T)
    → b.status_barrier ≡ barrier n true
    → write t b ≡ returns (with_writes n (t ∷ []) b, none)
unfolding write entering is_stopped
write-barrier t n b s = simp s

write-stopped :
    {T : Type 0} (t : T) (n : ℕ) (b : Broadcaster T)
    → b.status_barrier ≡ barrier n false
    → write t b ≡ returns (b, some err_stopped)
unfolding write entering is_stopped out
write-stopped t n b s =
    let same : barrier n false ≡ b.status_barrier = sym s in
    let left : write t b
        ≡ returns (record b { status_barrier = barrier n false }, some err_stopped) =
      let nonzero : eqb (n + 1) 0 ≡ false = ground arith in
      let back : n + 1 - 1 ≡ n = omega arith in simp (s, nonzero, back) in
    left ∙ (λ i. returns (record b { status_barrier = same i }, some err_stopped))

with_writes_none :
    {T : Type 0} (n : ℕ) (b : Broadcaster T)
    → b.status_barrier ≡ barrier n true
    → b ≡ with_writes n [] b
with_writes_none n b s =
    let e : b.status_barrier ≡ barrier (n + 0) true = ground arith in
    let p : b.pending ≡ b.pending ++ [] = sym (append-nil b.pending) in
    λ i. record b { status_barrier = e i; pending = p i }

with_writes_more :
    {T : Type 0} (t : T) (ts : List T) (n : ℕ) (b : Broadcaster T)
    → with_writes (n + 1) ts (with_writes n (t ∷ []) b) ≡ with_writes n (t ∷ ts) b
with_writes_more t ts n b =
    let e : barrier (n + 1 + length ts) true ≡ barrier (n + suc (length ts)) true =
      ap (λ k. barrier k true) (omega arith) in
    let p : (b.pending ++ t ∷ []) ++ ts ≡ b.pending ++ t ∷ ts =
      append_assoc b.pending (t ∷ []) ts in
    λ i. record b { status_barrier = e i; pending = p i }

-- After a Write: the loop goes on, or its error is returned.
unfoldable pub after_write : {X : Type 0} → Option Error → Option (Ended X)
after_write none = none
after_write (some e) = some (record { reason = write_error e; closed_send = false })

module _ {X T : Type 0} where
  -- One turn of the loop
  unfoldable pub recv_turn : Turn X T → Broadcaster T → Outcome (Broadcaster T × Option (Ended X))
  unfolding write after_write
  recv_turn context_done b =
      returns (b, some (record { reason = context_error; closed_send = true }))
  recv_turn (stream_done x) b =
      returns (b, some (record { reason = stream_error x; closed_send = true }))
  recv_turn (received (err x)) b = returns (b, none)
  recv_turn (received (ok t)) b = do (b', e) ← write t b; returns (b', after_write e)

  -- `Recv` over some turns; `none` at its end means that it is still in the loop.
  unfoldable pub recv : List (Turn X T) → Broadcaster T → Outcome (Broadcaster T × Option (Ended X))
  unfolding recv_turn
  recv [] b = returns (b, none)
  recv (turn ∷ turns) b = do
    (b', end) ← recv_turn turn b
    elim end [ none ↦ recv turns b' | some e ↦ returns (b', some e) ]

  -- The messages among some turns, and whether all of them are of the default case
  abbrev pub messages : List (Turn X T) → List T
  messages [] = []
  messages (received (ok t) ∷ turns) = t ∷ messages turns
  messages (turn ∷ turns) = messages turns

  abbrev pub is_receiving : Turn X T → Bool
  is_receiving (received r) = true
  is_receiving turn = false

  abbrev pub all_receiving : List (Turn X T) → Bool
  all_receiving [] = true
  all_receiving (turn ∷ turns) = is_receiving turn && all_receiving turns

  abbrev pub ended_by : Turn X T → Option (Ended X)
  ended_by context_done = some (record { reason = context_error; closed_send = true })
  ended_by (stream_done x) = some (record { reason = stream_error x; closed_send = true })
  ended_by (received r) = none

  recv-receiving :
      (turns rest : List (Turn X T)) (n : ℕ) (b : Broadcaster T)
      → b.status_barrier ≡ barrier n true
      → all_receiving turns ≡ true
      → recv (turns ++ rest) b ≡ recv rest (with_writes n (messages turns) b)
  unfolding recv
  recv-receiving [] rest n b s r = ap (recv rest) (with_writes_none n b s)
  recv-receiving (context_done ∷ turns) rest n b s r = cc
  recv-receiving (stream_done x ∷ turns) rest n b s r = cc
  recv-receiving (received (err x) ∷ turns) rest n b s r = recv-receiving turns rest n b s r
  recv-receiving (received (ok t) ∷ turns) rest n b s r = rw (write-barrier t n b s) (
      recv-receiving turns rest (n + 1) (with_writes n (t ∷ []) b) refl r
      ∙ ap (recv rest) (with_writes_more t (messages turns) n b))

  recv-ended :
      (end : Turn X T) (rest : List (Turn X T)) (b : Broadcaster T)
      → is_receiving end ≡ false
      → recv (end ∷ rest) b ≡ returns (b, ended_by end)
  unfolding recv
  recv-ended context_done rest b r = refl
  recv-ended (stream_done x) rest b r = refl
  recv-ended (received m) rest b r = cc

  -- As long as the broadcaster is started, Recv writes to it every message that it receives, in
  -- their order, and nothing for a failed RecvMsg. The first turn at which a context is done ends it,
  -- with that context's error and after CloseSend, whatever came behind. On a broadcaster that is
  -- stopped, it returns at the next message, without CloseSend.
  pub recv_lem :
      (turns rest : List (Turn X T)) (end : Turn X T) (n : ℕ) (b stopped : Broadcaster T) (t : T)
      → b.status_barrier ≡ barrier n true
      → stopped.status_barrier ≡ barrier n false
      → all_receiving turns ≡ true
      → is_receiving end ≡ false
      → (recv turns b ≡ returns (with_writes n (messages turns) b, none))
        × (recv (turns ++ end ∷ rest) b ≡ returns (with_writes n (messages turns) b, ended_by end))
        × (recv (received (ok t) ∷ rest) stopped
            ≡ returns
                (stopped, some (record { reason = write_error err_stopped; closed_send = false })))
  unfolding recv recv_turn
  recv_lem turns rest end n b stopped t s s0 all last = (
    ap (λ ts. recv ts b) (sym (append-nil turns)) ∙ recv-receiving turns [] n b s all,
    recv-receiving turns (end ∷ rest) n b s all ∙ recv-ended end rest _ last,
    rw (write-stopped t n stopped s0) refl,
  )
