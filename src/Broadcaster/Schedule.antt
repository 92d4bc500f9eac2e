-- ===== src/Broadcaster/Schedule.antt =====
-- Runs of a broadcaster (pkg/broadcaster/broadcaster.go) under any interleaving of its callers, the
-- goroutines of Write, the worker, and the readers of the listeners' channels.
use goico.Shared.Key.{number_keys}
use goico.Shared.GoMap.{lookup, put}
use goico.Shared.Outcome.{
  Safely-cases, Outcome, returns, blocked, panics, ◌>>=◌, Safely, Safely-bind,
}
use goico.Broadcaster.Chan.{Pick, send_case, timer_case}
use goico.Broadcaster.Listener.{Listener, IsQuiet}
use goico.Broadcaster.Heap.{replace-HeapOk}
use goico.Broadcaster.Invariant.{
  new_broadcaster-IsSound, IsSound, start-IsSound, subscribe-IsSound, is_subscribed-IsSound,
  write-IsSound, write_sync-IsSound, is_stopped_now-IsSound,
}
use goico.Broadcaster.Steps.{unsubscribe-IsSound, complete-IsSound, stop-IsSound, work-IsSound}
use goico.Broadcaster.State.{
  new_broadcaster, Broadcaster, Worker, absent, waiting, delivering, start, stop, subscribe,
  unsubscribe, is_subscribed, write_sync, write, complete, is_stopped_now, work, work_on, take_next,
}
use goico.Shared.{
  ◌∙◌, sym, Bool-cases, ℕ, ◌≡◌, refl, ap, inl, inr, Bool, true, false, not, ◌&&◌, Option, none,
  some, List, [], ◌∷◌, arith, if◌then◌else◌, Option-cases, length,
}

-- What may happen next: a call, a step of a goroutine, a value read from a listener's channel, or the
-- end of the context that New was given.
pub data Event (T : Type 0) : Type 0 where
  starts subscribes checks cancels : Event T
  stops : Option Pick → Event T
  unsubscribes asks receives : ℕ → Event T
  writes : T → Event T
  writes_sync : Pick → T → Event T
  completes : Pick → ℕ → Event T
  works : Pick → Event T

abbrev after {ℓ} : {A B : Type ℓ} → Outcome (A × B) → Outcome A
after (returns p) = returns p.0
after blocked = blocked
after panics = panics

module _ {T : Type 0} where
  -- `<-l.C`
  unfoldable pub take_first : List T → Listener T → Outcome (Listener T)
  take_first [] l = if l.c.closed then returns l else blocked
  take_first (t ∷ more) l = returns (record l { c = record l.c { buffer = more } })

  unfoldable pub receive : ℕ → Broadcaster T → Outcome (Broadcaster T)
  unfolding take_first
  receive k b = elim (lookup k b.heap) [
    | none ↦ blocked
    | some l ↦ do l' ← take_first l.c.buffer l; returns (record b { heap = put k l' b.heap })
  ]

  unfoldable pub step : Event T → Broadcaster T → Outcome (Broadcaster T)
  step starts b = start b
  step (stops inside) b = after (stop inside b)
  step subscribes b = after (subscribe b)
  step (unsubscribes l) b = after (unsubscribe l b)
  step (asks l) b = after (is_subscribed l b)
  step checks b = after (is_stopped_now b)
  step (writes t) b = after (write t b)
  step (writes_sync pick t) b = after (write_sync pick t b)
  step (completes pick i) b = complete pick i b
  step (works pick) b = work pick b
  step (receives l) b = receive l b
  step cancels b = returns (record b { cancelled = true })

  unfoldable pub run : List (Event T) → Broadcaster T → Outcome (Broadcaster T)
  run [] b = returns b
  run (e ∷ es) b = do b' ← step e b; run es b'

  -- No start stands behind a stop; `stopped` says that a stop went before.
  abbrev pub starts_first : Bool → List (Event T) → Bool
  starts_first stopped [] = true
  starts_first stopped (starts ∷ es) = not stopped && starts_first stopped es
  starts_first stopped (stops inside ∷ es) = starts_first true es
  starts_first stopped (e ∷ es) = starts_first stopped es

  after-Safely :
      {A : Type 0} (P : Broadcaster T → Type 0) (m : Outcome (Broadcaster T × A))
      → Safely (λ p. P p.0) m
      → Safely P (after m)
  after-Safely P (returns p) h = h
  after-Safely P blocked h = tt
  after-Safely P panics h = h

  take_first-Safely :
      (items : List T) (l : Listener T)
      → l.c.buffer ≡ items
      → IsQuiet l
      → Safely
          (λ y. IsQuiet y × (y.status_barrier.started ≡ l.status_barrier.started))
          (take_first items l)
  unfolding take_first
  take_first-Safely [] l e q = ground arith
  take_first-Safely (t ∷ more) l e q = ground (arith, ap length e)

  receive-IsSound : (k : ℕ) (b : Broadcaster T) → IsSound b → Safely IsSound (receive k b)
  unfolding receive
  receive-IsSound k b s = elim (Option-cases (lookup k b.heap)) [
    | inl e ↦ rw (e, receive) tt
    | inr (l, at) ↦
        rw (at, receive)
          (Safely-bind (λ y. IsQuiet y × (y.status_barrier.started ≡ l.status_barrier.started))
            IsSound (take_first l.c.buffer l) _
            (take_first-Safely l.c.buffer l refl (s.heap_ok.quiet k l at))
            (λ y ok. record {
              unlocked = s.unlocked;
              counted = s.counted;
              heap_ok = replace-HeapOk k l y b.listeners b.heap b.next s.heap_ok at ok.0 ok.1;
              idle = s.idle;
              fits = s.fits;
              open_while_started = s.open_while_started;
            }))
  ]

  step-IsSound :
      (e : Event T) (b : Broadcaster T)
      → IsSound b
      → (e ≡ starts → b.c.closed ≡ false)
      → Safely IsSound (step e b)
  unfolding step
  step-IsSound starts b s h = start-IsSound b s (h refl)
  step-IsSound (stops inside) b s h = after-Safely IsSound _ (stop-IsSound inside b s)
  step-IsSound subscribes b s h = after-Safely IsSound _ (subscribe-IsSound b s)
  step-IsSound (unsubscribes l) b s h = after-Safely IsSound _ (unsubscribe-IsSound l b s)
  step-IsSound (asks l) b s h = after-Safely IsSound _ (is_subscribed-IsSound l b s)
  step-IsSound checks b s h = after-Safely IsSound _ (is_stopped_now-IsSound b s)
  step-IsSound (writes t) b s h = after-Safely IsSound _ (write-IsSound t b s)
  step-IsSound (writes_sync pick t) b s h = after-Safely IsSound _ (write_sync-IsSound pick t b s)
  step-IsSound (completes pick i) b s h = complete-IsSound pick i b s
  step-IsSound (works pick) b s h = work-IsSound pick b s
  step-IsSound (receives l) b s h = receive-IsSound l b s
  step-IsSound cancels b s h = record {
    unlocked = s.unlocked;
    counted = s.counted;
    heap_ok = s.heap_ok;
    idle = s.idle;
    fits = s.fits;
    open_while_started = s.open_while_started;
  }

  abbrev Keeps : Broadcaster T → Outcome (Broadcaster T) → Type 0
  Keeps b m = (b' : Broadcaster T) → m ≡ returns b' → b'.c.closed ≡ b.c.closed

  take_next-Keeps : (items : List T) (b : Broadcaster T) → Keeps b (take_next items b)
  unfolding take_next
  take_next-Keeps [] b b' h = ground arith
  take_next-Keeps (t ∷ more) b b' h = ground arith

  work_on-Keeps : (pick : Pick) (w : Worker T) (b : Broadcaster T) → Keeps b (work_on pick w b)
  unfolding work_on
  work_on-Keeps pick absent b b' h = cc
  work_on-Keeps timer_case waiting b b' h = ground arith
  work_on-Keeps send_case waiting b b' h = take_next-Keeps b.c.buffer b b' h
  work_on-Keeps pick (delivering t []) b b' h = ground arith
  work_on-Keeps pick (delivering t (k ∷ ks)) b b' h = ground arith

  complete-Keeps : (pick : Pick) (i : ℕ) (b : Broadcaster T) → Keeps b (complete pick i b)
  unfolding complete
  complete-Keeps timer_case i b b' h = ground arith
  complete-Keeps send_case i b b' h = ground arith

  start-Keeps : (b : Broadcaster T) → Keeps b (start b)
  unfolding start
  start-Keeps b b' h = ground arith

  subscribe-Keeps : (b : Broadcaster T) → Keeps b (after (subscribe b))
  unfolding subscribe
  subscribe-Keeps b b' h = ground arith

  is_subscribed-Keeps : (l : ℕ) (b : Broadcaster T) → Keeps b (after (is_subscribed l b))
  unfolding is_subscribed
  is_subscribed-Keeps l b b' h = ground arith

  unsubscribe-Keeps : (l : ℕ) (b : Broadcaster T) → Keeps b (after (unsubscribe l b))
  unfolding unsubscribe
  unsubscribe-Keeps l b b' h = ground arith

  is_stopped_now-Keeps : (b : Broadcaster T) → Keeps b (after (is_stopped_now b))
  unfolding is_stopped_now
  is_stopped_now-Keeps b b' h = ground arith

  write-Keeps : (t : T) (b : Broadcaster T) → Keeps b (after (write t b))
  unfolding write
  write-Keeps t b b' h = ground arith

  write_sync-Keeps :
      (pick : Pick) (t : T) (b : Broadcaster T) → Keeps b (after (write_sync pick t b))
  unfolding write_sync
  write_sync-Keeps timer_case t b b' h = ground arith
  write_sync-Keeps send_case t b b' h = ground arith

  receive-Keeps : (l : ℕ) (b : Broadcaster T) → Keeps b (receive l b)
  unfolding receive
  receive-Keeps l b b' h = ground arith

  -- Only Stop closes the broadcaster's channel.
  abbrev is_stop : Event T → Bool
  is_stop (stops inside) = true
  is_stop _ = false

  step-Keeps : (e : Event T) (b : Broadcaster T) → is_stop e ≡ false → Keeps b (step e b)
  unfolding step work
  step-Keeps (stops inside) b h = absurd (cc)
  step-Keeps starts b h = start-Keeps b
  step-Keeps subscribes b h = subscribe-Keeps b
  step-Keeps (unsubscribes l) b h = unsubscribe-Keeps l b
  step-Keeps (asks l) b h = is_subscribed-Keeps l b
  step-Keeps checks b h = is_stopped_now-Keeps b
  step-Keeps (writes t) b h = write-Keeps t b
  step-Keeps (writes_sync pick t) b h = write_sync-Keeps pick t b
  step-Keeps (completes pick i) b h = complete-Keeps pick i b
  step-Keeps (works pick) b h = work_on-Keeps pick b.worker b
  step-Keeps (receives l) b h = receive-Keeps l b
  step-Keeps cancels b h = λ b' e. ground arith

  run-cons :
      (e : Event T) (es : List (Event T)) (b : Broadcaster T)
      → IsSound b
      → (e ≡ starts → b.c.closed ≡ false)
      → ((b' : Broadcaster T) → step e b ≡ returns b' → IsSound b' → Safely IsSound (run es b'))
      → Safely IsSound (run (e ∷ es) b)
  unfolding run
  run-cons e es b s h next = elim (Safely-cases IsSound (step e b) (step-IsSound e b s h)) [
    | inl stuck ↦ rw (stuck, run) tt
    | inr (b', done, s') ↦ rw (done, run) (next b' done s')
  ]

  -- A channel that is closed has been closed by a stop.
  abbrev Marked : Bool → Broadcaster T → Type 0
  Marked stopped b = b.c.closed ≡ true → stopped ≡ true

  not-Marked :
      (stopped : Bool) (b : Broadcaster T) → Marked stopped b → stopped ≡ false → b.c.closed ≡ false
  not-Marked stopped b m h = elim (Bool-cases b.c.closed) [
    | inl closed ↦ absurd (cc (m closed))
    | inr still ↦ still
  ]

  run-IsSound :
      (es : List (Event T)) (stopped : Bool) (b : Broadcaster T)
      → IsSound b
      → Marked stopped b
      → starts_first stopped es ≡ true
      → Safely IsSound (run es b)
  unfolding run
  run-IsSound [] stopped b s m h = s
  run-IsSound (stops inside ∷ es) stopped b s m h =
      run-cons (stops inside) es b s (λ e. absurd (cc))
        λ b' done s'. run-IsSound es true b' s' (λ _. refl) h
  run-IsSound (starts ∷ es) stopped b s m h =
      run-cons starts es b s (λ _. not-Marked stopped b m (ground arith))
        λ b' done s'.
          run-IsSound es stopped b' s' (λ c. m (sym (step-Keeps starts b refl b' done) ∙ c))
            (ground arith)
  run-IsSound (e ∷ es) stopped b s m h =
      run-cons e es b s (λ x. absurd (cc))
        λ b' done s'.
          run-IsSound es stopped b' s' (λ c. m (sym (step-Keeps e b refl b' done) ∙ c)) h

  -- Whatever the interleaving of calls, goroutines, the worker and the readers: as long as no Start
  -- stands behind a Stop, no step panics, so nothing is sent on a closed channel and no channel is
  -- closed twice, and every state reached is sound.
  pub run-Safely :
      (es : List (Event T)) (cancelled : Bool)
      → starts_first false es ≡ true
      → Safely IsSound (run es (new_broadcaster cancelled))
  unfolding new_broadcaster
  run-Safely es cancelled h =
      run-IsSound es false (new_broadcaster cancelled) (new_broadcaster-IsSound cancelled)
        (λ c. absurd (cc)) h
