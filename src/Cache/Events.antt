-- ===== src/Cache/Events.antt =====
-- pkg/service/grpc/cache/service.go: `Events`, which sends the events of a cache to a client. The
-- stream, with its context and `SendMsg`, is gRPC's; what it answers is an input of each step.
use goico.Shared.{ℕ, Option, none, some, [], ◌∷◌, if◌then◌else◌}
use goico.Shared.GoMap.{lookup, put}
use goico.Shared.Key.{number_keys, Comparable}
use goico.Shared.Result.{ok, err}
use goico.Shared.Outcome.{Outcome, returns, blocked, ◌>>=◌}
use goico.Broadcaster.Listener.{Listener}
use goico.Broadcaster.State.{Broadcaster}
use goico.Cache.State.{Event, Cache, CacheError, subscribe, unsubscribe}

-- What `Events` returns
pub data Ended (X : Type 0) : Type 0 where
  cache_error : CacheError → Ended X
  channel_stopped : Ended X
  context_error : Ended X
  send_error : X → Ended X

-- Where a call stands: in the select, on the listener given, or at its end.
pub data Serving (X : Type 0) : Type 0 where
  listening : ℕ → Serving X
  ended : Ended X → Serving X

-- The case of the select that runs; the second with what `SendMsg` returns.
pub data Wake (X : Type 0) : Type 0 where
  context_done : Wake X
  message : Option X → Wake X

-- `d, ok := <-l.C` of a listener at an address, with what is done about it
unfoldable pub take_event :
    {X : Type 0}
    → Option X
    → ℕ
    → Listener Event
    → Broadcaster Event
    → Outcome (Broadcaster Event × Serving X)
take_event sent l x b = elim x.c.buffer [
  | [] ↦ if x.c.closed then returns (b, ended channel_stopped) else blocked
  | d ∷ rest ↦ returns (
    record b { heap = put l (record x { c = record x.c { buffer = rest } }) b.heap },
    elim sent [ none ↦ listening l | some e ↦ ended (send_error e) ],
  )
]

module _ {K V X : Type 0} ⦃c : Comparable K⦄ where
  -- The call up to its loop
  unfoldable pub events : Cache K V → Outcome (Cache K V × Serving X)
  unfolding subscribe
  events s = do
    (s', r) ← subscribe s
    returns (s', elim r [ ok l ↦ listening l | err e ↦ ended (cache_error e) ])

  -- One turn of the loop
  unfoldable pub events_turn : Wake X → ℕ → Cache K V → Outcome (Cache K V × Serving X)
  unfolding unsubscribe take_event
  events_turn context_done l s = do (s', e) ← unsubscribe l s; returns (s', ended context_error)
  events_turn (message sent) l s = elim s.broadcaster [
    | none ↦ blocked
    | some b ↦ elim (lookup l b.heap) [
      | none ↦ blocked
      | some x ↦ do
        (b', at) ← take_event sent l x b
        returns (record s { broadcaster = some b' }, at)
    ]
  ]
