-- ===== src/Cache/Client.antt =====
-- pkg/service/grpc/cache/service.go: `Client`, which gives its callers listeners for the events that
-- a cache's server sends, and `NewService`. What gRPC answers is an input.
use goico.Shared.{ℕ, ◌+◌, ◌≡◌, refl, Bool, Option, none, some, List, [], ◌∷◌, ◌++◌}
use goico.Env.Os.{Text}
use goico.Shared.Result.{Result, ok, err}
use goico.Shared.Outcome.{Outcome, returns, panics, ◌>>=◌}
use goico.Broadcaster.Chan.{Pick}
use goico.Broadcaster.Listener.{Error, err_stopped, stop_listener}
use goico.Shared.GoMap.{put, lookup}
use goico.Broadcaster.State
use goico.Broadcaster.State.{Broadcaster, new_and_start, subscribe, stop}
use goico.Cache.State.{Event}

pub data ClientError (X : Type 0) : Type 0 where
  of_grpc : X → ClientError X
  of_broadcaster : Error → ClientError X

-- `Client`; receivers: the goroutines that run Recv for its broadcaster
pub record Client : Type 0 where
  pub server_addr : Text
  pub broadcaster_event : Option (Broadcaster Event)
  pub receivers : ℕ

abbrev pub fresh : Text → Client
fresh addr = record { server_addr = addr; broadcaster_event = none; receivers = 0 }

module _ {X : Type 0} where
  -- `NewClient`, by what Dial answers
  unfoldable pub new_client : Text → Option X → Result (ClientError X) Client
  new_client addr none = ok (fresh addr)
  new_client addr (some x) = err (of_grpc x)

  abbrev pub joined : {Y : Type 0} → (Y → ClientError X) → Option Y → List (ClientError X)
  joined f none = []
  joined f (some y) = f y ∷ []

  -- `Close`, by what the connection's Close returns: the errors, joined
  unfoldable pub close : Option X → Option Pick → Client → Outcome (Client × List (ClientError X))
  unfolding stop
  close conn inside c = elim c.broadcaster_event [
    | none ↦ returns (c, joined of_grpc conn)
    | some b ↦ do
      (b', e) ← stop inside b
      returns
          (record c { broadcaster_event = some b' }, joined of_grpc conn ++ joined of_broadcaster e)
  ]

  -- `startListenerForEvents`, by whether the context is done and what the call of Events answers
  unfoldable pub start_listener_for_events :
      Bool → Option X → Client → Outcome (Client × Option (ClientError X))
  unfolding new_and_start
  start_listener_for_events cancelled events c = do
    b ← new_and_start cancelled
    elim events [
      | none ↦ returns (record c { broadcaster_event = some b; receivers = c.receivers + 1 }, none)
      | some x ↦ returns (record c { broadcaster_event = some b }, some (of_grpc x))
    ]

  -- The end of `ListenerForEvents`: Subscribe, which panics on a nil broadcaster
  unfoldable pub subscribe_event : Client → Outcome (Client × Result (ClientError X) ℕ)
  unfolding subscribe
  subscribe_event c = elim c.broadcaster_event [
    | none ↦ panics
    | some b ↦ do
      (b', r) ← subscribe b
      returns (
        record c { broadcaster_event = some b' },
        elim r [ ok l ↦ ok l | err e ↦ err (of_broadcaster e) ],
      )
  ]

  -- `ListenerForEvents`
  unfoldable pub listener_for_events :
      Bool → Option X → Client → Outcome (Client × Result (ClientError X) ℕ)
  unfolding start_listener_for_events subscribe_event
  listener_for_events cancelled events c = elim c.broadcaster_event [
    | some b ↦ subscribe_event c
    | none ↦ do
      (c', e) ← start_listener_for_events cancelled events c
      elim e [ none ↦ subscribe_event c' | some x ↦ returns (c', err x) ]
  ]

  -- Two calls of ListenerForEvents and a call of Close, with what they return
  abbrev pub session :
      Bool
      → Option X
      → Option X
      → Option X
      → Option Pick
      → Client
      → Outcome
          (Client × Result (ClientError X) ℕ × Result (ClientError X) ℕ × List (ClientError X))
  session cancelled events again conn inside c = do
    (c1, r1) ← listener_for_events cancelled events c
    (c2, r2) ← listener_for_events cancelled again c1
    (c3, errors) ← close conn inside c2
    returns (c3, r1, r2, errors)

  -- Where the call of Events succeeds, a new client gives two callers two listeners, fed by one
  -- receiver; Close then reports the connection's error alone, and a later call is refused. Where it
  -- fails, the first caller gets its error and the second a listener that no receiver feeds.
  pub session_lem :
      (addr : Text) (cancelled : Bool) (again conn later : Option X) (x : X) (inside : Option Pick)
      → ((c : Client) × (session cancelled none again conn inside (fresh addr)
            ≡ returns (c, ok 0, ok 1, joined of_grpc conn))
          × (c.receivers ≡ 1)
          × (listener_for_events cancelled later c ≡ returns (c, err (of_broadcaster err_stopped))))
        × ((c : Client) × (session cancelled (some x) again conn inside (fresh addr)
              ≡ returns (c, err (of_grpc x), ok 0, joined of_grpc conn))
            × (c.receivers ≡ 0))
  unfolding listener_for_events close State.wait_worker State.stop_all put lookup stop_listener
  session_lem addr cancelled again none later x none = ((_, refl, refl, refl), (_, refl, refl))
  session_lem addr cancelled again none later x (some p) = ((_, refl, refl, refl), (_, refl, refl))
  session_lem addr cancelled again (some y) later x none = ((_, refl, refl, refl), (_, refl, refl))
  session_lem addr cancelled again (some y) later x (some p) =
      ((_, refl, refl, refl), (_, refl, refl))
