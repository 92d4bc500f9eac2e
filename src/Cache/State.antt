-- ===== src/Cache/State.antt =====
-- pkg/service/grpc/cache/cache.go: a map whose changes are published on a broadcaster.
use goico.Shared.{ℕ, Bool, Option, none, some, List, [], if◌then◌else◌}
use goico.Shared.GoMap.{GoMap, lookup, put, remove}
use goico.Shared.Key.{Comparable}
use goico.Shared.Result.{Result, ok, err}
use goico.Shared.Outcome.{Outcome, returns, ◌>>=◌}
use goico.Broadcaster.Chan.{Pick}
use goico.Broadcaster.Listener.{Error}
use goico.Broadcaster.State
use goico.Broadcaster.State.{Broadcaster, new_and_start, write}

-- `event.Event`, from its description in proto/event.proto
pub data EventType : Type 0 where
  event_add event_update event_delete event_error : EventType

pub record Event : Type 0 where
  pub type : EventType
  pub name : List ℕ

-- What goes wrong: "broadcasting disabled", or an error of the broadcaster.
pub data CacheError : Type 0 where
  broadcasting_disabled : CacheError
  of_broadcaster : Error → CacheError

-- `Cache`
pub record Cache (K V : Type 0) : Type 0 where
  pub name : List ℕ
  pub defs : GoMap K V
  pub broadcaster : Option (Broadcaster Event)

abbrev broadcaster_error : Option Error → Option CacheError
broadcaster_error none = none
broadcaster_error (some e) = some (of_broadcaster e)

module _ {K V : Type 0} ⦃c : Comparable K⦄ where
  -- `New`; `cancelled` says whether the context is done.
  unfoldable pub new_cache : Bool → List ℕ → Bool → Outcome (Cache K V)
  unfolding new_and_start
  new_cache cancelled name publish =
      if publish
      then (do
        b ← new_and_start cancelled
        returns (record { name = name; defs = []; broadcaster = some b }))
      else returns (record { name = name; defs = []; broadcaster = none })

  -- `Close`
  unfoldable pub close : Option Pick → Cache K V → Outcome (Cache K V × Option CacheError)
  unfolding State.stop
  close inside s = elim s.broadcaster [
    | none ↦ returns (s, none)
    | some b ↦ do
      (b', e) ← State.stop inside b
      returns (record s { broadcaster = some b' }, broadcaster_error e)
  ]

  -- `Subscribe`
  unfoldable pub subscribe : Cache K V → Outcome (Cache K V × Result CacheError ℕ)
  unfolding State.subscribe
  subscribe s = elim s.broadcaster [
    | none ↦ returns (s, err broadcasting_disabled)
    | some b ↦ do
      (b', r) ← State.subscribe b
      returns (
        record s { broadcaster = some b' },
        elim r [ ok l ↦ ok l | err e ↦ err (of_broadcaster e) ],
      )
  ]

  -- `Unsubscribe`
  unfoldable pub unsubscribe : ℕ → Cache K V → Outcome (Cache K V × Option CacheError)
  unfolding State.unsubscribe
  unsubscribe l s = elim s.broadcaster [
    | none ↦ returns (s, some broadcasting_disabled)
    | some b ↦ do
      (b', e) ← State.unsubscribe l b
      returns (record s { broadcaster = some b' }, broadcaster_error e)
  ]

  -- The event, if there is a broadcaster
  unfoldable pub publish : EventType → Cache K V → Outcome (Cache K V × Option CacheError)
  unfolding write
  publish type s = elim s.broadcaster [
    | none ↦ returns (s, none)
    | some b ↦ do
      (b', e) ← write (record { type = type; name = s.name }) b
      returns (record s { broadcaster = some b' }, broadcaster_error e)
  ]

  -- `AddOrUpdate`
  unfoldable pub add_or_update : K → V → Cache K V → Outcome (Cache K V × Option CacheError)
  unfolding publish
  add_or_update k v s = publish event_add (record s { defs = put k v s.defs })

  -- `Delete`
  unfoldable pub delete : K → Cache K V → Outcome (Cache K V × Option CacheError)
  unfolding publish
  delete k s = publish event_delete (record s { defs = remove k s.defs })

  -- `Update`
  unfoldable pub update : K → V → Cache K V → Outcome (Cache K V × Option CacheError)
  unfolding publish
  update k v s = publish event_update (record s { defs = put k v s.defs })

  -- `Get`
  unfoldable pub get : K → Cache K V → Option V
  get k s = lookup k s.defs
