-- ===== src/Sourcing/Replay.antt =====
-- pkg/service/event_replay.go: replays of aggregates over the event store, an interface. They only
-- read, so the order in which Go goes through a map of aggregates does not matter. The log is what each replay of an aggregate has returned.
pub mod Laws
use transaction_api.Prelude.{
  ℕ, zero, suc, ◌+◌, ◌==◌, Option, none, some, String, Result, ok, err, List, [], ◌∷◌, map, Bool,
  true, false, if◌then◌else◌, ◌||◌, ◌++◌,
}
use mathlib.Core.Option
use transaction_api.Domain.Base.{Uuid}
use transaction_api.Sourcing.Events.{
  Json, Event, EventType, transaction_created, transaction_completed, transaction_failed,
  transaction_cancelled, balance_created, balance_updated, user_created, user_updated,
}
use transaction_api.Sourcing.Aggregate.{
  EventSourcedTransaction, zero_transaction, ApplyError, load_from_history,
}
use transaction_api.Sourcing.Balance.{
  EventSourcedBalance, zero_balance, load_from_history as load_balance,
}

-- The queries of `domain.EventStore` that a replay makes; the second takes a limit and an offset.
pub record EventStore : Type 0 where
  pub get_events : Uuid → Result String (List Event)
  pub get_all_events : ℕ → ℕ → Result String (List Event)

pub data AggregateType : Type 0 where
  transaction_aggregate balance_aggregate user_aggregate unknown_aggregate : AggregateType

unfoldable pub determine_aggregate_type : EventType → AggregateType
determine_aggregate_type transaction_created = transaction_aggregate
determine_aggregate_type transaction_completed = transaction_aggregate
determine_aggregate_type transaction_failed = transaction_aggregate
determine_aggregate_type transaction_cancelled = transaction_aggregate
determine_aggregate_type balance_created = balance_aggregate
determine_aggregate_type balance_updated = balance_aggregate
determine_aggregate_type user_created = user_aggregate
determine_aggregate_type user_updated = user_aggregate
determine_aggregate_type _ = unknown_aggregate

pub data ReplayError : Type 0 where
  events_unavailable : String → ReplayError
  transaction_not_loaded balance_not_loaded : ApplyError → ReplayError
  unknown_aggregate_type : EventType → ReplayError

abbrev replay_as : AggregateType → EventType → Json → List Event → Option ReplayError
replay_as transaction_aggregate type_ json es =
    Option.map transaction_not_loaded (load_from_history json es zero_transaction).0
replay_as balance_aggregate type_ json es =
    Option.map balance_not_loaded (load_balance json es zero_balance).0
replay_as _ type_ json es = some (unknown_aggregate_type type_)

abbrev replay_events : Json → Result String (List Event) → Option ReplayError
replay_events json (err x) = some (events_unavailable x)
replay_events json (ok []) = none
replay_events json (ok (e ∷ es)) =
    replay_as (determine_aggregate_type e.base.type_) e.base.type_ json (e ∷ es)

unfoldable pub replay_events_for_aggregate : EventStore → Json → Uuid → Option ReplayError
unfolding determine_aggregate_type load_from_history load_balance
replay_events_for_aggregate store json id = replay_events json (store.get_events id)

abbrev pub holds : Uuid → List Uuid → Bool
holds id [] = false
holds id (x ∷ xs) = (id == x) || holds id xs

-- The keys of `groupEventsByAggregate`.
unfoldable pub aggregates_of : List Event → List Uuid
aggregates_of [] = []
aggregates_of (e ∷ es) =
    let rest = aggregates_of es in
    if holds e.base.aggregate_id rest then rest else e.base.aggregate_id ∷ rest

abbrev pub Log : Type 0
Log = List (Uuid × Option ReplayError)

unfoldable pub replay_each : EventStore → Json → List Uuid → Log
unfolding replay_events_for_aggregate
replay_each store json ids = map (λ id. (id, replay_events_for_aggregate store json id)) ids

-- How `ReplayAllEvents` ends, and what it does without end on too little fuel.
pub data Replay : Type 0 where
  finished : Log → Replay
  batch_unavailable : String → Replay
  out_of_fuel : Replay

abbrev pub after_batch : Log → Replay → Replay
after_batch log (finished rest) = finished (log ++ rest)
after_batch log r = r

abbrev pub replay_batch : EventStore → Json → Result String (List Event) → Replay → Replay
replay_batch store json (err x) rest = batch_unavailable x
replay_batch store json (ok []) rest = finished []
replay_batch store json (ok (e ∷ es)) rest =
    after_batch (replay_each store json (aggregates_of (e ∷ es))) rest

-- The loop of `ReplayAllEvents`, from an offset, on fuel.
unfoldable pub replay_from : EventStore → Json → ℕ → ℕ → ℕ → Replay
unfolding replay_each aggregates_of
replay_from store json zero batch_size offset = out_of_fuel
replay_from store json (suc fuel) batch_size offset =
    let rest = replay_from store json fuel batch_size (offset + batch_size) in
    replay_batch store json (store.get_all_events batch_size offset) rest
