-- ===== src/Sourcing/Queries.antt =====
-- The paging queries of pkg/repository/event_store.go, its loading of balances, and the replays by
-- type and by time range of pkg/service/event_replay.go.
use transaction_api.Prelude.{ℕ, ℤ, Option, none, some, String, Result, ok, err, List, [], ◌∷◌}
use transaction_api.Domain.Base.{Uuid, Time}
use transaction_api.Sourcing.Events.{Json, Event, EventType}
use transaction_api.Sourcing.Aggregate.{ApplyError}
use transaction_api.Sourcing.Balance.{EventSourcedBalance, zero_balance, load_from_history}
use transaction_api.Sourcing.Store.{EventStoreModel, EventTable}
use transaction_api.Sourcing.Loading.{
  deserialize_all, deserialized, LoadError, unreadable, no_rows, not_applied, get_events,
}
use transaction_api.Sourcing.Replay.{EventStore, Log, replay_each, aggregates_of}

-- The queries over all aggregates, each in the order of the time stamps: by type and over all, with
-- a limit and an offset, and between two times; and the number of rows of an aggregate.
pub record EventQueries (S : Type 0) : Type 0 where
  pub by_type : EventType → ℤ → ℤ → S → Result String (List EventStoreModel)
  pub between : Time → Time → S → Result String (List EventStoreModel)
  pub all : ℤ → ℤ → S → Result String (List EventStoreModel)
  pub count : Uuid → S → Result String ℕ

module _ {S : Type 0} (queries : EventQueries S) where
  unfoldable pub get_events_by_type : Json → EventType → ℤ → ℤ → S → Result String (List Event)
  unfolding deserialize_all
  get_events_by_type json type_ limit offset s =
      deserialized json (queries.by_type type_ limit offset s)

  unfoldable pub get_events_by_time_range : Json → Time → Time → S → Result String (List Event)
  unfolding deserialize_all
  get_events_by_time_range json start end s = deserialized json (queries.between start end s)

  unfoldable pub get_all_events : Json → ℤ → ℤ → S → Result String (List Event)
  unfolding deserialize_all
  get_all_events json limit offset s = deserialized json (queries.all limit offset s)

  unfoldable pub get_event_count : Uuid → S → Result String ℕ
  get_event_count id s = queries.count id s

-- `GetBalance`.
abbrev balance_loaded :
    Option ApplyError × EventSourcedBalance → Result LoadError EventSourcedBalance
balance_loaded (none, b) = ok b
balance_loaded (some e, b) = err (not_applied e)

abbrev load_balance : Json → Result String (List Event) → Result LoadError EventSourcedBalance
load_balance json (err e) = err (unreadable e)
load_balance json (ok []) = err no_rows
load_balance json (ok (e ∷ es)) = balance_loaded (load_from_history json (e ∷ es) zero_balance)

module _ {S : Type 0} (table : EventTable S) where
  unfoldable pub get_balance : Json → Uuid → S → Result LoadError EventSourcedBalance
  unfolding get_events load_from_history
  get_balance json id s = load_balance json (get_events table json id s)

  -- The identifier of the user is taken for that of the balance.
  unfoldable pub get_balance_by_user_id : Json → Uuid → S → Result LoadError EventSourcedBalance
  unfolding get_balance
  get_balance_by_user_id json user s = get_balance json user s

-- The replays of the aggregates of a list of events, if it could be read and is not empty; the
-- result is the log, as in `ReplayAllEvents`.
abbrev replay_found : EventStore → Json → Result String (List Event) → Result String Log
replay_found store json (err e) = err e
replay_found store json (ok []) = ok []
replay_found store json (ok (e ∷ es)) = ok (replay_each store json (aggregates_of (e ∷ es)))

-- A replay by type takes its events from `GetEventsByType`, one by time range from
-- `GetEventsByTimeRange`.
module _ {S : Type 0} (queries : EventQueries S) (store : EventStore) (json : Json) where
  unfoldable pub replay_events_by_type : EventType → ℤ → ℤ → S → Result String Log
  unfolding get_events_by_type replay_each aggregates_of
  replay_events_by_type type_ limit offset s =
      replay_found store json (get_events_by_type queries json type_ limit offset s)

  unfoldable pub replay_events_by_time_range : Time → Time → S → Result String Log
  unfolding get_events_by_time_range replay_each aggregates_of
  replay_events_by_time_range start end s =
      replay_found store json (get_events_by_time_range queries json start end s)
