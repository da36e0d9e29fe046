-- ===== src/Sourcing/Loading.antt =====
-- The reading half of pkg/repository/event_store.go: rows to events, and events to an aggregate.
use transaction_api.Prelude.{Option, none, some, String, Result, ok, err, List, [], ◌∷◌}
use transaction_api.Domain.Base.{Uuid}
use transaction_api.Sourcing.Events.{
  Json, Event, EventType, transaction_created, transaction_completed, transaction_failed,
  transaction_cancelled, balance_created, balance_updated, BaseEvent, Detail, plain,
}
use transaction_api.Sourcing.Aggregate.{
  EventSourcedTransaction, zero_transaction, ApplyError, load_from_history,
}
use transaction_api.Sourcing.Store.{EventStoreModel, EventTable}

-- `deserializeEvent`: the typed event, where its type is one of six.
abbrev base_of : EventStoreModel → BaseEvent
base_of m = record {
  id = m.id;
  type_ = m.type_;
  aggregate_id = m.aggregate_id;
  version = m.version;
  timestamp = m.timestamp;
  payload = m.payload;
}

abbrev with_detail : BaseEvent → Result String Detail → Result String Event
with_detail b (ok d) = ok (record { base = b; detail = d })
with_detail b (err e) = err e

unfoldable pub detail_of : Json → EventType → Option String → Result String Detail
detail_of json transaction_created p = json.unmarshal_event transaction_created p
detail_of json transaction_completed p = json.unmarshal_event transaction_completed p
detail_of json transaction_failed p = json.unmarshal_event transaction_failed p
detail_of json transaction_cancelled p = json.unmarshal_event transaction_cancelled p
detail_of json balance_created p = json.unmarshal_event balance_created p
detail_of json balance_updated p = json.unmarshal_event balance_updated p
detail_of json _ p = ok plain

unfoldable pub deserialize_event : Json → EventStoreModel → Result String Event
unfolding detail_of
deserialize_event json m = with_detail (base_of m) (detail_of json m.type_ m.payload)

abbrev cons_event : Result String Event → Result String (List Event) → Result String (List Event)
cons_event (err e) rest = err e
cons_event (ok e) (err x) = err x
cons_event (ok e) (ok es) = ok (e ∷ es)

unfoldable pub deserialize_all : Json → List EventStoreModel → Result String (List Event)
unfolding deserialize_event
deserialize_all json [] = ok []
deserialize_all json (m ∷ ms) = cons_event (deserialize_event json m) (deserialize_all json ms)

abbrev pub deserialized : Json → Result String (List EventStoreModel) → Result String (List Event)
deserialized json (err e) = err e
deserialized json (ok ms) = deserialize_all json ms

-- `GetTransaction`.
pub data LoadError : Type 0 where
  unreadable : String → LoadError
  no_rows : LoadError
  not_applied : ApplyError → LoadError

abbrev loaded :
    Option ApplyError × EventSourcedTransaction → Result LoadError EventSourcedTransaction
loaded (none, t) = ok t
loaded (some e, t) = err (not_applied e)

abbrev load : Json → Result String (List Event) → Result LoadError EventSourcedTransaction
load json (err e) = err (unreadable e)
load json (ok []) = err no_rows
load json (ok (e ∷ es)) = loaded (load_from_history json (e ∷ es) zero_transaction)

module _ {S : Type 0} (table : EventTable S) where
  unfoldable pub get_events : Json → Uuid → S → Result String (List Event)
  unfolding deserialize_all
  get_events json id s = deserialized json (table.find id s)

  unfoldable pub get_transaction : Json → Uuid → S → Result LoadError EventSourcedTransaction
  unfolding get_events load_from_history
  get_transaction json id s = load json (get_events json id s)
