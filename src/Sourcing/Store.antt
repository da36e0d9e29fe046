-- ===== src/Sourcing/Store.antt =====
-- pkg/repository/event_store.go: the event store over its table, and the repository of aggregates.
-- The table is the database's, a parameter; metadata is left out, since no event is given any.
pub mod Versions
pub mod Saving
pub mod Finding
pub mod Null
use transaction_api.Prelude.{
  ℕ, suc, ◌+◌, ◌≤◌, ◌<◌, ◌≡◌, ◌≢◌, ◌==◌, not, Option, none, some, String, Result, ok, err, List, [],
  ◌∷◌, ◌++◌, if◌then◌else◌,
}
use Prim.Native.Nat.{max}
use transaction_api.Domain.Base.{Uuid, Time}
use transaction_api.Sourcing.Events.{
  Json, Event, EventType, transaction_created, transaction_completed, transaction_failed,
  transaction_cancelled, balance_created, balance_updated, BaseEvent, Detail, plain,
}
use transaction_api.Sourcing.Aggregate.{
  BaseAggregate, mark_events_as_committed, EventSourcedTransaction, zero_transaction, ApplyError,
  load_from_history,
}

pub record EventStoreModel : Type 0 where
  pub id : Uuid
  pub type_ : EventType
  pub aggregate_id : Uuid
  pub version : ℕ
  pub timestamp : Time
  pub payload : Option String
  pub created_at : Time

-- The queries of the store: the largest version of an aggregate or 0, the insertion of a row, and
-- the rows of an aggregate by version.
pub record EventTable (S : Type 0) : Type 0 where
  pub max_version : Uuid → S → Result String ℕ
  pub insert : EventStoreModel → S → Option String × S
  pub find : Uuid → S → Result String (List EventStoreModel)

-- A row that is inserted counts for the largest version, and stands last if its version is the
-- largest.
pub record IsEventTable {S : Type 0} (table : EventTable S) : Type 0 where
  pub insert_version :
      (m : EventStoreModel) (s : S) (v : ℕ)
      → (table.insert m s).0 ≡ none
      → table.max_version m.aggregate_id s ≡ ok v
      → table.max_version m.aggregate_id (table.insert m s).1 ≡ ok (max v m.version)
  pub insert_find :
      (m : EventStoreModel) (s : S) (v : ℕ) (ms : List EventStoreModel)
      → (table.insert m s).0 ≡ none
      → table.max_version m.aggregate_id s ≡ ok v
      → v < m.version
      → table.find m.aggregate_id s ≡ ok ms
      → table.find m.aggregate_id (table.insert m s).1 ≡ ok (ms ++ m ∷ [])

-- The column of the data is NOT NULL: a row with no data is not inserted.
abbrev pub RequiresData : {S : Type 0} → EventTable S → Type 0
RequiresData {S} table =
    (m : EventStoreModel) (s : S) → m.payload ≡ none → (table.insert m s).0 ≢ none

pub data SaveError : Type 0 where
  version_unknown : String → SaveError
  concurrent_modification : ℕ → ℕ → SaveError
  not_saved : String → SaveError

-- The row of an event, whose version is the place of the event after the expected version.
abbrev pub model_of : Time → ℕ → Event → EventStoreModel
model_of now version e = record {
  id = e.base.id;
  type_ = e.base.type_;
  aggregate_id = e.base.aggregate_id;
  version = version;
  timestamp = e.base.timestamp;
  payload = e.base.payload;
  created_at = now;
}

-- A database transaction that ends in an error leaves the state as it found it.
abbrev rolled_back : {S : Type 0} → S → Option SaveError × S → Option SaveError × S
rolled_back s (none, s') = (none, s')
rolled_back s (some e, s') = (some e, s)

module _ {S : Type 0} (table : EventTable S) where
  -- The loop over the events; `version` is that of the row before.
  insert_all : Time → ℕ → List Event → S → Option SaveError × S
  insert_all now version [] s = (none, s)
  insert_all now version (e ∷ es) s =
      let (error, s') = table.insert (model_of now (version + 1) e) s in
      let rest = insert_all now (version + 1) es s' in
      elim error [ none ↦ rest | some x ↦ (some (not_saved x), s') ]

  checked : Time → ℕ → List Event → Result String ℕ → S → Option SaveError × S
  unfolding insert_all
  checked now expected es (err e) s = (some (version_unknown e), s)
  checked now expected es (ok current) s =
      if not (current == expected)
      then (some (concurrent_modification expected current), s)
      else insert_all now expected es s

  -- `SaveEvents`; a database transaction undoes what was written before an error.
  unfoldable pub save_events : Time → Uuid → List Event → ℕ → S → Option SaveError × S
  unfolding checked
  save_events now id es expected s =
      rolled_back s (checked now expected es (table.max_version id s) s)

  -- `EventRepository.Save`.
  save_some : Time → BaseAggregate → Option SaveError × S → Option SaveError × BaseAggregate × S
  unfolding mark_events_as_committed
  save_some now a (some e, s) = (some e, a, s)
  save_some now a (none, s) = (none, mark_events_as_committed a, s)

  save_by : Time → BaseAggregate → List Event → S → Option SaveError × BaseAggregate × S
  unfolding save_some
  save_by now a [] s = (none, a, s)
  save_by now a (e ∷ es) s = save_some now a (save_events now a.id (e ∷ es) a.version s)

  unfoldable pub save : Time → BaseAggregate → S → Option SaveError × BaseAggregate × S
  unfolding save_by
  save now a s = save_by now a a.uncommitted_events s
