-- ===== src/Sourcing.antt =====
-- Event sourcing: the events, the two aggregates, the event store and its repository
-- (pkg/domain/events.go, pkg/domain/aggregate.go, pkg/repository/event_store.go,
-- pkg/service/event_replay.go).
pub mod Events
pub mod Aggregate
pub mod Balance
pub mod Store
pub mod Queries
pub mod Loading
pub mod Replay
