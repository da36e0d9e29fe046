-- ===== src/Sourcing/Store/Saving.antt =====
-- What the versions mean for two writers of one aggregate.
use transaction_api.Prelude.{
  ℕ, ◌+◌, ◌≤◌, ◌≡◌, refl, ◌≢◌, arith, none, some, List, ◌++◌, length, Bool-cases, inl, inr, ◌==◌,
  ==_iff,
}
use mathlib.Core.Path.{subst}
use transaction_api.Domain.Base.{Uuid, Time}
use transaction_api.Sourcing.Events.{Event}
use transaction_api.Sourcing.Store.{
  EventTable, IsEventTable, EventStoreModel, concurrent_modification, save_events,
}
use transaction_api.Sourcing.Store.Versions.{Stores, BelongsTo, Saves, save_events-Saves, models_of}

module _ {S : Type 0} (table : EventTable S) (law : IsEventTable table) where
  -- A writer that expects a version which the store has left is refused, and nothing is stored.
  stale_refused :
      (now : Time) (id : Uuid) (expected v : ℕ) (ms : List EventStoreModel) (es : List Event)
      (s : S)
      → Stores table id v ms s
      → v ≢ expected
      → save_events table now id es expected s ≡ (some (concurrent_modification expected v), s)
  unfolding save_events
  stale_refused now id expected v ms es s h ne = rw h.0 (elim (Bool-cases (v == expected)) [
    | inl same ↦ absurd (ne ((==_iff v expected).0 same))
    | inr differs ↦ rw differs refl
  ])

  saved-Stores :
      (now : Time) (id : Uuid) (v : ℕ) (ms : List EventStoreModel) (es : List Event) (s s' : S)
      → BelongsTo id es
      → Stores table id v ms s
      → save_events table now id es v s ≡ (none, s')
      → Stores table id (v + length es) (ms ++ models_of now v es) s'
  saved-Stores now id v ms es s s' b h e =
      (subst (Saves table law now id v v ms es s) e
        (save_events-Saves table law now id v v ms es s b h)).1

  -- On a table that follows its laws, of two writers that have read the same version of an
  -- aggregate, the second is refused once the first has stored an event, and the store keeps what
  -- the first has written.
  pub second_writer_refused :
      (now later : Time) (id : Uuid) (v : ℕ) (ms : List EventStoreModel) (es others : List Event)
      (s s' : S)
      → BelongsTo id es
      → Stores table id v ms s
      → 1 ≤ length es
      → save_events table now id es v s ≡ (none, s')
      → save_events table later id others v s'
        ≡ (some (concurrent_modification v (v + length es)), s')
  second_writer_refused now later id v ms es others s s' b h n e =
      stale_refused later id v (v + length es) (ms ++ models_of now v es) others s'
        (saved-Stores now id v ms es s s' b h e) (omega arith)
