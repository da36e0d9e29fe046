-- ===== src/Sourcing/Aggregate/Laws.antt =====
-- A transaction through its events: what is recorded, and what loading the record gives.
use transaction_api.Prelude.{
  ◌≡◌, refl, ◌≢◌, Option-cases, ◌⊎◌, inl, inr, arith, Option, none, some, String, ok, List, [], ◌∷◌,
  ◌++◌, true, false,
}
use transaction_api.Domain.Base.{
  Uuid, Amount, Time, Status, pending, completed, failed, cancelled, invalid_state,
}
use transaction_api.Domain.Transaction.{is_final}
use transaction_api.Sourcing.Events.{
  Json, IsJson, ReadsBack, Event, EventType, state_changed_event_type,
  new_transaction_state_changed_event,
}
use transaction_api.Sourcing.Aggregate.{
  EventSourcedTransaction, zero_transaction, snapshot, new_event_sourced_transaction, Updated,
  refused, updated, never_returns, update_state, ApplyError, apply_event, load_from_history,
}

-- What a change of state does to a transaction that is pending or final.
abbrev pub Records : Status → EventSourcedTransaction → Updated → Type 0
Records to t (updated t') =
    (t.status ≡ pending)
    × (is_final to ≡ true)
    × (t'.status ≡ to)
    × (t'.amount ≡ t.amount)
    × (t'.root.id ≡ t.root.id)
    × (t'.root.version ≡ t.root.version)
Records to t (refused e) =
    (e ≡ invalid_state) × ((is_final t.status ≡ true) ⊎ (is_final to ≡ false))
Records to t never_returns = ⊥

-- A pending transaction takes exactly the three final states, and a final one, a cancelled one too,
-- takes none; in either status the call returns.
pub update_state-Records :
    (event_id : Uuid) (now event_now : Time) (to : Status) (reason : String)
    (t : EventSourcedTransaction)
    → (t.status ≡ pending) ⊎ (is_final t.status ≡ true)
    → Records to t (update_state event_id now event_now to reason t)
unfolding update_state
update_state-Records event_id now event_now to reason t h = ground arith

-- Where the transaction is read back as it was marshalled, loading the history of a new one, its
-- created event alone, gives back every field that the event records; the identifier and the
-- version stay zero.
pub load_from_history-new :
    (json : Json) (id : Uuid) (made changed : Time) (event_id : Uuid) (event_now : Time)
    (user : Uuid) (amount : Amount) (d : String) (t : EventSourcedTransaction)
    → ReadsBack json (snapshot t)
    → new_event_sourced_transaction json id made changed event_id event_now user amount d ≡ ok t
    → load_from_history json t.root.uncommitted_events zero_transaction
      ≡ (none, record t { root = record { id = 0; version = 0; uncommitted_events = [] } })
unfolding new_event_sourced_transaction load_from_history apply_event
load_from_history-new json id made changed event_id event_now user amount d t law e = ground arith

-- An event that cannot be applied to any transaction.
abbrev IsStuck : Json → Event → Type 0
IsStuck json e = (u : EventSourcedTransaction) → (apply_event json e u).0 ≢ none

after_error :
    (o : Option ApplyError) (rest : Option ApplyError × EventSourcedTransaction)
    (u : EventSourcedTransaction)
    → ((o ≢ none) ⊎ (rest.0 ≢ none))
    → (let r : Option ApplyError × EventSourcedTransaction = elim o [
      | none ↦ rest
      | some x ↦ (some x, u)
    ] in
        r.0)
      ≢ none
after_error none rest u (inl h) = absurd (h refl)
after_error none rest u (inr h) = h
after_error (some x) rest u h = λ p. cc

load_from_history-last :
    (json : Json) (es : List Event) (e : Event) (t : EventSourcedTransaction)
    → IsStuck json e
    → (load_from_history json (es ++ e ∷ []) t).0 ≢ none
unfolding load_from_history
load_from_history-last json [] e t h =
    after_error (apply_event json e t).0 (load_from_history json [] (apply_event json e t).1)
      (apply_event json e t).1 (inl (h t))
load_from_history-last json (x ∷ es) e t h =
    let (o, u) = apply_event json x t in
    after_error o (load_from_history json (es ++ e ∷ []) u) u
      (inr (load_from_history-last json es e u h))

-- The event of a change of state has no payload, and every type it may have reads one.
change_event-IsStuck :
    (json : Json) (id : Uuid) (now : Time) (aggregate : Uuid) (old to : Status) (reason : String)
    (type_ : EventType)
    → IsJson json
    → state_changed_event_type 1 to ≡ some type_
    → IsStuck json (new_transaction_state_changed_event id now aggregate type_ old to reason)
unfolding apply_event new_transaction_state_changed_event state_changed_event_type
change_event-IsStuck json id now aggregate old completed reason type_ law e u =
    ground (arith, law.empty_state_change)
change_event-IsStuck json id now aggregate old failed reason type_ law e u =
    ground (arith, law.empty_state_change)
change_event-IsStuck json id now aggregate old cancelled reason type_ law e u =
    ground (arith, law.empty_state_change)
change_event-IsStuck json id now aggregate old _ reason type_ law e u = cc

-- What a change of state adds to the events.
pub update_state_event :
    (event_id : Uuid) (now event_now : Time) (to : Status) (reason : String)
    (t t' : EventSourcedTransaction)
    → update_state event_id now event_now to reason t ≡ updated t'
    → (type_ : EventType) × (state_changed_event_type 1 to ≡ some type_)
      × (t'.root.uncommitted_events
          ≡ t.root.uncommitted_events
            ++ new_transaction_state_changed_event event_id event_now t.root.id type_ t.status to
                reason
              ∷ [])
unfolding update_state
update_state_event event_id now event_now to reason t t' e =
    elim (Option-cases (state_changed_event_type 1 to)) [
      | inl n ↦ absurd (ground arith)
      | inr (type_, p) ↦ (type_, p, ground arith)
    ]

-- Once a change of state has been recorded, the history of the transaction cannot be loaded again:
-- whatever it held before, loading its events ends in an error.
pub load_from_history-update_state :
    (json : Json) (event_id : Uuid) (now event_now : Time) (to : Status) (reason : String)
    (t t' start : EventSourcedTransaction)
    → IsJson json
    → update_state event_id now event_now to reason t ≡ updated t'
    → (load_from_history json t'.root.uncommitted_events start).0 ≢ none
load_from_history-update_state json event_id now event_now to reason t t' start law e =
    let (type_, p, q) = update_state_event event_id now event_now to reason t t' e in
    rw q (
      load_from_history-last json t.root.uncommitted_events _ start
        (change_event-IsStuck json event_id event_now t.root.id t.status to reason type_ law p))
