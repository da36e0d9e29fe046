-- ===== src/Sourcing/Aggregate.antt =====
-- `BaseAggregate` and `EventSourcedTransaction` of pkg/domain/aggregate.go.
pub mod Laws
use transaction_api.Prelude.{
  ℕ, ◌+◌, pos, leb_ℤ, Option, none, some, String, Result, ok, err, List, [], ◌∷◌, ◌++◌,
  if◌then◌else◌, Bool, true, false, not,
}
use transaction_api.Domain.Base.{
  Uuid, Amount, Time, Status, pending, completed, failed, cancelled, other, TransactionType,
  transfer, other_type, DomainError, invalid_amount, invalid_state,
}
use transaction_api.Domain.Transaction.{Transaction, is_final}
use transaction_api.Sourcing.Events.{
  Json, Event, EventType, transaction_created, transaction_completed, transaction_failed,
  transaction_cancelled, StateChange, state_changed_event_type, new_transaction_created_event,
  new_transaction_state_changed_event,
}

pub record BaseAggregate : Type 0 where
  pub id : Uuid
  pub version : ℕ
  pub uncommitted_events : List Event

unfoldable pub add_event : Event → BaseAggregate → BaseAggregate
add_event e a = record a { uncommitted_events = a.uncommitted_events ++ e ∷ [] }

unfoldable pub mark_events_as_committed : BaseAggregate → BaseAggregate
mark_events_as_committed a = record a { uncommitted_events = []; version = a.version + 1 }

pub record EventSourcedTransaction : Type 0 where
  pub root : BaseAggregate
  pub user_id : Uuid
  pub type_ : TransactionType
  pub amount : Amount
  pub description : String
  pub reference_id : String
  pub balance_after : Amount
  pub status : Status
  pub created_at : Time
  pub updated_at : Time

-- `&EventSourcedTransaction{}`: every field is its zero value.
abbrev pub zero_transaction : EventSourcedTransaction
zero_transaction = record {
  root = record { id = 0; version = 0; uncommitted_events = [] };
  user_id = 0;
  type_ = other_type "";
  amount = pos 0;
  description = "";
  reference_id = "";
  balance_after = pos 0;
  status = other "";
  created_at = 0;
  updated_at = 0;
}

-- The `Transaction` literal of the created event.
abbrev pub snapshot : EventSourcedTransaction → Transaction
snapshot t = record {
  id = t.root.id;
  user_id = t.user_id;
  type_ = t.type_;
  amount = t.amount;
  description = t.description;
  reference_id = t.reference_id;
  balance_after = pos 0;
  status = t.status;
  created_at = t.created_at;
  updated_at = t.updated_at;
}

abbrev fresh_transaction : Uuid → Time → Time → Uuid → Amount → String → EventSourcedTransaction
fresh_transaction id created updated user amount description = record {
  root = record { id = id; version = 0; uncommitted_events = [] };
  user_id = user;
  type_ = transfer;
  amount = amount;
  description = description;
  reference_id = "";
  balance_after = pos 0;
  status = pending;
  created_at = created;
  updated_at = updated;
}

unfoldable pub new_event_sourced_transaction :
    Json
    → Uuid
    → Time
    → Time
    → Uuid
    → Time
    → Uuid
    → Amount
    → String
    → Result DomainError EventSourcedTransaction
unfolding new_transaction_created_event add_event
new_event_sourced_transaction json id created updated event_id event_now user amount description =
    if leb_ℤ amount (pos 0)
    then err invalid_amount
    else let t = fresh_transaction id created updated user amount description in
      ok (record t {
        root =
            add_event (new_transaction_created_event json event_id event_now (snapshot t)) t.root;
      })

-- A call of `UpdateState`: its error, the aggregate after it, or no return at all, where the type of
-- the event is not found.
pub data Updated : Type 0 where
  refused : DomainError → Updated
  updated : EventSourcedTransaction → Updated
  never_returns : Updated

-- The `switch` on the old status: whether the new one is refused.
refuses : Status → Status → Bool
refuses pending to = not (is_final to)
refuses completed to = true
refuses failed to = true
refuses cancelled to = true
refuses _ to = false

record_change :
    Uuid → Time → Time → Status → String → EventSourcedTransaction → Option EventType → Updated
unfolding add_event new_transaction_state_changed_event
record_change event_id now event_now to reason t none = never_returns
record_change event_id now event_now to reason t (some type_) =
    let e =
      new_transaction_state_changed_event event_id event_now t.root.id type_ t.status to reason in
    updated (record t { root = add_event e t.root; status = to; updated_at = now })

unfoldable pub update_state :
    Uuid → Time → Time → Status → String → EventSourcedTransaction → Updated
unfolding refuses record_change state_changed_event_type
update_state event_id now event_now to reason t =
    if refuses t.status to
    then refused invalid_state
    else record_change event_id now event_now to reason t (state_changed_event_type 1 to)

pub data ApplyError : Type 0 where
  unmarshal : String → ApplyError
  unknown_event_type : EventType → ApplyError

apply_created :
    EventSourcedTransaction
    → Result String Transaction
    → Option ApplyError × EventSourcedTransaction
apply_created t (err e) = (some (unmarshal e), t)
apply_created t (ok d) = (
  none,
  record t {
    user_id = d.user_id;
    type_ = d.type_;
    amount = d.amount;
    description = d.description;
    reference_id = d.reference_id;
    status = d.status;
    created_at = d.created_at;
    updated_at = d.updated_at;
  },
)

apply_change :
    Time
    → EventSourcedTransaction
    → Result String StateChange
    → Option ApplyError × EventSourcedTransaction
apply_change now t (err e) = (some (unmarshal e), t)
apply_change now t (ok c) = (none, record t { status = c.new_state; updated_at = now })

-- The `switch` of `ApplyEvent` on the type.
apply_as :
    EventType → Json → Event → EventSourcedTransaction → Option ApplyError × EventSourcedTransaction
unfolding apply_created apply_change
apply_as transaction_created json e t = apply_created t (json.unmarshal_transaction e.base.payload)
apply_as transaction_completed json e t =
    apply_change e.base.timestamp t (json.unmarshal_state_change e.base.payload)
apply_as transaction_failed json e t =
    apply_change e.base.timestamp t (json.unmarshal_state_change e.base.payload)
apply_as transaction_cancelled json e t =
    apply_change e.base.timestamp t (json.unmarshal_state_change e.base.payload)
apply_as type_ json e t = (some (unknown_event_type type_), t)

unfoldable pub apply_event :
    Json → Event → EventSourcedTransaction → Option ApplyError × EventSourcedTransaction
unfolding apply_as
apply_event json e t = apply_as e.base.type_ json e t

-- The loop of `LoadFromHistory`, which stops at the first error.
unfoldable pub load_from_history :
    Json → List Event → EventSourcedTransaction → Option ApplyError × EventSourcedTransaction
load_from_history json [] t = (none, t)
load_from_history json (e ∷ es) t =
    let (error, t') = apply_event json e t in
    let rest = load_from_history json es t' in elim error [ none ↦ rest | some x ↦ (some x, t') ]
