-- ===== src/Sourcing/Events.antt =====
-- pkg/domain/events.go. JSON texts are made and read by encoding/json, a parameter.
use transaction_api.Prelude.{
  ℕ, zero, suc, ◌≡◌, refl, ◌↔◌, Option, none, some, String, Result, ok, err, arith, false,
}
use transaction_api.Domain.Base.{Uuid, Amount, Time, Status, pending, completed, failed, cancelled}
use transaction_api.Domain.Balance.{Balance}
use transaction_api.Domain.Transaction.{Transaction, is_final}

pub data EventType : Type 0 where
  transaction_created transaction_completed transaction_failed transaction_cancelled : EventType
  transaction_rolled_back balance_created balance_updated balance_debited : EventType
  balance_credited user_created user_updated : EventType
  other_event : String → EventType

-- What `json.Unmarshal` is asked to read, besides a transaction and a balance.
pub record StateChange : Type 0 where
  pub old_state : Status
  pub new_state : Status
  pub reason : String

pub record BalanceUpdate : Type 0 where
  pub user_id : Uuid
  pub old_amount : Amount
  pub new_amount : Amount
  pub change : Amount
  pub operation : String
  pub transaction_id : Uuid

pub record BaseEvent : Type 0 where
  pub id : Uuid
  pub type_ : EventType
  pub aggregate_id : Uuid
  pub version : ℕ
  pub timestamp : Time
  pub payload : Option String

-- The fields that the kinds of event add to the base.
pub data Detail : Type 0 where
  created_transaction : Transaction → Detail
  state_changed : StateChange → Detail
  created_balance : Uuid → Amount → String → Detail
  updated_balance : BalanceUpdate → Detail
  plain : Detail

-- encoding/json: `none` stands for a `RawMessage` that was never set.
pub record Json : Type 0 where
  pub marshal_transaction : Transaction → String
  pub marshal_balance : Balance → String
  pub unmarshal_transaction : Option String → Result String Transaction
  pub unmarshal_balance : Option String → Result String Balance
  pub unmarshal_state_change : Option String → Result String StateChange
  pub unmarshal_balance_update : Option String → Result String BalanceUpdate
  pub unmarshal_event : EventType → Option String → Result String Detail

-- What is relied on: reading an empty text is an error.
pub record IsJson (json : Json) : Type 0 where
  pub empty_state_change : json.unmarshal_state_change none ≡ err "unexpected end of JSON input"
  pub empty_balance_update : json.unmarshal_balance_update none ≡ err "unexpected end of JSON input"

-- That a transaction which was marshalled is read back.
abbrev pub ReadsBack : Json → Transaction → Type 0
ReadsBack json t = json.unmarshal_transaction (some (json.marshal_transaction t)) ≡ ok t

pub record Event : Type 0 where
  pub base : BaseEvent
  pub detail : Detail

unfoldable pub new_transaction_created_event : Json → Uuid → Time → Transaction → Event
new_transaction_created_event json id now t = record {
  base = record {
    id = id;
    type_ = transaction_created;
    aggregate_id = t.id;
    version = 1;
    timestamp = now;
    payload = some (json.marshal_transaction t);
  };
  detail = created_transaction t;
}

-- `EventTransactionStateChangedEventType`, on fuel: its default case calls itself on "pending".
unfoldable pub state_changed_event_type : ℕ → Status → Option EventType
state_changed_event_type zero s = none
state_changed_event_type (suc fuel) completed = some transaction_completed
state_changed_event_type (suc fuel) failed = some transaction_failed
state_changed_event_type (suc fuel) cancelled = some transaction_cancelled
state_changed_event_type (suc fuel) _ = state_changed_event_type fuel pending

state_changed_event_type_pending : (fuel : ℕ) → state_changed_event_type fuel pending ≡ none
unfolding state_changed_event_type
state_changed_event_type_pending zero = refl
state_changed_event_type_pending (suc fuel) = state_changed_event_type_pending fuel

-- The type of an event of a state change is found in one call for "completed", "failed" and
-- "cancelled"; for any other state the function calls itself without end.
pub state_changed_event_type_ends :
    (fuel : ℕ) (s : Status) → (state_changed_event_type (suc fuel) s ≡ none) ↔ (is_final s ≡ false)
unfolding state_changed_event_type
state_changed_event_type_ends fuel s = ground (arith, state_changed_event_type_pending fuel)

-- The event has no payload. It is made only where its type is found.
unfoldable pub new_transaction_state_changed_event :
    Uuid → Time → Uuid → EventType → Status → Status → String → Event
new_transaction_state_changed_event id now aggregate type_ old new reason = record {
  base = record {
    id = id;
    type_ = type_;
    aggregate_id = aggregate;
    version = 1;
    timestamp = now;
    payload = none;
  };
  detail = state_changed (record { old_state = old; new_state = new; reason = reason });
}

unfoldable pub new_balance_created_event : Json → Uuid → Time → Balance → Event
new_balance_created_event json id now b = record {
  base = record {
    id = id;
    type_ = balance_created;
    aggregate_id = b.id;
    version = 1;
    timestamp = now;
    payload = some (json.marshal_balance b);
  };
  detail = created_balance b.user_id b.amount b.currency;
}

unfoldable pub new_balance_updated_event :
    Uuid → Time → Balance → Amount → Amount → String → Uuid → Event
new_balance_updated_event id now b old change operation transaction = record {
  base = record {
    id = id;
    type_ = balance_updated;
    aggregate_id = b.id;
    version = 1;
    timestamp = now;
    payload = none;
  };
  detail = updated_balance (record {
    user_id = b.user_id;
    old_amount = old;
    new_amount = b.amount;
    change = change;
    operation = operation;
    transaction_id = transaction;
  });
}
