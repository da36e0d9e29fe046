-- ===== src/Sourcing/Balance.antt =====
-- `EventSourcedBalance` of pkg/domain/aggregate.go.
pub mod Laws
use transaction_api.Prelude.{
  pos, ◌+ℤ◌, ◌-ℤ◌, leb_ℤ, ltb_ℤ, Option, none, some, String, Result, ok, err, List, [], ◌∷◌,
  if◌then◌else◌,
}
use transaction_api.Domain.Base.{
  Uuid, Amount, Time, DomainError, invalid_amount, insufficient_balance,
}
use transaction_api.Domain.Balance.{Balance}
use transaction_api.Sourcing.Events.{
  Json, Event, EventType, balance_created, balance_updated, BalanceUpdate,
  new_balance_created_event, new_balance_updated_event,
}
use transaction_api.Sourcing.Aggregate.{
  BaseAggregate, add_event, ApplyError, unmarshal, unknown_event_type,
}

pub record EventSourcedBalance : Type 0 where
  pub root : BaseAggregate
  pub user_id : Uuid
  pub amount : Amount
  pub currency : String
  pub created_at : Time
  pub updated_at : Time

-- The `Balance` literal of the events; that of an update leaves the time of creation zero.
abbrev pub balance_of : Time → EventSourcedBalance → Balance
balance_of created b = record {
  id = b.root.id;
  user_id = b.user_id;
  amount = b.amount;
  currency = b.currency;
  created_at = created;
  updated_at = b.updated_at;
}

unfoldable pub new_event_sourced_balance :
    Json
    → Uuid
    → Time
    → Time
    → Uuid
    → Time
    → Uuid
    → Amount
    → String
    → Result DomainError EventSourcedBalance
unfolding new_balance_created_event add_event
new_event_sourced_balance json id created updated event_id event_now user initial currency =
    if ltb_ℤ initial (pos 0)
    then err invalid_amount
    else let b : EventSourcedBalance = record {
      root = record { id = id; version = 0; uncommitted_events = [] };
      user_id = user;
      amount = initial;
      currency = currency;
      created_at = created;
      updated_at = updated;
    } in
      ok (record b {
        root =
            add_event (new_balance_created_event json event_id event_now (balance_of created b))
              b.root;
      })

-- What a change takes from the clock and from `uuid.New`.
pub record Stamp : Type 0 where
  pub now : Time
  pub event_id : Uuid
  pub event_now : Time

abbrev record_update :
    Stamp → Amount → String → Uuid → EventSourcedBalance → EventSourcedBalance → EventSourcedBalance
record_update s change operation transaction old b = record b {
  root =
      add_event
        (new_balance_updated_event s.event_id s.event_now (balance_of 0 b) old.amount change
          operation transaction)
        b.root;
}

unfoldable pub add :
    Stamp → Amount → Uuid → EventSourcedBalance → Option DomainError × EventSourcedBalance
unfolding add_event new_balance_updated_event
add s amount transaction b = if leb_ℤ amount (pos 0) then (some invalid_amount, b) else (
  none,
  record_update s amount "credit" transaction b
      (record b { amount = b.amount +ℤ amount; updated_at = s.now }),
)

unfoldable pub subtract :
    Stamp → Amount → Uuid → EventSourcedBalance → Option DomainError × EventSourcedBalance
unfolding add_event new_balance_updated_event
subtract s amount transaction b =
    if leb_ℤ amount (pos 0)
    then (some invalid_amount, b)
    else if ltb_ℤ b.amount amount
    then (some insufficient_balance, b)
    else (
      none,
      record_update s amount "debit" transaction b
          (record b { amount = b.amount -ℤ amount; updated_at = s.now }),
    )

apply_created :
    EventSourcedBalance → Result String Balance → Option ApplyError × EventSourcedBalance
apply_created b (err e) = (some (unmarshal e), b)
apply_created b (ok d) = (
  none,
  record b {
    user_id = d.user_id;
    amount = d.amount;
    currency = d.currency;
    created_at = d.created_at;
    updated_at = d.updated_at;
  },
)

apply_update :
    Time
    → EventSourcedBalance
    → Result String BalanceUpdate
    → Option ApplyError × EventSourcedBalance
apply_update now b (err e) = (some (unmarshal e), b)
apply_update now b (ok u) = (none, record b { amount = u.new_amount; updated_at = now })

apply_as : EventType → Json → Event → EventSourcedBalance → Option ApplyError × EventSourcedBalance
unfolding apply_created apply_update
apply_as balance_created json e b = apply_created b (json.unmarshal_balance e.base.payload)
apply_as balance_updated json e b =
    apply_update e.base.timestamp b (json.unmarshal_balance_update e.base.payload)
apply_as type_ json e b = (some (unknown_event_type type_), b)

unfoldable pub apply_event :
    Json → Event → EventSourcedBalance → Option ApplyError × EventSourcedBalance
unfolding apply_as
apply_event json e b = apply_as e.base.type_ json e b

unfoldable pub load_from_history :
    Json → List Event → EventSourcedBalance → Option ApplyError × EventSourcedBalance
load_from_history json [] b = (none, b)
load_from_history json (e ∷ es) b =
    let (error, b') = apply_event json e b in
    let rest = load_from_history json es b' in elim error [ none ↦ rest | some x ↦ (some x, b') ]

-- `&EventSourcedBalance{}`
abbrev pub zero_balance : EventSourcedBalance
zero_balance = record {
  root = record { id = 0; version = 0; uncommitted_events = [] };
  user_id = 0;
  amount = pos 0;
  currency = "";
  created_at = 0;
  updated_at = 0;
}
