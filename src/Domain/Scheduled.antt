-- ===== src/Domain/Scheduled.antt =====
-- Scheduled and batch transactions of pkg/domain/advanced_transaction.go.
pub mod Laws
use transaction_api.Prelude.{
  ℕ, ◌+◌, pos, ℤ, ◌+ℤ◌, leb_ℤ, ltb_ℤ, ltb, ◌==◌, Option, none, some, String, Result, ok, err,
  if◌then◌else◌, Bool, true, false, ◌&&◌, ◌||◌, List, [], ◌∷◌, length,
}
use transaction_api.Domain.Base.{
  Uuid, Amount, Time, DomainError, invalid_amount, invalid_scheduled_time, invalid_batch_items,
  batch_size_exceeded, Status, pending, completed, failed, TransactionType,
}
use transaction_api.Domain.Balance.Currency.{Currency}

pub record ScheduledTransaction : Type 0 where
  pub id : Uuid
  pub user_id : Uuid
  pub type_ : TransactionType
  pub amount : Amount
  pub currency : Currency
  pub description : String
  pub reference_id : String
  pub to_user_id : Option Uuid
  pub scheduled_at : Time
  pub status : Status
  pub recurring_type : Option String
  pub recurring_config : Option String
  pub max_retries : ℤ
  pub retry_count : ℤ
  pub last_retry_at : Option Time
  pub next_retry_at : Option Time
  pub created_at : Time
  pub updated_at : Time

pub record ScheduledTransactionRequest : Type 0 where
  pub type_ : TransactionType
  pub amount : Amount
  pub currency : Currency
  pub description : String
  pub reference_id : String
  pub to_user_id : Option Uuid
  pub scheduled_at : Time
  pub recurring_type : Option String
  pub recurring_config : Option String
  pub max_retries : Option ℤ

abbrev retries_or_three : Option ℤ → ℤ
retries_or_three none = pos 3
retries_or_three (some n) = n

-- `checked` is the reading of the clock that the scheduled time is compared with.
unfoldable pub new_scheduled_transaction :
    Uuid
    → Time
    → Time
    → Time
    → Uuid
    → ScheduledTransactionRequest
    → Result DomainError ScheduledTransaction
new_scheduled_transaction id checked created updated user req =
    if leb_ℤ req.amount (pos 0)
    then err invalid_amount
    else if ltb req.scheduled_at checked
    then err invalid_scheduled_time
    else ok (record {
      id = id;
      user_id = user;
      type_ = req.type_;
      amount = req.amount;
      currency = req.currency;
      description = req.description;
      reference_id = req.reference_id;
      to_user_id = req.to_user_id;
      scheduled_at = req.scheduled_at;
      status = pending;
      recurring_type = req.recurring_type;
      recurring_config = req.recurring_config;
      max_retries = retries_or_three req.max_retries;
      retry_count = pos 0;
      last_retry_at = none;
      next_retry_at = none;
      created_at = created;
      updated_at = updated;
    })

abbrev pub is_pending : Status → Bool
is_pending pending = true
is_pending _ = false

abbrev pub is_failed : Status → Bool
is_failed failed = true
is_failed _ = false

abbrev is_completed : Status → Bool
is_completed completed = true
is_completed _ = false

unfoldable pub should_execute : Time → ScheduledTransaction → Bool
should_execute now st = is_pending st.status && ltb st.scheduled_at now

unfoldable pub can_retry : ScheduledTransaction → Bool
can_retry st = is_failed st.status && ltb_ℤ st.retry_count st.max_retries

unfoldable pub increment_retry : Time → Time → ScheduledTransaction → ScheduledTransaction
increment_retry now updated st = record st {
  retry_count = st.retry_count +ℤ pos 1;
  last_retry_at = some now;
  updated_at = updated;
}

unfoldable pub update_status : Time → Status → ScheduledTransaction → ScheduledTransaction
update_status now s st = record st { status = s; updated_at = now }

pub record BatchTransaction : Type 0 where
  pub id : Uuid
  pub user_id : Uuid
  pub type_ : TransactionType
  pub currency : Currency
  pub description : String
  pub status : Status
  pub total_amount : Amount
  pub item_count : ℕ
  pub processed_at : Option Time
  pub created_at : Time
  pub updated_at : Time

pub record BatchItem : Type 0 where
  pub amount : Amount
  pub description : String
  pub reference_id : String
  pub to_user_id : Option Uuid

pub record BatchTransactionRequest : Type 0 where
  pub type_ : TransactionType
  pub currency : Currency
  pub description : String
  pub items : List BatchItem

-- The loop over the items, from the total so far.
unfoldable pub total_of : Amount → List BatchItem → Result DomainError Amount
total_of total [] = ok total
total_of total (item ∷ items) =
    let rest = total_of (total +ℤ item.amount) items in
    if leb_ℤ item.amount (pos 0) then err invalid_amount else rest

-- The literal of the batch, once the loop has given its total or an error.
abbrev pub batch_of :
    Uuid
    → Time
    → Time
    → Uuid
    → BatchTransactionRequest
    → Result DomainError Amount
    → Result DomainError BatchTransaction
batch_of id created updated user req (err e) = err e
batch_of id created updated user req (ok total) = ok (record {
  id = id;
  user_id = user;
  type_ = req.type_;
  currency = req.currency;
  description = req.description;
  status = pending;
  total_amount = total;
  item_count = length req.items;
  processed_at = none;
  created_at = created;
  updated_at = updated;
})

unfoldable pub new_batch_transaction :
    Uuid → Time → Time → Uuid → BatchTransactionRequest → Result DomainError BatchTransaction
new_batch_transaction id created updated user req =
    if length req.items == 0
    then err invalid_batch_items
    else if ltb 1000 (length req.items)
    then err batch_size_exceeded
    else batch_of id created updated user req (total_of (pos 0) req.items)

unfoldable pub update_batch_status : Time → Time → Status → BatchTransaction → BatchTransaction
update_batch_status updated now s bt =
    let bt' = record bt { status = s; updated_at = updated } in
    if is_completed s || is_failed s then record bt' { processed_at = some now } else bt'
