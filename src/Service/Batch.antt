-- ===== src/Service/Batch.antt =====
-- `BatchTransactionServiceImpl` of pkg/service/advanced_transaction_service.go, its processing.
pub mod Laws
pub mod Ending
use transaction_api.Prelude.{
  ℕ, ◌+◌, ◌==◌, Option, none, some, Result, ok, err, String, List, [], ◌∷◌, if◌then◌else◌, not,
  Bool,
}
use mathlib.Core.Option
use transaction_api.Domain.Base.{
  Uuid, Time, Status, pending, processing, completed, failed, partial, cancelled,
  invalid_transaction_status, TransactionType, credit, debit, transfer, other_type, DomainError,
}
use transaction_api.Domain.Transaction.{Transaction, new_transaction}
use transaction_api.Domain.Scheduled.{
  BatchTransaction, BatchItem, BatchTransactionRequest, new_batch_transaction, update_batch_status,
  is_pending,
}
use transaction_api.Service.Ports.{
  Ports, Action, BatchTransactionItem, ServiceError, domain, storage, transfers_not_implemented,
  not_pending, only_pending_cancelled, fails, ◌>>=◌, ◌>>◌, reads, writes, writes_blindly, MoveTimes,
  process_credit_transaction, process_debit_transaction,
}

-- What the processing of one item takes from the clock and from `uuid.New`.
pub record ItemRun : Type 0 where
  pub transaction_id : Uuid
  pub created : Time
  pub updated : Time
  pub moves : MoveTimes
  pub processed : Time
  pub item_updated : Time

-- The readings of the clock of the two updates of the batch.
pub record BatchRun : Type 0 where
  pub started : Time
  pub ended : Time
  pub processed : Time

-- The identifiers and readings of a new item.
pub record ItemIds : Type 0 where
  pub item : Uuid
  pub transaction : Uuid
  pub created : Time
  pub updated : Time

abbrev fails_unless : {S : Type 0} → Bool → ServiceError → Action S (Unit {0})
fails_unless b e s = (if b then ok tt else err e, s)

-- The counts of successes and of failures after one more item, and the status they give.
abbrev pub tally : Result ServiceError (Unit {0}) → ℕ × ℕ → ℕ × ℕ
tally (ok _) (succeeded, failing) = (succeeded + 1, failing)
tally (err _) (succeeded, failing) = (succeeded, failing + 1)

abbrev pub final_status : ℕ × ℕ → Status
final_status (succeeded, failing) =
    if failing == 0 then completed else if succeeded == 0 then failed else partial

module _ {S : Type 0} (ports : Ports S) where
  process_item_by_type : TransactionType → MoveTimes → Transaction → Action S (Unit {0})
  process_item_by_type credit at t = process_credit_transaction ports at t
  process_item_by_type debit at t = process_debit_transaction ports at t
  process_item_by_type transfer at t = fails transfers_not_implemented
  process_item_by_type (other_type _) at t = fails (domain invalid_transaction_status)

  -- A failed item is stored with its message; the error of that write is dropped.
  fail_item : ItemRun → BatchTransactionItem → ServiceError → Action S (Unit {0})
  fail_item x item e = do
    writes_blindly (
        ports.update_item (record item {
          status = failed;
          error_message = some (ports.error_text e);
          updated_at = x.item_updated;
        }))
    fails e

  complete_item : ItemRun → BatchTransactionItem → Action S (Unit {0})
  complete_item x item = writes (
      ports.update_item (record item {
        transaction_id = x.transaction_id;
        status = completed;
        processed_at = some x.processed;
        updated_at = x.item_updated;
      }))

  settle_item :
      ItemRun
      → BatchTransactionItem
      → Result ServiceError (Unit {0}) × S
      → Result ServiceError (Unit {0}) × S
  unfolding fail_item complete_item
  settle_item x item (err e, s) = fail_item x item e s
  settle_item x item (ok _, s) = complete_item x item s

  run_item :
      ItemRun
      → BatchTransaction
      → BatchTransactionItem
      → Result DomainError Transaction
      → Action S (Unit {0})
  unfolding settle_item process_item_by_type
  run_item x bt item (err e) s = fail_item x item (domain e) s
  run_item x bt item (ok t) s = settle_item x item (
      process_item_by_type bt.type_ x.moves
        (record t { type_ = bt.type_; reference_id = item.reference_id }) s)

  unfoldable pub process_batch_item :
      ItemRun → BatchTransaction → BatchTransactionItem → Action S (Unit {0})
  unfolding run_item new_transaction
  process_batch_item x bt item =
      run_item x bt item (
        new_transaction x.transaction_id x.created x.updated bt.user_id item.amount
          item.description)

  -- The loop over the items: the two counts, and the state.
  unfoldable pub process_items :
      (BatchTransactionItem → ItemRun)
      → BatchTransaction
      → ℕ × ℕ
      → List BatchTransactionItem
      → S
      → (ℕ × ℕ) × S
  unfolding process_batch_item
  process_items draw bt counts [] s = (counts, s)
  process_items draw bt counts (item ∷ items) s =
      let (r, s') = process_batch_item (draw item) bt item s in
      process_items draw bt (tally r counts) items s'

  unfoldable pub process_batch_transaction :
      BatchRun → (BatchTransactionItem → ItemRun) → Uuid → Action S (Unit {0})
  unfolding process_items update_batch_status
  process_batch_transaction run draw id = do
    bt ← reads (ports.get_batch id)
    fails_unless (is_pending bt.status) not_pending
    let bt' = update_batch_status run.started run.processed processing bt
    writes_blindly (ports.update_batch bt')
    items ← reads (ports.items_of_batch id)
    counts ← (λ s. let (c, s') = process_items draw bt' (0, 0) items s in (ok c, s'))
    writes
        (ports.update_batch (update_batch_status run.ended run.processed (final_status counts) bt'))

  unfoldable pub cancel_batch_transaction : BatchRun → Uuid → Action S (Unit {0})
  unfolding update_batch_status
  cancel_batch_transaction run id = do
    bt ← reads (ports.get_batch id)
    fails_unless (is_pending bt.status) only_pending_cancelled
    writes (ports.update_batch (update_batch_status run.ended run.processed cancelled bt))

  -- The items of a new batch; an error of a write is logged and dropped.
  create_items : (ℕ → ItemIds) → Uuid → ℕ → List BatchItem → S → S
  create_items draw batch n [] s = s
  create_items draw batch n (item ∷ items) s =
      create_items draw batch (n + 1) items
        (ports.create_item
          (record {
            id = (draw n).item;
            batch_id = batch;
            transaction_id = (draw n).transaction;
            amount = item.amount;
            description = item.description;
            reference_id = item.reference_id;
            status = pending;
            error_message = none;
            processed_at = none;
            created_at = (draw n).created;
            updated_at = (draw n).updated;
          })
          s).1

  abbrev lifted_batch : Result DomainError BatchTransaction → Result ServiceError BatchTransaction
  lifted_batch (ok b) = ok b
  lifted_batch (err e) = err (domain e)

  unfoldable pub create_batch_transaction :
      Uuid
      → Time
      → Time
      → (ℕ → ItemIds)
      → Uuid
      → BatchTransactionRequest
      → Action S BatchTransaction
  unfolding create_items new_batch_transaction
  create_batch_transaction id created updated draw user req = do
    bt ← (λ s. (lifted_batch (new_batch_transaction id created updated user req), s))
    writes (ports.create_batch bt)
    (λ s. (ok bt, create_items draw bt.id 0 req.items s))
