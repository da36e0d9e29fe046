-- ===== src/Service/Batch/Ending.antt =====
-- How `ProcessBatchTransaction` ends, on every path.
use transaction_api.Prelude.{
  ◌≡◌, refl, ◌≢◌, ◌⊎◌, inl, inr, ap, String, Result, ok, err, List, length, arith,
}
use transaction_api.Domain.Base.{Uuid, Status, pending, processing}
use transaction_api.Domain.Scheduled.{BatchTransaction, update_batch_status}
use transaction_api.Service.Ports.{
  Ports, BatchTransactionItem, ServiceError, storage, not_pending, written,
}
use transaction_api.Service.Batch.{
  ItemRun, BatchRun, process_items, final_status, process_batch_transaction,
}
use transaction_api.Service.Batch.Laws.{
  HasStatus, results, process_items_status, not_pending_refused,
}
use mathlib.Core.Path.{subst, sym}

pending-cases : (status : Status) → (status ≡ pending) ⊎ (status ≢ pending)
pending-cases status = ground arith

module _ {S : Type 0} (ports : Ports S) (run : BatchRun) (draw : BatchTransactionItem → ItemRun)
    (id : Uuid) where
  abbrev Outcome : Type 0
  Outcome = Result ServiceError (Unit {0}) × S

  abbrev started : BatchTransaction → BatchTransaction
  started bt = record bt { status = processing; updated_at = run.started }

  -- The batch that is written last, after all items; nothing of it but the status and the times
  -- differs from the one that was read.
  abbrev Finishes : BatchTransaction → List BatchTransactionItem → S → Outcome → Type 0
  Finishes bt items s (r, s') =
      let rs = results ports draw (started bt) items s in
      let s₁ = (process_items ports draw (started bt) (0, 0) items s).1 in
      (b : BatchTransaction) × HasStatus b.status rs (length items)
      × (record b { status = bt.status; updated_at = bt.updated_at; processed_at = bt.processed_at }
          ≡ bt)
      × (r ≡ written (ports.update_batch b s₁).0)
      × (s' ≡ (ports.update_batch b s₁).1)

  abbrev Works : BatchTransaction → Result String (List BatchTransactionItem) → S → Outcome → Type 0
  Works bt (err e) s r = r ≡ (err (storage e), s)
  Works bt (ok items) s r = Finishes bt items s r

  abbrev Starts : Result String BatchTransaction → S → Outcome → Type 0
  Starts (err e) s r = r ≡ (err (storage e), s)
  Starts (ok bt) s r =
      let s₁ = (ports.update_batch (started bt) s).1 in
      ((bt.status ≢ pending) × (r ≡ (err not_pending, s)))
      ⊎ ((bt.status ≡ pending) × Works bt (ports.items_of_batch id s₁) s₁ r)

  abbrev pub Ends : S → Outcome → Type 0
  Ends s r = Starts (ports.get_batch id s) s r

  started_lem :
      (bt : BatchTransaction)
      → update_batch_status run.started run.processed processing bt ≡ started bt
  unfolding update_batch_status
  started_lem bt = refl

  ended : Status → BatchTransaction → BatchTransaction
  ended status bt = update_batch_status run.ended run.processed status (started bt)

  ended_status : (status : Status) (bt : BatchTransaction) → (ended status bt).status ≡ status
  unfolding ended update_batch_status
  ended_status status bt = ground arith

  ended_same :
      (status : Status) (bt : BatchTransaction)
      → record (ended status bt) {
        status = bt.status;
        updated_at = bt.updated_at;
        processed_at = bt.processed_at;
      }
        ≡ bt
  unfolding ended update_batch_status
  ended_same status bt = ground arith

  -- The call on a pending batch whose items can be read.
  process_batch_transaction-written :
      (bt : BatchTransaction) (items : List BatchTransactionItem) (s : S)
      → ports.get_batch id s ≡ ok bt
      → bt.status ≡ pending
      → ports.items_of_batch id (ports.update_batch (started bt) s).1 ≡ ok items
      → let (c, s') =
          process_items ports draw
            (started bt)
            (0, 0)
            items
            (ports.update_batch (started bt) s).1 in
        let (e, t) = ports.update_batch (ended (final_status c) bt) s' in
        process_batch_transaction ports run draw id s ≡ (written e, t)
  unfolding process_batch_transaction update_batch_status ended
  process_batch_transaction-written bt items s found is_pending read = ground arith

  process_batch_transaction-Works :
      (bt : BatchTransaction) (items : Result String (List BatchTransactionItem)) (s : S)
      → ports.get_batch id s ≡ ok bt
      → bt.status ≡ pending
      → ports.items_of_batch id (ports.update_batch (started bt) s).1 ≡ items
      → Works bt items
          (ports.update_batch (started bt) s).1
          (process_batch_transaction ports run draw id s)
  unfolding process_batch_transaction update_batch_status
  process_batch_transaction-Works bt (err e) s found is_pending read = ground arith
  process_batch_transaction-Works bt (ok items) s found is_pending read =
      let s₁ = (ports.update_batch (started bt) s).1 in
      let c = (process_items ports draw (started bt) (0, 0) items s₁).0 in
      let same = process_batch_transaction-written bt items s found is_pending read in
      (
        ended (final_status c) bt,
        subst (λ t. HasStatus t (results ports draw (started bt) items s₁) (length items))
            (sym (ended_status (final_status c) bt))
            (process_items_status ports draw (started bt) items s₁),
        ended_same (final_status c) bt,
        ap (λ r. r.0) same,
        ap (λ r. r.1) same,
      )

  process_batch_transaction-Starts :
      (g : Result String BatchTransaction) (s : S)
      → ports.get_batch id s ≡ g
      → Starts g s (process_batch_transaction ports run draw id s)
  unfolding process_batch_transaction
  process_batch_transaction-Starts (err e) s found = ground arith
  process_batch_transaction-Starts (ok bt) s found = elim (pending-cases bt.status) [
    | inl is_pending ↦
        inr (is_pending, process_batch_transaction-Works bt _ s found is_pending refl)
    | inr other ↦ inl (other, (not_pending_refused ports run draw id s bt found other).0)
  ]

  -- A batch that cannot be read, or that is not pending, is refused and nothing is written. Any
  -- other is first stored as processing, whether or not that write succeeds. If its items cannot
  -- be read, their error is returned, and nothing more is written. Otherwise every item is
  -- processed, in order and also after failures, and then the batch is stored as completed if each
  -- item succeeded, as failed if there are items and each failed, and as partial otherwise; the
  -- call returns the error of that last write, and no other.
  pub process_batch_transaction-Ends :
      (s : S) → Ends s (process_batch_transaction ports run draw id s)
  process_batch_transaction-Ends s = process_batch_transaction-Starts (ports.get_batch id s) s refl
