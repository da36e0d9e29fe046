-- ===== src/Service/Scheduled.antt =====
-- `ScheduledTransactionServiceImpl` of pkg/service/advanced_transaction_service.go.
pub mod Laws
use transaction_api.Prelude.{
  ℤ, Bool, true, false, Option, none, some, Result, ok, err, String, List, [], ◌∷◌, if◌then◌else◌,
}
use mathlib.Core.Option
use transaction_api.Domain.Base.{
  DomainError, Uuid, Time, Status, pending, completed, failed, cancelled,
  invalid_transaction_status, TransactionType, credit, debit, transfer, other_type,
}
use transaction_api.Domain.Transaction.{Transaction, new_transaction}
use transaction_api.Domain.Scheduled.{
  ScheduledTransaction, ScheduledTransactionRequest, new_scheduled_transaction, can_retry,
  increment_retry, update_status,
}
use transaction_api.Service.Ports.{
  Ports, Action, ServiceError, domain, storage, to_user_required, fails, ◌>>=◌, ◌>>◌, reads, writes,
  writes_blindly, MoveTimes, process_credit_transaction, process_debit_transaction,
  process_transfer_transaction,
}

-- What one execution takes from the clock and from `uuid.New`.
pub record Execution : Type 0 where
  pub transaction_id : Uuid
  pub created : Time
  pub updated : Time
  pub moves : MoveTimes
  pub retried : Time
  pub retry_updated : Time
  pub status_updated : Time

abbrev lifted : {A : Type 0} → Result DomainError A → Result ServiceError A
lifted (ok a) = ok a
lifted (err e) = err (domain e)

abbrev max_retries_or : Option ℤ → ℤ → ℤ
max_retries_or none old = old
max_retries_or (some n) old = n

module _ {S : Type 0} (ports : Ports S) where
  unfoldable pub create_scheduled_transaction :
      Uuid → Time → Time → Time → Uuid → ScheduledTransactionRequest → Action S ScheduledTransaction
  unfolding new_scheduled_transaction
  create_scheduled_transaction id checked created updated user req = do
    st ← (λ s. (lifted (new_scheduled_transaction id checked created updated user req), s))
    writes (ports.create_scheduled st)
    (λ s. (ok st, s))

  unfoldable pub update_scheduled_transaction :
      Time → Uuid → ScheduledTransactionRequest → Action S (Unit {0})
  update_scheduled_transaction now id req = do
    st ← reads (ports.get_scheduled id)
    writes (
        ports.update_scheduled (record st {
          type_ = req.type_;
          amount = req.amount;
          currency = req.currency;
          description = req.description;
          reference_id = req.reference_id;
          to_user_id = req.to_user_id;
          scheduled_at = req.scheduled_at;
          recurring_type = req.recurring_type;
          recurring_config = req.recurring_config;
          updated_at = now;
          max_retries = max_retries_or req.max_retries st.max_retries;
        }))

  unfoldable pub cancel_scheduled_transaction : Time → Uuid → Action S (Unit {0})
  unfolding update_status
  cancel_scheduled_transaction now id = do
    st ← reads (ports.get_scheduled id)
    writes (ports.update_scheduled (update_status now cancelled st))

  -- The `switch` on the type.
  pub process_by_type :
      TransactionType → Option Uuid → MoveTimes → Transaction → Action S (Unit {0})
  process_by_type credit to at t = process_credit_transaction ports at t
  process_by_type debit to at t = process_debit_transaction ports at t
  process_by_type transfer none at t = fails to_user_required
  process_by_type transfer (some u) at t = process_transfer_transaction ports at t u
  process_by_type (other_type _) to at t = fails (domain invalid_transaction_status)

  -- The status after a failed attempt: `CanRetry` is asked after the retry is counted, and before
  -- any status is written.
  abbrev pub after_failure : Execution → ScheduledTransaction → ScheduledTransaction
  after_failure x st =
      let st' = increment_retry x.retried x.retry_updated st in
      if can_retry st'
      then update_status x.status_updated failed st'
      else update_status x.status_updated cancelled st'

  -- The end of an execution, by the outcome of the processing; the value is the scheduled
  -- transaction as the call leaves it in memory.
  finish :
      Execution
      → ScheduledTransaction
      → Result ServiceError (Unit {0})
      → S
      → (Option ServiceError × ScheduledTransaction) × S
  unfolding increment_retry can_retry update_status
  finish x st (err e) s =
      let st' = after_failure x st in ((some e, st'), (ports.update_scheduled st' s).1)
  finish x st (ok _) s =
      let st' = update_status x.status_updated completed st in
      let (e, s') = ports.update_scheduled st' s in ((Option.map storage e, st'), s')

  -- `NewTransaction` has refused the amount, or has given a transaction to process.
  attempt :
      Execution
      → ScheduledTransaction
      → Result DomainError Transaction
      → S
      → (Option ServiceError × ScheduledTransaction) × S
  unfolding finish process_by_type update_status
  attempt x st (err e) s =
      let st' = update_status x.status_updated failed st in
      ((some (domain e), st'), (ports.update_scheduled st' s).1)
  attempt x st (ok t) s =
      let t' = record t { type_ = st.type_; reference_id = st.reference_id } in
      let (r, s') = process_by_type st.type_ st.to_user_id x.moves t' s in finish x st r s'

  unfoldable pub execute_scheduled_transaction :
      Execution → ScheduledTransaction → S → (Option ServiceError × ScheduledTransaction) × S
  unfolding attempt new_transaction
  execute_scheduled_transaction x st s =
      attempt x st
        (new_transaction x.transaction_id x.created x.updated st.user_id st.amount st.description) s

  -- The loop of `ExecuteScheduledTransactions`, which goes on after an error. `draw` gives each
  -- execution its readings; the value lists the transactions as they are left.
  unfoldable pub execute_each :
      (ScheduledTransaction → Execution)
      → List ScheduledTransaction
      → S
      → List ScheduledTransaction × S
  unfolding execute_scheduled_transaction
  execute_each draw [] s = ([], s)
  execute_each draw (st ∷ sts) s =
      let (r, s') = execute_scheduled_transaction (draw st) st s in
      let (rest, s'') = execute_each draw sts s' in (r.1 ∷ rest, s'')

  unfoldable pub execute_scheduled_transactions :
      (ScheduledTransaction → Execution) → Action S (List ScheduledTransaction)
  unfolding execute_each
  execute_scheduled_transactions draw = do
    sts ← reads ports.pending_scheduled
    (λ s. let (rest, s') = execute_each draw sts s in (ok rest, s'))
