-- ===== src/Service/Scheduled/Laws.antt =====
-- What an execution of a scheduled transaction does with the outcome of its processing.
use transaction_api.Prelude.{
  ℤ, pos, ◌+ℤ◌, ◌≤ℤ◌, ◌≡◌, refl, ◌⊎◌, inl, inr, arith, Option, some, Result, ok, err, List, [], ◌∷◌,
  All, Bool-cases, leb_ℤ, length, ap, suc, true, false,
}
use mathlib.Core.Option
use transaction_api.Domain.Base.{
  Amount, Status, pending, completed, failed, cancelled, invalid_amount,
}
use transaction_api.Domain.Scheduled.{ScheduledTransaction}
use transaction_api.Domain.Transaction.{Transaction}
use transaction_api.Service.Ports.{Ports, ServiceError, domain, storage}
use transaction_api.Service.Scheduled.{
  Execution, process_by_type, finish, attempt, execute_scheduled_transaction, execute_each,
}

-- The transaction that is made of a scheduled one.
abbrev pub made_of : Execution → ScheduledTransaction → Transaction
made_of x st = record {
  id = x.transaction_id;
  user_id = st.user_id;
  type_ = st.type_;
  amount = st.amount;
  description = st.description;
  reference_id = st.reference_id;
  balance_after = pos 0;
  status = pending;
  created_at = x.created;
  updated_at = x.updated;
}

leb_ℤ→≤ : (a : Amount) → leb_ℤ a (pos 0) ≡ true → a ≤ℤ pos 0
leb_ℤ→≤ a h = ground arith

leb_ℤ→pos : (a : Amount) → leb_ℤ a (pos 0) ≡ false → pos 1 ≤ℤ a
leb_ℤ→pos a h = ground arith

module _ {S : Type 0} (ports : Ports S) where
  -- The error, the transaction as the call leaves it in memory, and the storage.
  abbrev Left : Type 0
  Left = (Option ServiceError × ScheduledTransaction) × S

  -- The transaction is left in a status, after so many retries, and is written to a storage.
  abbrev pub Leaves : Status → ℤ → S → Left → Type 0
  Leaves status retries s ((e, st'), s') =
      (st'.status ≡ status) × (st'.retry_count ≡ retries) × (s' ≡ (ports.update_scheduled st' s).1)

  -- What follows the outcome of the processing.
  abbrev pub Settles : ScheduledTransaction → Result ServiceError (Unit {0}) × S → Left → Type 0
  Settles st (ok _, s) r =
      Leaves completed st.retry_count s r
      × (r.0.0 ≡ Option.map storage (ports.update_scheduled r.0.1 s).0)
  Settles st (err e, s) r = Leaves cancelled (st.retry_count +ℤ pos 1) s r × (r.0.0 ≡ some e)

  -- How an execution that began in the status "pending" ends.
  abbrev pub Executed : Execution → ScheduledTransaction → S → Left → Type 0
  Executed x st s r =
      ((st.amount ≤ℤ pos 0)
        × Leaves failed st.retry_count s r
        × (r.0.0 ≡ some (domain invalid_amount)))
      ⊎ ((pos 1 ≤ℤ st.amount)
          × Settles st (process_by_type ports st.type_ st.to_user_id x.moves (made_of x st) s) r)

  finish-Settles :
      (x : Execution) (st : ScheduledTransaction) (r : Result ServiceError (Unit {0})) (s : S)
      → st.status ≡ pending
      → Settles st (r, s) (finish ports x st r s)
  unfolding finish
  finish-Settles x st (ok _) s p = ((refl, refl, refl), refl)
  finish-Settles x st (err e) s p = ground arith

  -- An execution of a pending transaction whose amount is not positive processes nothing, marks it
  -- failed and returns that error. Any other is processed, by its type: if that succeeds, the
  -- transaction is completed and the error is that of the last write alone; if it fails, its error
  -- is returned, a retry is counted, and the transaction is cancelled, whatever the limit of
  -- retries. In each case the transaction that is left is what the last write was given.
  pub execute_scheduled_transaction-Executed :
      (x : Execution) (st : ScheduledTransaction) (s : S)
      → st.status ≡ pending
      → Executed x st s (execute_scheduled_transaction ports x st s)
  unfolding execute_scheduled_transaction attempt
  execute_scheduled_transaction-Executed x st s p = elim (Bool-cases (leb_ℤ st.amount (pos 0))) [
    | inl bad ↦ rw bad (inl (leb_ℤ→≤ st.amount bad, (refl, refl, refl), refl))
    | inr good ↦
        let (r, s') = process_by_type ports st.type_ st.to_user_id x.moves (made_of x st) s in
        rw good (inr (leb_ℤ→pos st.amount good, finish-Settles x st r s' p))
  ]

  -- The statuses that an execution never picks up again.
  abbrev pub IsOver : ScheduledTransaction → Type 0
  IsOver st = (st.status ≡ completed) ⊎ (st.status ≡ cancelled) ⊎ (st.status ≡ failed)

  Settles-IsOver :
      (st : ScheduledTransaction) (o : Result ServiceError (Unit {0}) × S) (r : Left)
      → Settles st o r
      → IsOver r.0.1
  Settles-IsOver st (ok _, s) r h = inl h.0.0
  Settles-IsOver st (err _, s) r h = inr (inl h.0.0)

  Executed-IsOver :
      (x : Execution) (st : ScheduledTransaction) (s : S) (r : Left)
      → Executed x st s r
      → IsOver r.0.1
  Executed-IsOver x st s r (inl h) = inr (inr h.1.0)
  Executed-IsOver x st s r (inr h) =
      Settles-IsOver st (process_by_type ports st.type_ st.to_user_id x.moves (made_of x st) s) r
        h.1

  -- Run on pending transactions only, the loop leaves none of them pending, and handles each of
  -- them, also after an error.
  pub execute_each-IsOver :
      (draw : ScheduledTransaction → Execution) (sts : List ScheduledTransaction) (s : S)
      → All (λ st. st.status ≡ pending) sts
      → let after = (execute_each ports draw sts s).0 in
        All IsOver after × (length after ≡ length sts)
  unfolding execute_each
  execute_each-IsOver draw [] s h = (tt, refl)
  execute_each-IsOver draw (st ∷ sts) s (p, h) =
      let r = execute_scheduled_transaction ports (draw st) st s in
      let (over, same) = execute_each-IsOver draw sts r.1 h in
      (
        (
          Executed-IsOver (draw st) st s r
              (execute_scheduled_transaction-Executed (draw st) st s p),
          over,
        ),
        ap suc same,
      )
