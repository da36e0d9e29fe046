-- ===== src/Service/Batch/Laws.antt =====
-- The status that the processing of a batch gives it.
use transaction_api.Prelude.{
  ℕ, suc, ◌+◌, ◌≤◌, ◌≡◌, refl, ◌≢◌, ◌↔◌, arith, Result, ok, err, List, [], ◌∷◌, length, All, ap,
}
use transaction_api.Domain.Base.{Uuid, Status, pending, completed, failed, partial}
use transaction_api.Domain.Scheduled.{BatchTransaction}
use transaction_api.Service.Ports.{
  Ports, BatchTransactionItem, ServiceError, not_pending, only_pending_cancelled,
}
use transaction_api.Service.Batch.{
  ItemRun, BatchRun, process_batch_item, process_items, final_status, process_batch_transaction,
  cancel_batch_transaction, tally,
}

abbrev Outcome : Type 0
Outcome = Result ServiceError (Unit {0})

abbrev pub IsOk : Outcome → Type 0
IsOk (ok _) = Unit
IsOk (err _) = ⊥

abbrev pub IsErr : Outcome → Type 0
IsErr (ok _) = ⊥
IsErr (err _) = Unit

abbrev count_all : ℕ × ℕ → List Outcome → ℕ × ℕ
count_all c [] = c
count_all c (r ∷ rs) = count_all (tally r c) rs

count_all_total :
    (c : ℕ × ℕ) (rs : List Outcome)
    → ((count_all c rs).0 + (count_all c rs).1 ≡ c.0 + c.1 + length rs)
      × (c.0 ≤ (count_all c rs).0)
      × (c.1 ≤ (count_all c rs).1)
count_all_total c [] = (omega arith, omega arith, omega arith)
count_all_total c (ok _ ∷ rs) =
    let (a, b, d) = count_all_total (c.0 + 1, c.1) rs in (omega arith, omega arith, omega arith)
count_all_total c (err _ ∷ rs) =
    let (a, b, d) = count_all_total (c.0, c.1 + 1) rs in (omega arith, omega arith, omega arith)

failures_none : (c : ℕ × ℕ) (rs : List Outcome) → ((count_all c rs).1 ≡ c.1) ↔ All IsOk rs
failures_none c [] = ((λ _. tt), λ _. refl)
failures_none c (ok _ ∷ rs) =
    let (to, from) = failures_none (c.0 + 1, c.1) rs in ((λ e. (tt, to e)), λ h. from h.1)
failures_none c (err _ ∷ rs) =
    let (a, b, d) = count_all_total (c.0, c.1 + 1) rs in
    ((λ e. absurd (omega arith)), λ h. absurd h.0)

successes_none : (c : ℕ × ℕ) (rs : List Outcome) → ((count_all c rs).0 ≡ c.0) ↔ All IsErr rs
successes_none c [] = ((λ _. tt), λ _. refl)
successes_none c (ok _ ∷ rs) =
    let (a, b, d) = count_all_total (c.0 + 1, c.1) rs in
    ((λ e. absurd (omega arith)), λ h. absurd h.0)
successes_none c (err _ ∷ rs) =
    let (to, from) = successes_none (c.0, c.1 + 1) rs in ((λ e. (tt, to e)), λ h. from h.1)

final_status_lem :
    (a f : ℕ)
    → ((final_status (a, f) ≡ completed) ↔ (f ≡ 0))
      × ((final_status (a, f) ≡ failed) ↔ ((a ≡ 0) × (1 ≤ f)))
      × ((final_status (a, f) ≡ partial) ↔ ((1 ≤ a) × (1 ≤ f)))
final_status_lem a f = ground arith

above : (n : ℕ) → n ≢ 0 → 1 ≤ n
above n h = omega arith

-- The status of a batch whose items had these outcomes: "completed" exactly when each succeeded,
-- "failed" exactly when there are items and each failed, "partial" exactly when some did and some
-- did not; each item has one outcome.
abbrev pub HasStatus : Status → List Outcome → ℕ → Type 0
HasStatus status rs count =
    ((status ≡ completed) ↔ All IsOk rs)
    × ((status ≡ failed) ↔ (All IsErr rs × (1 ≤ length rs)))
    × ((status ≡ partial) ↔ ((¬ All IsOk rs) × (¬ All IsErr rs)))
    × (length rs ≡ count)

count_all_status :
    (rs : List Outcome) → HasStatus (final_status (count_all (0, 0) rs)) rs (length rs)
count_all_status rs =
    let (total, _, _) = count_all_total (0, 0) rs in
    let (oks, of_oks) = failures_none (0, 0) rs in
    let (errs, of_errs) = successes_none (0, 0) rs in
    let (done, lost, some_of) = final_status_lem (count_all (0, 0) rs).0 (count_all (0, 0) rs).1 in
    (
      ((λ e. oks (done.0 e)), λ h. done.1 (of_oks h)),
      (
        (λ e. (errs (lost.0 e).0, omega (arith, total, lost.0 e))),
        λ h. lost.1 (of_errs h.0, omega (arith, total, of_errs h.0, h.1)),
      ),
      (
        (λ e. (
          (λ h. absurd (omega (arith, of_oks h, some_of.0 e))),
          λ h. absurd (omega (arith, of_errs h, some_of.0 e)),
        )),
        λ h. some_of.1 (
          above (count_all (0, 0) rs).0 (λ e. h.1 (errs e)),
          above (count_all (0, 0) rs).1 (λ e. h.0 (oks e)),
        ),
      ),
      refl,
    )

module _ {S : Type 0} (ports : Ports S) (draw : BatchTransactionItem → ItemRun)
    (bt : BatchTransaction) where
  -- The results of the items, each processed in the state that the one before it left.
  pub results : List BatchTransactionItem → S → List Outcome
  results [] s = []
  results (item ∷ items) s =
      let (r, s') = process_batch_item ports (draw item) bt item s in r ∷ results items s'

  process_items-results :
      (c : ℕ × ℕ) (items : List BatchTransactionItem) (s : S)
      → (process_items ports draw bt c items s).0 ≡ count_all c (results items s)
  unfolding process_items results
  process_items-results c [] s = refl
  process_items-results c (item ∷ items) s =
      let (r, s') = process_batch_item ports (draw item) bt item s in
      process_items-results (tally r c) items s'

  length-results :
      (items : List BatchTransactionItem) (s : S) → length (results items s) ≡ length items
  unfolding results
  length-results [] s = refl
  length-results (item ∷ items) s =
      ap suc (length-results items (process_batch_item ports (draw item) bt item s).1)

  pub process_items_status :
      (items : List BatchTransactionItem) (s : S)
      → HasStatus
          (final_status (process_items ports draw bt (0, 0) items s).0)
          (results items s)
          (length items)
  process_items_status items s =
      rw (process_items-results (0, 0) items s, ← length-results items s)
        (count_all_status (results items s))

-- A batch that is not pending is neither processed nor cancelled: both calls return their error and
-- change nothing.
pub not_pending_refused :
    {S : Type 0} (ports : Ports S) (run : BatchRun) (draw : BatchTransactionItem → ItemRun)
    (id : Uuid) (s : S) (bt : BatchTransaction)
    → ports.get_batch id s ≡ ok bt
    → bt.status ≢ pending
    → (process_batch_transaction ports run draw id s ≡ (err not_pending, s))
      × (cancel_batch_transaction ports run id s ≡ (err only_pending_cancelled, s))
unfolding process_batch_transaction cancel_batch_transaction
not_pending_refused ports run draw id s bt e h = ground arith
