-- ===== src/Worker/Laws.antt =====
-- The counts of a batch and the statistics over all jobs.
use transaction_api.Prelude.{
  ℕ, zero, suc, ◌+◌, ◌≡◌, refl, ◌∙◌, ap, pos, ◌+ℤ◌, arith, Option, none, some, String, List, [],
  ◌∷◌, length,
}
use transaction_api.Domain.Base.{Amount}
use transaction_api.Worker.{
  BatchJob, BalanceService, BatchResult, no_result, count, run_user, run_all, process_batch,
  BatchStats, record_batch, process_jobs,
}

-- `n` times an amount.
pub times : ℕ → Amount → Amount
times zero a = pos 0
times (suc n) a = times n a +ℤ a

-- The counts after `n` goroutines of a job of the amount.
abbrev pub Counts : ℕ → Amount → BatchResult → Type 0
Counts n amount r =
    (r.success_count + r.failed_count ≡ n) × (r.total_amount ≡ times r.success_count amount)

times_same : (k l : ℕ) (a : Amount) → k ≡ l → times k a ≡ times l a
times_same k l a e = ap (λ n. times n a) e

times_suc : (n : ℕ) (a : Amount) → times (n + 1) a ≡ times n a +ℤ a
unfolding times
times_suc n a = times_same (n + 1) (suc n) a (omega arith)

Counts-count :
    (n : ℕ) (amount : Amount) (e : Option String) (r : BatchResult)
    → Counts n amount r
    → Counts (n + 1) amount (count amount e r)
Counts-count n amount none r (p, q) = (omega arith, rw (q, times_suc r.success_count amount) refl)
Counts-count n amount (some x) r (p, q) = (omega arith, q)

-- The number of goroutines of all the jobs.
abbrev pub runs : List (BatchJob × List ℕ) → ℕ
runs [] = 0
runs ((job, schedule) ∷ jobs) = length schedule + runs jobs

module _ {S : Type 0} (service : BalanceService S) where
  run_all-Counts :
      (job : BatchJob) (schedule : List ℕ) (n : ℕ) (r : BatchResult) (s : S)
      → Counts n job.amount r
      → Counts (n + length schedule) job.amount (run_all service job schedule r s).0
  unfolding run_all
  run_all-Counts job [] n r s (p, q) = (omega arith, q)
  run_all-Counts job (user ∷ users) n r s h =
      let (e, s') = run_user service job.operation job.amount user s in
      let (p, q) =
        run_all-Counts job users (n + 1) (count job.amount e r) s'
          (Counts-count n job.amount e r h) in
      (p ∙ omega arith, q)

  -- In whatever order the goroutines of a job run, and whichever fail, each is counted once, and the
  -- total is the amount of the job for each that is counted as a success.
  pub process_batch-Counts :
      (job : BatchJob) (schedule : List ℕ) (s : S)
      → Counts (length schedule) job.amount (process_batch service job schedule s).0
  unfolding process_batch times
  process_batch-Counts job schedule s =
      let (p, q) = run_all-Counts job schedule 0 no_result s (refl, refl) in (p ∙ omega arith, q)

  -- Over any queue of jobs the statistics grow by one for every goroutine that ran, as processed or
  -- as failed.
  pub process_jobs_total :
      (jobs : List (BatchJob × List ℕ)) (stats : BatchStats) (s : S)
      → let after = (process_jobs service jobs stats s).0 in
        after.total_processed + after.total_failed
        ≡ stats.total_processed + stats.total_failed + runs jobs
  unfolding process_jobs record_batch
  process_jobs_total [] stats s = omega arith
  process_jobs_total ((job, schedule) ∷ jobs) stats s =
      let (r, s') = process_batch service job schedule s in
      process_jobs_total jobs (record_batch r stats) s'
      ∙ omega (arith, (process_batch-Counts job schedule s).0)
