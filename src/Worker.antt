-- ===== src/Worker.antt =====
-- pkg/worker/batch_processor.go: a job runs one goroutine for each user. `schedule` is the order in
-- which they call the service; the counts under the mutex are sums, and do not depend on theirs.
pub mod Laws
pub mod Life
pub mod Pool
use transaction_api.Prelude.{ℕ, ◌+◌, ℤ, pos, ◌+ℤ◌, Option, none, some, String, List, [], ◌∷◌}
use transaction_api.Domain.Base.{Amount}

-- `Operation` is a text; `unknown` is any other.
pub data Operation : Type 0 where
  add withdraw : Operation
  unknown : String → Operation

pub record BatchJob : Type 0 where
  pub user_ids : List ℕ
  pub amount : Amount
  pub description : String
  pub operation : Operation

-- The two calls of `domain.BalanceService`.
pub record BalanceService (S : Type 0) : Type 0 where
  pub add_funds : ℕ → Amount → S → Option String × S
  pub withdraw_funds : ℕ → Amount → S → Option String × S

pub record BatchResult : Type 0 where
  pub success_count : ℕ
  pub failed_count : ℕ
  pub total_amount : Amount

abbrev pub no_result : BatchResult
no_result = record { success_count = 0; failed_count = 0; total_amount = pos 0 }

-- What a goroutine adds to the counts.
abbrev pub count : Amount → Option String → BatchResult → BatchResult
count amount none r = record r {
  success_count = r.success_count + 1;
  total_amount = r.total_amount +ℤ amount;
}
count amount (some _) r = record r { failed_count = r.failed_count + 1 }

module _ {S : Type 0} (service : BalanceService S) where
  -- The call of one goroutine; on an unknown operation its error stays nil.
  abbrev pub run_user : Operation → Amount → ℕ → S → Option String × S
  run_user add amount user s = service.add_funds user amount s
  run_user withdraw amount user s = service.withdraw_funds user amount s
  run_user (unknown _) amount user s = (none, s)

  unfoldable pub run_all : BatchJob → List ℕ → BatchResult → S → BatchResult × S
  run_all job [] r s = (r, s)
  run_all job (user ∷ users) r s =
      let (e, s') = run_user job.operation job.amount user s in
      run_all job users (count job.amount e r) s'

  unfoldable pub process_batch : BatchJob → List ℕ → S → BatchResult × S
  unfolding run_all
  process_batch job schedule s = run_all job schedule no_result s

-- `BatchStats` without the average time of a job.
pub record BatchStats : Type 0 where
  pub total_processed : ℕ
  pub total_failed : ℕ
  pub total_amount : Amount

-- The update of the statistics after a job.
unfoldable pub record_batch : BatchResult → BatchStats → BatchStats
record_batch r stats = record {
  total_processed = stats.total_processed + r.success_count;
  total_failed = stats.total_failed + r.failed_count;
  total_amount = stats.total_amount +ℤ r.total_amount;
}

-- The loop of `process`: the jobs of the queue in turn, each with its schedule.
unfoldable pub process_jobs :
    {S : Type 0} → BalanceService S → List (BatchJob × List ℕ) → BatchStats → S → BatchStats × S
unfolding process_batch record_batch
process_jobs service [] stats s = (stats, s)
process_jobs service ((job, schedule) ∷ jobs) stats s =
    let (r, s') = process_batch service job schedule s in
    process_jobs service jobs (record_batch r stats) s'
