-- ===== src/Worker/Pool.antt =====
-- One worker of pkg/worker/transaction_worker.go, with the statistics of the service
-- (pkg/domain/interfaces.go), which all workers share. What the service returns for a job is an
-- argument; the average time is left out.
pub mod Tally
pub mod Life
use transaction_api.Prelude.{ℕ, ◌+◌, ◌+ℤ◌, Option, none, some, String, List, [], ◌∷◌}
use transaction_api.Domain.Base.{Amount}

pub record TransactionJob : Type 0 where
  pub transaction_id : ℕ
  pub from_user_id : ℕ
  pub to_user_id : ℕ
  pub amount : Amount
  pub description : String

pub record TransactionStats : Type 0 where
  pub total_processed : ℕ
  pub total_failed : ℕ
  pub total_amount : Amount

pub record TransactionWorker : Type 0 where
  pub processed_count : ℕ
  pub failed_count : ℕ
  pub stats : TransactionStats

-- `UpdateStats`
unfoldable pub update_stats : Amount → TransactionStats → TransactionStats
update_stats amount st = record st {
  total_processed = st.total_processed + 1;
  total_amount = st.total_amount +ℤ amount;
}

-- `processTransaction`, once the service has returned.
unfoldable pub process_transaction :
    TransactionJob → Option String → TransactionWorker → TransactionWorker
unfolding update_stats
process_transaction job (some e) w = record w { failed_count = w.failed_count + 1 }
process_transaction job none w = record w {
  processed_count = w.processed_count + 1;
  stats = update_stats job.amount w.stats;
}

-- What the loop of `start` adds after `processTransaction`.
abbrev counted : Option String → TransactionWorker → TransactionWorker
counted (some e) w = record w {
  failed_count = w.failed_count + 1;
  stats = record (w.stats) { total_failed = w.stats.total_failed + 1 };
}
counted none w = record w {
  processed_count = w.processed_count + 1;
  stats = record (w.stats) { total_processed = w.stats.total_processed + 1 };
}

unfoldable pub handle_job : TransactionJob → Option String → TransactionWorker → TransactionWorker
unfolding process_transaction update_stats
handle_job job e w =
    let w' = counted e (process_transaction job e w) in
    record w' { stats = update_stats job.amount w'.stats }

-- The loop of `start` over the jobs that a worker receives, each with what the service returned.
unfoldable pub handle_jobs :
    List (TransactionJob × Option String) → TransactionWorker → TransactionWorker
unfolding handle_job
handle_jobs [] w = w
handle_jobs ((job, e) ∷ jobs) w = handle_jobs jobs (handle_job job e w)
