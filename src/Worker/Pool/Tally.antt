-- ===== src/Worker/Pool/Tally.antt =====
-- What the counters of a worker mean.
use transaction_api.Prelude.{ℕ, ◌+◌, ◌*◌, ◌≡◌, arith, Option, none, some, String, List, [], ◌∷◌}
use transaction_api.Worker.Pool.{TransactionJob, TransactionWorker, handle_job, handle_jobs}

abbrev pub successes : List (TransactionJob × Option String) → ℕ
successes [] = 0
successes ((job, none) ∷ jobs) = 1 + successes jobs
successes ((job, some e) ∷ jobs) = successes jobs

abbrev pub failures : List (TransactionJob × Option String) → ℕ
failures [] = 0
failures ((job, none) ∷ jobs) = failures jobs
failures ((job, some e) ∷ jobs) = 1 + failures jobs

-- How far the counters move over some successes and failures.
abbrev pub Tallies : ℕ → ℕ → TransactionWorker → TransactionWorker → Type 0
Tallies a f w w' =
    (w'.processed_count ≡ w.processed_count + 2 * a)
    × (w'.failed_count ≡ w.failed_count + 2 * f)
    × (w'.stats.total_processed ≡ w.stats.total_processed + 3 * a + f)
    × (w'.stats.total_failed ≡ w.stats.total_failed + f)

Tallies-success :
    (a f : ℕ) (job : TransactionJob) (w w' : TransactionWorker)
    → Tallies a f (handle_job job none w) w'
    → Tallies (1 + a) f w w'
unfolding handle_job
Tallies-success a f job w w' h = (omega arith, omega arith, omega arith, omega arith)

Tallies-failure :
    (a f : ℕ) (job : TransactionJob) (e : String) (w w' : TransactionWorker)
    → Tallies a f (handle_job job (some e) w) w'
    → Tallies a (1 + f) w w'
unfolding handle_job
Tallies-failure a f job e w w' h = (omega arith, omega arith, omega arith, omega arith)

-- A worker counts each job twice as processed or twice as failed; the shared statistics count a
-- success three times as processed, and a failure once as failed and once as processed.
pub handle_jobs-Tallies :
    (jobs : List (TransactionJob × Option String)) (w : TransactionWorker)
    → Tallies (successes jobs) (failures jobs) w (handle_jobs jobs w)
unfolding handle_jobs
handle_jobs-Tallies [] w = (omega arith, omega arith, omega arith, omega arith)
handle_jobs-Tallies ((job, none) ∷ jobs) w =
    Tallies-success (successes jobs) (failures jobs) job w
      (handle_jobs jobs (handle_job job none w)) (handle_jobs-Tallies jobs (handle_job job none w))
handle_jobs-Tallies ((job, some e) ∷ jobs) w =
    Tallies-failure (successes jobs) (failures jobs) job e w
      (handle_jobs jobs (handle_job job (some e) w))
      (handle_jobs-Tallies jobs (handle_job job (some e) w))
