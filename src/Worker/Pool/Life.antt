-- ===== src/Worker/Pool/Life.antt =====
-- The life of the pool of pkg/worker/transaction_worker.go: its queue, its workers and `Stop`, as
-- steps of goroutines in any order. What a worker does with a job is left out here.
use transaction_api.Prelude.{
  ℕ, suc, ◌≤◌, ◌<◌, ◌≡◌, refl, ◌≢◌, arith, Bool, true, false, List, [], ◌∷◌, ◌++◌, length,
}
use transaction_api.Worker.Pool.{TransactionJob}

-- Where the one call of `Stop` stands.
pub data Stop : Type 0 where
  not_called waiting returned : Stop

pub record TransactionWorkerPool : Type 0 where
  pub job_queue : List TransactionJob
  pub closed : Bool
  pub cancelled : Bool
  pub running : ℕ
  pub stop : Stop

-- `NewTransactionWorkerPool` and `Start`.
abbrev pub start : ℕ → TransactionWorkerPool
start worker_count = record {
  job_queue = [];
  closed = false;
  cancelled = false;
  running = worker_count;
  stop = not_called;
}

-- `Stop` cancels the context and waits for the workers; then it closes the queue.
abbrev pub cancel : TransactionWorkerPool → TransactionWorkerPool
cancel p = record p { cancelled = true; stop = waiting }

abbrev pub close : TransactionWorkerPool → TransactionWorkerPool
close p = record p { closed = true; stop = returned }

-- The channel has room for 1000 jobs. The loop of a worker ends when the queue is closed and empty,
-- and does not look at the context.
pub data Step : TransactionWorkerPool → TransactionWorkerPool → Type 0 where
  submits :
      (job : TransactionJob) (p : TransactionWorkerPool)
      → length p.job_queue < 1000
      → p.closed ≡ false
      → Step p (record p { job_queue = p.job_queue ++ job ∷ [] })
  gives_up : (job : TransactionJob) (p : TransactionWorkerPool) → p.cancelled ≡ true → Step p p
  receives :
      (job : TransactionJob) (rest : List TransactionJob) (p : TransactionWorkerPool)
      → 0 < p.running
      → p.job_queue ≡ job ∷ rest
      → Step p (record p { job_queue = rest })
  leaves :
      (n : ℕ) (p : TransactionWorkerPool)
      → p.running ≡ suc n
      → p.closed ≡ true
      → p.job_queue ≡ []
      → Step p (record p { running = n })
  stops : (p : TransactionWorkerPool) → p.stop ≡ not_called → Step p (cancel p)
  waited : (p : TransactionWorkerPool) → p.stop ≡ waiting → p.running ≡ 0 → Step p (close p)

pub data Reaches : TransactionWorkerPool → TransactionWorkerPool → Type 0 where
  stays : (p : TransactionWorkerPool) → Reaches p p
  steps : (p q r : TransactionWorkerPool) → Step p q → Reaches q r → Reaches p r

-- Every worker runs, the queue is open, and `Stop` has not returned.
pub record Runs (n : ℕ) (p : TransactionWorkerPool) : Type 0 where
  pub all_running : p.running ≡ n
  pub is_open : p.closed ≡ false
  pub not_returned : p.stop ≢ returned

Runs-Step : (n : ℕ) (p q : TransactionWorkerPool) → 1 ≤ n → Runs n p → Step p q → Runs n q
Runs-Step n p _ some_worker runs (submits job _ room is_open) = record {
  all_running = runs.all_running;
  is_open = runs.is_open;
  not_returned = runs.not_returned;
}
Runs-Step n p _ some_worker runs (gives_up job _ _) = runs
Runs-Step n p _ some_worker runs (receives job rest _ _ _) = record {
  all_running = runs.all_running;
  is_open = runs.is_open;
  not_returned = runs.not_returned;
}
Runs-Step n p _ some_worker runs (leaves k _ _ closed _) = absurd (ground (arith, runs.is_open))
Runs-Step n p _ some_worker runs (stops _ _) = record {
  all_running = runs.all_running;
  is_open = runs.is_open;
  not_returned = λ e. ground arith;
}
Runs-Step n p _ some_worker runs (waited _ _ none_runs) = absurd (omega (arith, runs.all_running))

Runs-Reaches : (n : ℕ) (p q : TransactionWorkerPool) → 1 ≤ n → Runs n p → Reaches p q → Runs n q
Runs-Reaches n p _ some_worker runs (stays _) = runs
Runs-Reaches n p r some_worker runs (steps _ q _ step more) =
    Runs-Reaches n q r some_worker (Runs-Step n p q some_worker runs step) more

-- A pool that was started with a worker keeps all its workers and an open queue for ever, whatever
-- its goroutines do: a call of `Stop` never returns, since it waits for the workers before it
-- closes the queue, and they wait for the queue to be closed.
pub start-Runs :
    (worker_count : ℕ) (p : TransactionWorkerPool)
    → 1 ≤ worker_count
    → Reaches (start worker_count) p
    → Runs worker_count p
start-Runs worker_count p some_worker path =
    Runs-Reaches worker_count (start worker_count) p some_worker
      (record { all_running = refl; is_open = refl; not_returned = λ e. ground arith }) path
