-- ===== src/Worker/Life.antt =====
-- The life of the batch processor of pkg/worker/batch_processor.go: its queue, its one goroutine and
-- `Stop`, as steps in any order. `submitted` and `handled` record the jobs that went into the queue
-- and those that `process` is done with. A submission after `Stop` panics and is no step.
pub mod Order
pub mod Shutdown
use transaction_api.Prelude.{
  ◌+◌, ◌<◌, ◌≡◌, refl, sym, ap, ◌∙◌, arith, Bool, true, false, List, [], ◌∷◌, ◌++◌, length,
}
use mathlib.Core.List.{append-nil, append_assoc}
use transaction_api.Worker.{BatchJob}

-- Where the one call of `Stop` stands.
pub data Stop : Type 0 where
  not_called waiting returned : Stop

-- Where the goroutine of `process` stands.
pub data Process : Type 0 where
  idle : Process
  busy : BatchJob → Process
  gone : Process

pub record BatchProcessor : Type 0 where
  pub job_queue : List BatchJob
  pub closed : Bool
  pub process : Process
  pub stop : Stop
  pub submitted : List BatchJob
  pub handled : List BatchJob

-- `NewBatchProcessor` and `Start`.
abbrev pub start : BatchProcessor
start = record {
  job_queue = [];
  closed = false;
  process = idle;
  stop = not_called;
  submitted = [];
  handled = [];
}

abbrev pub submit : BatchJob → BatchProcessor → BatchProcessor
submit job p = record p { job_queue = p.job_queue ++ job ∷ []; submitted = p.submitted ++ job ∷ [] }

abbrev pub receive : BatchJob → List BatchJob → BatchProcessor → BatchProcessor
receive job rest p = record p { job_queue = rest; process = busy job }

abbrev pub finish : BatchJob → BatchProcessor → BatchProcessor
finish job p = record p { process = idle; handled = p.handled ++ job ∷ [] }

-- `Stop` closes the queue and waits for the goroutine, which ends when the queue is empty.
abbrev pub close : BatchProcessor → BatchProcessor
close p = record p { closed = true; stop = waiting }

-- The channel has room for 100 jobs.
pub data Step : BatchProcessor → BatchProcessor → Type 0 where
  submits :
      (job : BatchJob) (p : BatchProcessor)
      → length p.job_queue < 100
      → p.closed ≡ false
      → Step p (submit job p)
  receives :
      (job : BatchJob) (rest : List BatchJob) (p : BatchProcessor)
      → p.process ≡ idle
      → p.job_queue ≡ job ∷ rest
      → Step p (receive job rest p)
  finishes : (job : BatchJob) (p : BatchProcessor) → p.process ≡ busy job → Step p (finish job p)
  leaves :
      (p : BatchProcessor)
      → p.process ≡ idle
      → p.closed ≡ true
      → p.job_queue ≡ []
      → Step p (record p { process = gone })
  closes : (p : BatchProcessor) → p.stop ≡ not_called → Step p (close p)
  waited :
      (p : BatchProcessor)
      → p.stop ≡ waiting
      → p.process ≡ gone
      → Step p (record p { stop = returned })

pub data Reaches : BatchProcessor → BatchProcessor → Type 0 where
  stays : (p : BatchProcessor) → Reaches p p
  steps : (p q r : BatchProcessor) → Step p q → Reaches q r → Reaches p r
