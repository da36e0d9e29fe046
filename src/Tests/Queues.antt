-- ===== src/Tests/Queues.antt =====
-- Tests of the lives of the worker pool and of the batch processor.
use transaction_api.Prelude.{◌≡◌, refl, pos, arith, [], ◌∷◌, ◌++◌}
use transaction_api.Worker.{BatchJob, add}
use transaction_api.Worker.Life.{
  BatchProcessor, start, submit, receive, close, Reaches, stays, steps, submits, receives, closes,
}
use transaction_api.Worker.Life.Order.{in_hand}
use transaction_api.Worker.Life.Shutdown.{AtStop, start-AtStop}
use transaction_api.Worker.Pool.{TransactionJob}
use transaction_api.Worker.Pool.Life.{
  TransactionWorkerPool, start as start_pool, cancel, Reaches as PoolReaches, stays as pool_stays,
  steps as pool_steps, submits as pool_submits, stops, Runs, start-Runs,
}

abbrev bonus : BatchJob
bonus = record { user_ids = 1 ∷ 2 ∷ []; amount = pos 5; description = "bonus"; operation = add }

-- A job is in hand and another one queued when `Stop` is called.
abbrev one : BatchProcessor
one = submit bonus start

abbrev two : BatchProcessor
two = submit bonus one

abbrev taken : BatchProcessor
taken = receive bonus (bonus ∷ []) two

abbrev stopping : BatchProcessor
stopping = close taken

stopping_reached : Reaches start stopping
stopping_reached = steps start one stopping (submits bonus start (omega arith) refl) (
    steps one two stopping (submits bonus one (omega arith) refl) (
      steps two taken stopping (receives bonus (bonus ∷ []) two refl refl)
        (steps taken stopping stopping (closes taken refl) (stays stopping))))

start-AtStop_example :
    (stopping.handled ++ (in_hand stopping.process ++ stopping.job_queue) ≡ stopping.submitted)
    × AtStop stopping stopping.stop
start-AtStop_example = start-AtStop stopping stopping_reached

abbrev rent : TransactionJob
rent = record {
  transaction_id = 20;
  from_user_id = 1;
  to_user_id = 2;
  amount = pos 3;
  description = "rent";
}

-- `Stop` of a pool of two workers waits while a job is queued.
abbrev filled : TransactionWorkerPool
filled = record (start_pool 2) { job_queue = rent ∷ [] }

abbrev cancelled : TransactionWorkerPool
cancelled = cancel filled

cancelled_reached : PoolReaches (start_pool 2) cancelled
cancelled_reached =
    pool_steps (start_pool 2) filled cancelled (pool_submits rent (start_pool 2) (omega arith) refl)
      (pool_steps filled cancelled cancelled (stops filled refl) (pool_stays cancelled))

start-Runs_example : Runs 2 cancelled
start-Runs_example = start-Runs 2 cancelled (omega arith) cancelled_reached
