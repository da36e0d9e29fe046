-- ===== src/Breaker/Trip.antt =====
-- When a breaker opens, refuses, and probes again: `Execute` on every branch, and runs of calls.
use transaction_api.Prelude.{
  ℕ, ◌+◌, ◌≤◌, ◌<◌, ◌≡◌, ◌⊎◌, ◌↔◌, Option, none, some, String, arith, leb, if◌then◌else◌,
}
use transaction_api.Breaker.{
  state_closed, state_open, state_half_open, CircuitBreaker, Outcome, returns, blocks, Call,
  Readings, ExecuteError, rejected, failed, ready, record_result, execute, check_state_transition,
  transition_to_half_open, pure,
}
use transaction_api.Breaker.Locks.{IsIdle}

-- A call while the breaker is open and its timeout has not passed is refused: the function is not
-- run, whatever it is, and the breaker is as before.
pub execute_refused :
    (t : Readings) (fn : Call (Option String)) (b : CircuitBreaker)
    → IsIdle b
    → b.state ≡ state_open
    → t.ready_since < b.last_state_change + b.config.timeout
    → execute t fn b ≡ returns (some (rejected state_open)) b
unfolding execute ready
execute_refused t fn b h o before = ground arith

-- In the half-open state a call is refused once the requests let through have reached the limit.
pub execute_probe_limit :
    (t : Readings) (fn : Call (Option String)) (b : CircuitBreaker)
    → IsIdle b
    → b.state ≡ state_half_open
    → b.config.half_open_max_requests ≤ b.counts.requests
    → execute t fn b ≡ returns (some (rejected state_half_open)) b
unfolding execute ready
execute_probe_limit t fn b h o full = ground arith

-- What a failure recorded in the closed state leaves.
abbrev pub AfterFailure :
    String → Readings → CircuitBreaker → Outcome (Option ExecuteError) → Type 0
AfterFailure e t b (blocks _) = ⊥
AfterFailure e t b (returns r b') =
    (r ≡ some (failed e))
    × IsIdle b'
    × (b'.config ≡ b.config)
    × (b'.counts.requests ≡ b.counts.requests + 1)
    × (b'.counts.consecutive_errors ≡ b.counts.consecutive_errors + 1)
    × (b'.counts.total_errors ≡ b.counts.total_errors + 1)
    × ((b'.state ≡ state_open) ↔ (
        (b.config.min_request_count ≤ b.counts.requests + 1)
        × (b.config.failure_threshold ≤ b.counts.consecutive_errors + 1)))
    × ((b'.state ≡ state_open) ⊎ (b'.state ≡ state_closed))

-- A failing call in the closed state passes the error on, counts it, and opens the breaker exactly
-- when the requests reach the minimum and the run of errors the threshold.
pub execute_failure :
    (e : String) (t : Readings) (b : CircuitBreaker)
    → IsIdle b
    → b.state ≡ state_closed
    → AfterFailure e t b (execute t (pure (some e)) b)
unfolding execute ready record_result
execute_failure e t b h c = ground arith

-- A call that succeeds in the closed state returns no error, and ends the run of errors.
pub execute_success :
    (t : Readings) (b : CircuitBreaker)
    → IsIdle b
    → b.state ≡ state_closed
    → execute t (pure none) b
      ≡ returns none (record b {
        counts = record (b.counts) {
          requests = b.counts.requests + 1;
          consecutive_successes = b.counts.consecutive_successes + 1;
          consecutive_errors = 0;
        };
      })
unfolding execute ready record_result
execute_success t b h c = ground arith

-- A tick of the monitor moves a breaker whose timeout has passed to half-open with its window
-- cleared, and changes no other breaker; it always returns.
pub check_state_transition_lem :
    (since now : ℕ) (b : CircuitBreaker)
    → IsIdle b
    → check_state_transition since now b
      ≡ returns tt (elim b.state [
        | state_open ↦
            if leb (b.last_state_change + b.config.timeout) since
            then (record b {
              state = state_half_open;
              last_state_change = now;
              counts = record (b.counts) {
                requests = 0;
                consecutive_errors = 0;
                consecutive_successes = 0;
              };
            })
            else b
        | _ ↦ b
      ])
unfolding check_state_transition transition_to_half_open
check_state_transition_lem since now b h = ground arith
