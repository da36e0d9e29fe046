-- ===== src/Breaker.antt =====
-- pkg/circuitbreaker/circuit_breaker.go, each method with the locks that it takes. Every reading of
-- the clock is an argument, in the order of the code's calls of `time.Now` and `time.Since`.
mod Types
mod Transitions
pub mod Locks
pub mod Trip
pub mod Runs
pub mod Events
pub use Types.*
unfoldable pub use Transitions.*
use transaction_api.Prelude.{
  ℕ, suc, ◌+◌, Bool, true, false, Option, none, some, String, ltb, leb, if◌then◌else◌, not, ◌&&◌,
}

-- The `switch` of `Ready`, under the read lock.
ready_in : State → ℕ → ℕ → Call Bool
unfolding transition_to_half_open
ready_in state_closed since now = pure true
ready_in state_open since now = do
  expired ← gets (λ b. elapsed b.last_state_change b.config.timeout since)
  when expired (transition_to_half_open now)
  pure expired
ready_in state_half_open since now = do
  r_lock_counts
  requests ← gets (λ b. b.counts.requests)
  unlock_counts
  gets (λ b. ltb requests b.config.half_open_max_requests)

pub ready : ℕ → ℕ → Call Bool
unfolding ready_in
ready since now = do
  r_lock_mu
  s ← gets (λ b. b.state)
  allowed ← ready_in s since now
  unlock_mu
  pure allowed

pub should_open : CircuitBreaker → Bool
should_open b =
    if ltb b.counts.requests b.config.min_request_count
    then false
    else leb b.config.failure_threshold b.counts.consecutive_errors

pub should_close : CircuitBreaker → Bool
should_close b =
    if not (is_half_open b.state)
    then false
    else leb b.config.success_threshold b.counts.consecutive_successes

abbrev count_error : String → ℕ → CircuitBreaker → CircuitBreaker
count_error e now b = record b {
  counts = record (b.counts) {
    total_errors = b.counts.total_errors + 1;
    consecutive_errors = b.counts.consecutive_errors + 1;
    consecutive_successes = 0;
    last_error_time = some now;
  };
  last_error = some e;
}

abbrev count_success : CircuitBreaker → CircuitBreaker
count_success b = record b {
  counts = record (b.counts) {
    consecutive_successes = b.counts.consecutive_successes + 1;
    consecutive_errors = 0;
  };
}

-- The body of `recordResult`, under the lock of the counts.
record_outcome : Option String → ℕ → ℕ → Call (Unit {0})
unfolding should_open should_close transition_to_open transition_to_closed
record_outcome (some e) seen now = do
  modify (count_error e seen)
  trip ← gets should_open
  when trip (transition_to_open now)
record_outcome none seen now = do
  modify count_success
  recovered ← gets should_close
  when recovered (transition_to_closed now)

pub record_result : Option String → ℕ → ℕ → Call (Unit {0})
unfolding record_outcome
record_result e seen now = do lock_counts; record_outcome e seen now; unlock_counts

-- The error of a call: refused by the breaker in that state, or the function's own.
pub data ExecuteError : Type 0 where
  rejected : State → ExecuteError
  failed : String → ExecuteError

abbrev fn_error : Option String → Option ExecuteError
fn_error none = none
fn_error (some e) = some (failed e)

-- The readings of the clock that one `Execute` makes: two in `Ready`, two in `recordResult`.
pub record Readings : Type 0 where
  pub ready_since : ℕ
  pub ready_now : ℕ
  pub error_seen : ℕ
  pub result_now : ℕ

-- `Execute` once `Ready` has answered. The function, and what other goroutines do to the breaker
-- while it runs, is one call `fn`.
execute_if : Bool → Readings → Call (Option String) → Call (Option ExecuteError)
execute_if false t fn = do s ← gets (λ b. b.state); pure (some (rejected s))
execute_if true t fn = do
  lock_counts
  modify (λ b. record b { counts = record (b.counts) { requests = b.counts.requests + 1 } })
  unlock_counts
  e ← fn
  record_result e t.error_seen t.result_now
  pure (fn_error e)

pub execute : Readings → Call (Option String) → Call (Option ExecuteError)
unfolding execute_if
execute t fn = do allowed ← ready t.ready_since t.ready_now; execute_if allowed t fn

-- What `ExecuteWithContext` waits for: the function's result or the end of the context.
pub data Winner : Type 0 where
  finished : Option String → Winner
  cancelled : String → Winner

abbrev pub winner_error : Winner → Option String
winner_error (finished e) = e
winner_error (cancelled e) = some e

unfoldable pub execute_with_context : Readings → Call Winner → Call (Option ExecuteError)
unfolding execute
execute_with_context t race = execute t (do w ← race; pure (winner_error w))

-- One tick of `monitorState`.
pub check_state_transition : ℕ → ℕ → Call (Unit {0})
check_state_transition since now = do
  r_lock_mu
  s ← gets (λ b. b.state)
  last ← gets (λ b. b.last_state_change)
  unlock_mu
  timeout ← gets (λ b. b.config.timeout)
  when (is_open s && elapsed last timeout since) (transition_to_half_open now)

unfoldable pub get_state : Call State
get_state = do r_lock_mu; s ← gets (λ b. b.state); unlock_mu; pure s

pub force_open : ℕ → Call (Unit {0})
force_open now = do
  lock_mu
  modify (λ b. record b { state = state_open; last_state_change = now })
  unlock_mu

-- The tail that `ForceClose` and `Reset` share.
abbrev clear_counts : Call (Unit {0})
clear_counts = do
  lock_counts
  modify (λ b. record b { counts = reset_counts b.counts })
  unlock_counts

pub force_close : ℕ → Call (Unit {0})
force_close now = do
  lock_mu
  modify (λ b. record b { state = state_closed; last_state_change = now })
  clear_counts
  unlock_mu

pub reset : ℕ → Call (Unit {0})
reset now = do
  lock_mu
  modify (λ b. record b { state = state_closed; last_state_change = now; last_error = none })
  clear_counts
  unlock_mu

unfoldable pub default_config : Config
default_config = record {
  failure_threshold = 5;
  success_threshold = 3;
  timeout = 60000000000;
  half_open_max_requests = 3;
  window_size = 10000000000;
  min_request_count = 10;
}

unfoldable pub strict_config : Config
strict_config = record {
  failure_threshold = 3;
  success_threshold = 5;
  timeout = 30000000000;
  half_open_max_requests = 2;
  window_size = 5000000000;
  min_request_count = 5;
}

unfoldable pub lenient_config : Config
lenient_config = record {
  failure_threshold = 10;
  success_threshold = 2;
  timeout = 120000000000;
  half_open_max_requests = 5;
  window_size = 30000000000;
  min_request_count = 20;
}
