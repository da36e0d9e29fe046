-- ===== src/Breaker/Transitions.antt =====
-- The construction of a breaker, and the three transitions of pkg/circuitbreaker/circuit_breaker.go with
-- the locks that they take.
use transaction_api.Prelude.{ℕ, ◌+◌, Bool, true, false, none, String, leb, not}
use transaction_api.Breaker.Types.{
  State, state_closed, state_open, state_half_open, Config, Counts, CircuitBreaker, free, Call,
  ◌>>=◌, ◌>>◌, gets, modify, when, lock_mu, unlock_mu, lock_counts, unlock_counts,
}

abbrev pub is_open : State → Bool
is_open state_open = true
is_open _ = false

abbrev pub is_half_open : State → Bool
is_half_open state_half_open = true
is_half_open _ = false

abbrev pub no_counts : Counts
no_counts = record {
  requests = 0;
  total_errors = 0;
  consecutive_errors = 0;
  consecutive_successes = 0;
  last_error_time = none;
}

unfoldable pub new_circuit_breaker : String → Config → ℕ → CircuitBreaker
new_circuit_breaker name config now = record {
  name = name;
  config = config;
  state = state_closed;
  counts = no_counts;
  last_error = none;
  last_state_change = now;
  mu = free;
  counts_mu = free;
}

-- The three counters that a move to half-open resets, and the four that a move to closed resets.
abbrev pub reset_window : Counts → Counts
reset_window c = record c { requests = 0; consecutive_errors = 0; consecutive_successes = 0 }

abbrev pub reset_counts : Counts → Counts
reset_counts c = record c {
  requests = 0;
  total_errors = 0;
  consecutive_errors = 0;
  consecutive_successes = 0;
}

unfoldable pub transition_to_open : ℕ → Call (Unit {0})
transition_to_open now = do
  lock_mu
  s ← gets (λ b. b.state)
  when (not (is_open s)) (modify (λ b. record b { state = state_open; last_state_change = now }))
  unlock_mu

unfoldable pub transition_to_half_open : ℕ → Call (Unit {0})
transition_to_half_open now = do
  lock_mu
  s ← gets (λ b. b.state)
  when (is_open s) (do
    modify (λ b. record b { state = state_half_open; last_state_change = now })
    lock_counts
    modify (λ b. record b { counts = reset_window b.counts })
    unlock_counts)
  unlock_mu

unfoldable pub transition_to_closed : ℕ → Call (Unit {0})
transition_to_closed now = do
  lock_mu
  s ← gets (λ b. b.state)
  when (is_half_open s) (do
    modify (λ b. record b { state = state_closed; last_state_change = now })
    lock_counts
    modify (λ b. record b { counts = reset_counts b.counts })
    unlock_counts)
  unlock_mu

-- `time.Since(t) >= d`, at the reading `now`.
abbrev pub elapsed : ℕ → ℕ → ℕ → Bool
elapsed t d now = leb (t + d) now
