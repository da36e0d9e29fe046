-- ===== src/Breaker/Locks.antt =====
-- Which calls of a breaker return, and which wait for ever for a lock that the caller holds.
use transaction_api.Prelude.{ℕ, ◌+◌, ◌≤◌, ◌≡◌, ◌↔◌, Option, none, String, arith}
use transaction_api.Breaker.{
  state_open, state_half_open, CircuitBreaker, Outcome, returns, blocks, free, ready, record_result,
}

-- Between two calls of a goroutine it holds neither mutex.
abbrev pub IsIdle : CircuitBreaker → Type 0
IsIdle b = (b.mu ≡ free) × (b.counts_mu ≡ free)

abbrev pub Blocks : {A : Type 0} → Outcome A → Type 0
Blocks (returns _ _) = ⊥
Blocks (blocks _) = Unit

-- A call that returns has released what it took.
abbrev pub ReturnsIdle : {A : Type 0} → Outcome A → Type 0
ReturnsIdle (returns _ b) = IsIdle b
ReturnsIdle (blocks _) = Unit

pub ready-ReturnsIdle :
    (since now : ℕ) (b : CircuitBreaker) → IsIdle b → ReturnsIdle (ready since now b)
unfolding ready
ready-ReturnsIdle since now b h = ground arith

pub record_result-ReturnsIdle :
    (e : Option String) (seen now : ℕ) (b : CircuitBreaker)
    → IsIdle b
    → ReturnsIdle (record_result e seen now b)
unfolding record_result
record_result-ReturnsIdle e seen now b h = ground arith

-- Called with neither mutex held, `Ready` waits for ever exactly when the breaker is open and its
-- timeout has passed: it asks for the write lock of a mutex that it holds for reading.
pub ready-Blocks_iff :
    (since now : ℕ) (b : CircuitBreaker)
    → IsIdle b
    → Blocks (ready since now b)
      ↔ ((b.state ≡ state_open) × (b.last_state_change + b.config.timeout ≤ since))
unfolding ready
ready-Blocks_iff since now b h = ground arith

-- Called with neither mutex held, `recordResult` waits for ever exactly when a success in the
-- half-open state completes the run of successes that should close the breaker.
pub record_result-Blocks_iff :
    (e : Option String) (seen now : ℕ) (b : CircuitBreaker)
    → IsIdle b
    → Blocks (record_result e seen now b) ↔ (
        (e ≡ none)
        × (b.state ≡ state_half_open)
        × (b.config.success_threshold ≤ b.counts.consecutive_successes + 1))
unfolding record_result
record_result-Blocks_iff e seen now b h = ground arith
