-- ===== src/Breaker/Types.antt =====
-- The data of pkg/circuitbreaker/circuit_breaker.go, with the two mutexes of a breaker, and the
-- monad of one goroutine's calls. A mutex of Go is not reentrant: a goroutine that asks for one it
-- holds waits for ever, which is the outcome `blocks`.
use transaction_api.Prelude.{ℕ, Bool, true, false, Option, String}

pub data State : Type 0 where
  state_closed state_open state_half_open : State

pub record Config : Type 0 where
  pub failure_threshold : ℕ
  pub success_threshold : ℕ
  pub timeout : ℕ
  pub half_open_max_requests : ℕ
  pub window_size : ℕ
  pub min_request_count : ℕ

pub record Counts : Type 0 where
  pub requests : ℕ
  pub total_errors : ℕ
  pub consecutive_errors : ℕ
  pub consecutive_successes : ℕ
  pub last_error_time : Option ℕ

-- How the running goroutine holds a mutex.
pub data Held : Type 0 where
  free reading writing : Held

pub record CircuitBreaker : Type 0 where
  pub name : String
  pub config : Config
  pub state : State
  pub counts : Counts
  pub last_error : Option String
  pub last_state_change : ℕ
  pub mu : Held
  pub counts_mu : Held

pub data Outcome (A : Type 0) : Type 0 where
  returns : A → CircuitBreaker → Outcome A
  blocks : CircuitBreaker → Outcome A

abbrev pub Call : Type 0 → Type 0
Call A = CircuitBreaker → Outcome A

infixl 5 ◌>>=◌ ◌>>◌
abbrev pub ◌>>=◌ : {A B : Type 0} → Call A → (A → Call B) → Call B
◌>>=◌ m f b = elim (m b) [ returns a b' ↦ f a b' | blocks b' ↦ blocks b' ]

abbrev pub ◌>>◌ : {A B : Type 0} → Call A → Call B → Call B
m >> k = m >>= λ _. k

abbrev pub pure : {A : Type 0} → A → Call A
pure a b = returns a b

abbrev pub gets : {A : Type 0} → (CircuitBreaker → A) → Call A
gets f b = returns (f b) b

abbrev pub modify : (CircuitBreaker → CircuitBreaker) → Call (Unit {0})
modify f b = returns tt (f b)

-- The guarded part of a call, under `if`.
abbrev pub when : Bool → Call (Unit {0}) → Call (Unit {0})
when true k = k
when false k = pure tt

-- `cb.mu.Lock()`, `RLock` and the two releases; then those of `cb.counts.mu`.
abbrev pub lock_mu : Call (Unit {0})
lock_mu b = elim b.mu [ free ↦ returns tt (record b { mu = writing }) | _ ↦ blocks b ]

abbrev pub r_lock_mu : Call (Unit {0})
r_lock_mu b = elim b.mu [ writing ↦ blocks b | _ ↦ returns tt (record b { mu = reading }) ]

abbrev pub unlock_mu : Call (Unit {0})
unlock_mu b = returns tt (record b { mu = free })

abbrev pub lock_counts : Call (Unit {0})
lock_counts b = elim b.counts_mu [
  | free ↦ returns tt (record b { counts_mu = writing })
  | _ ↦ blocks b
]

abbrev pub r_lock_counts : Call (Unit {0})
r_lock_counts b = elim b.counts_mu [
  | writing ↦ blocks b
  | _ ↦ returns tt (record b { counts_mu = reading })
]

abbrev pub unlock_counts : Call (Unit {0})
unlock_counts b = returns tt (record b { counts_mu = free })
