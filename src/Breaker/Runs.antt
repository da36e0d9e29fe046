-- ===== src/Breaker/Runs.antt =====
-- Sequences of calls on one breaker: a run of failures opens it, and what no sequence does.
use transaction_api.Prelude.{
  ℕ, suc, ◌+◌, ◌≤◌, ◌<◌, ◌≡◌, refl, ◌↔◌, some, String, arith, List, [], ◌∷◌, length,
}
use Prim.Native.Nat.{max}
use native.Mathlib.Decide.{dec_lt}
use transaction_api.Breaker.{
  state_closed, state_open, CircuitBreaker, Outcome, returns, blocks, Call, Readings, record_result,
  ready, execute, pure, ◌>>◌, new_circuit_breaker, Config,
}
use transaction_api.Breaker.Locks.{IsIdle}

-- Calls whose functions all fail, each with its readings of the clock and its error.
pub execute_failures : List (Readings × String) → Call (Unit {0})
execute_failures [] = pure tt
execute_failures ((t, e) ∷ ts) = do execute t (pure (some e)); execute_failures ts

abbrev pub Ends : {A : Type 0} → (CircuitBreaker → Type 0) → Outcome A → Type 0
Ends P (returns _ b) = P b
Ends P (blocks _) = ⊥

abbrev pub trip_count : Config → ℕ
trip_count c = max c.failure_threshold c.min_request_count

-- A closed breaker that has seen `n` calls, all failed, and has not tripped.
abbrev Failing : ℕ → Config → CircuitBreaker → Type 0
Failing n c b =
    IsIdle b
    × (b.config ≡ c)
    × (b.state ≡ state_closed)
    × (b.counts.requests ≡ n)
    × (b.counts.consecutive_errors ≡ n)

-- Whether failures have opened the breaker, once there have been `n` and it began closed.
abbrev pub Tripped : ℕ → Config → CircuitBreaker → Type 0
Tripped n c b = IsIdle b × ((b.state ≡ state_open) ↔ (n ≡ trip_count c))

Ends-execute :
    (n : ℕ) (t : Readings) (e : String) (c : Config) (b : CircuitBreaker)
    → Failing n c b
    → suc n < trip_count c
    → Ends (Failing (suc n) c) (execute t (pure (some e)) b)
unfolding execute ready record_result
Ends-execute n t e c b h lt = ground arith

Ends-execute_last :
    (n : ℕ) (t : Readings) (e : String) (c : Config) (b : CircuitBreaker)
    → Failing n c b
    → suc n ≡ trip_count c
    → Ends (Tripped (suc n) c) (execute t (pure (some e)) b)
unfolding execute ready record_result
Ends-execute_last n t e c b h lt = ground arith

Ends-bind :
    {A B : Type 0} (P Q : CircuitBreaker → Type 0) (k : Call B) (o : Outcome A)
    → Ends P o
    → ((b' : CircuitBreaker) → P b' → Ends Q (k b'))
    → Ends Q (elim o [ returns a b' ↦ k b' | blocks b' ↦ blocks b' ])
Ends-bind P Q k (returns a b') p f = f b' p
Ends-bind P Q k (blocks b') p f = absurd p

execute_failures-Tripped :
    (ts : List (Readings × String)) (n m : ℕ) (c : Config) (b : CircuitBreaker)
    → Failing n c b
    → n < trip_count c
    → n + length ts ≡ m
    → m ≤ trip_count c
    → Ends (Tripped m c) (execute_failures ts b)
unfolding execute_failures
execute_failures-Tripped [] n m c b h lt e le = ground arith
execute_failures-Tripped ((t, x) ∷ ts) n m c b h lt e le = elim (dec_lt (suc n) (trip_count c)) [
  | yes more ↦
      Ends-bind (Failing (suc n) c) (Tripped m c) (execute_failures ts)
        (execute t (pure (some x)) b) (Ends-execute n t x c b h more)
        (λ b' p. execute_failures-Tripped ts (suc n) m c b' p more (omega arith) le)
  | no last ↦
      Ends-bind (Tripped (suc n) c) (Tripped m c) (execute_failures ts)
        (execute t (pure (some x)) b) (Ends-execute_last n t x c b h (omega arith))
        (λ b' p. execute_nothing ts b' (omega arith) (omega arith) p)
]
  where
    execute_nothing :
        (us : List (Readings × String)) (b' : CircuitBreaker)
        → suc n + length us ≤ suc n
        → m ≡ suc n
        → Tripped (suc n) c b'
        → Ends (Tripped m c) (execute_failures us b')
    execute_nothing [] b' z k p = (p.0, ((λ o. omega (arith, p.1.0 o)), λ q. p.1.1 (omega arith)))
    execute_nothing (u ∷ us) b' z k p = absurd (omega arith)

-- Where one of the two thresholds is positive, a new breaker, given at most as many failing calls
-- as the larger of the two, is open after them exactly when it was given that many; the calls all
-- return.
pub execute_failures_trip :
    (ts : List (Readings × String)) (name : String) (c : Config) (now : ℕ)
    → 0 < trip_count c
    → length ts ≤ trip_count c
    → Ends (Tripped (length ts) c) (execute_failures ts (new_circuit_breaker name c now))
unfolding new_circuit_breaker
execute_failures_trip ts name c now p le =
    execute_failures-Tripped ts 0 (length ts) c (new_circuit_breaker name c now)
      ((refl, refl), refl, refl, refl, refl) p (omega arith) le
