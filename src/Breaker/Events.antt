-- ===== src/Breaker/Events.antt =====
-- Any sequence of calls, monitor ticks and operator commands on one breaker.
use transaction_api.Prelude.{ℕ, ◌≤◌, ◌≡◌, ◌≢◌, ◌⊎◌, Option, String, arith, All, List, [], ◌∷◌}
use transaction_api.Breaker.{
  state_closed, CircuitBreaker, Outcome, returns, blocks, Call, Readings, ready, record_result,
  execute, check_state_transition, force_open, force_close, reset, pure, ◌>>◌, new_circuit_breaker,
  Config,
}
use transaction_api.Breaker.Locks.{IsIdle}

-- What can happen to a breaker: a call through it, a tick of its monitor, or an operator's command.
pub data Event : Type 0 where
  call : Readings → Option String → Event
  tick : ℕ → ℕ → Event
  open_by_force close_by_force : ℕ → Event
  reset_by_force : ℕ → Event

pub perform : Event → Call (Unit {0})
perform (call t e) = do execute t (pure e); pure tt
perform (tick since now) = check_state_transition since now
perform (open_by_force now) = force_open now
perform (close_by_force now) = force_close now
perform (reset_by_force now) = reset now

pub perform_all : List Event → Call (Unit {0})
perform_all [] = pure tt
perform_all (e ∷ es) = do perform e; perform_all es

-- The calls and ticks, with no command of an operator.
abbrev pub IsAutomatic : Event → Type 0
IsAutomatic (call _ _) = Unit
IsAutomatic (tick _ _) = Unit
IsAutomatic _ = ⊥

-- What holds of a breaker between calls, whatever happened to it before.
pub record IsSound (b : CircuitBreaker) : Type 0 where
  pub idle : IsIdle b
  pub errors_of_requests : b.counts.consecutive_errors ≤ b.counts.requests
  pub successes_of_requests : b.counts.consecutive_successes ≤ b.counts.requests
  pub one_run : (b.counts.consecutive_errors ≡ 0) ⊎ (b.counts.consecutive_successes ≡ 0)
  pub closed_errors : b.state ≡ state_closed → b.counts.total_errors ≤ b.counts.requests

abbrev pub Keeps : {A : Type 0} → (CircuitBreaker → Type 0) → Outcome A → Type 0
Keeps P (returns _ b) = P b
Keeps P (blocks _) = Unit

perform-IsSound : (e : Event) (b : CircuitBreaker) → IsSound b → Keeps IsSound (perform e b)
unfolding perform execute ready record_result check_state_transition force_open force_close reset
perform-IsSound (call t e) b h = ground arith
perform-IsSound (tick since now) b h = ground arith
perform-IsSound (open_by_force now) b h = ground arith
perform-IsSound (close_by_force now) b h = ground arith
perform-IsSound (reset_by_force now) b h = ground arith

Keeps-bind :
    {A B : Type 0} (P Q : CircuitBreaker → Type 0) (k : Call B) (o : Outcome A)
    → Keeps P o
    → ((b' : CircuitBreaker) → P b' → Keeps Q (k b'))
    → Keeps Q (elim o [ returns a b' ↦ k b' | blocks b' ↦ blocks b' ])
Keeps-bind P Q k (returns a b') p f = f b' p
Keeps-bind P Q k (blocks b') p f = tt

perform_all-IsSound :
    (es : List Event) (b : CircuitBreaker) → IsSound b → Keeps IsSound (perform_all es b)
unfolding perform_all
perform_all-IsSound [] b h = h
perform_all-IsSound (e ∷ es) b h =
    Keeps-bind IsSound IsSound (perform_all es) (perform e b) (perform-IsSound e b h)
      (perform_all-IsSound es)

-- After any sequence of calls, ticks and commands that returns, a new breaker holds neither mutex,
-- its runs of errors and of successes are within the requests counted, one of the two runs is
-- empty, and in the closed state the errors are within the requests.
pub new_circuit_breaker-IsSound :
    (es : List Event) (name : String) (c : Config) (now : ℕ)
    → Keeps IsSound (perform_all es (new_circuit_breaker name c now))
unfolding new_circuit_breaker
new_circuit_breaker-IsSound es name c now =
    perform_all-IsSound es (new_circuit_breaker name c now) (ground arith)

abbrev pub NotClosed : CircuitBreaker → Type 0
NotClosed b = IsIdle b × (b.state ≢ state_closed)

perform-NotClosed :
    (e : Event) (b : CircuitBreaker) → IsAutomatic e → NotClosed b → Keeps NotClosed (perform e b)
unfolding perform execute ready record_result check_state_transition
perform-NotClosed (call t e) b a h = ground arith
perform-NotClosed (tick since now) b a h = ground arith
perform-NotClosed (open_by_force now) b a h = absurd a
perform-NotClosed (close_by_force now) b a h = absurd a
perform-NotClosed (reset_by_force now) b a h = absurd a

-- A breaker that holds no mutex and is open or half-open is never closed again by calls and monitor
-- ticks: whatever their number, times and results, where they all return it is still not closed.
pub perform_all-NotClosed :
    (es : List Event) (b : CircuitBreaker)
    → All IsAutomatic es
    → NotClosed b
    → Keeps NotClosed (perform_all es b)
unfolding perform_all
perform_all-NotClosed [] b a h = h
perform_all-NotClosed (e ∷ es) b (a, as') h =
    Keeps-bind NotClosed NotClosed (perform_all es) (perform e b) (perform-NotClosed e b a h)
      (λ b' p. perform_all-NotClosed es b' as' p)
