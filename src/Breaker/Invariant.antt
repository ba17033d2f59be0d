-- ===== src/Breaker/Invariant.antt =====
-- The invariant of a breaker (src/chen/observability/circuit_breaker.py) under every method, in
-- any order.
use chen.Common.{ℕ, ◌<◌, ◌≡◌, ◌≢◌, List, [], ◌∷◌, arith}
use chen.Breaker.{
  CircuitBreaker, closed, half_open, maybe_transition, Event, read, entering, step, run,
}

-- A closed breaker has room for one more failure, a half-open one still waits for successes, and
-- one that is not closed has counted its failures up to the threshold exactly.
pub record IsWellFormed (b : CircuitBreaker) : Type 0 where
  pub closed_below : b.state ≡ closed → b.failure_count < b.threshold
  pub probing : b.state ≡ half_open → b.success_count < b.success_threshold
  pub tripped : b.state ≢ closed → b.failure_count ≡ b.threshold
  pub can_fail : 0 < b.threshold
  pub can_close : 0 < b.success_threshold

maybe_transition-IsWellFormed :
    (now : ℕ) (b : CircuitBreaker) → IsWellFormed b → IsWellFormed (maybe_transition now b)
unfolding maybe_transition
maybe_transition-IsWellFormed now b h = ground arith

step-IsWellFormed : (e : Event) (b : CircuitBreaker) → IsWellFormed b → IsWellFormed (step e b)
unfolding step
step-IsWellFormed (read now) b h = maybe_transition-IsWellFormed now b h
step-IsWellFormed (entering now later) b h = maybe_transition-IsWellFormed now b h
step-IsWellFormed _ b h = ground arith

-- From a breaker in good order, no sequence of methods by any threads leads out of the invariant.
pub run-IsWellFormed :
    (es : List Event) (b : CircuitBreaker) → IsWellFormed b → IsWellFormed (run es b)
unfolding run
run-IsWellFormed [] b h = h
run-IsWellFormed (e ∷ es) b h = run-IsWellFormed es (step e b) (step-IsWellFormed e b h)
