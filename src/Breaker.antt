-- ===== src/Breaker.antt =====
-- src/chen/observability/circuit_breaker.py: the circuit breaker of one backend, and the registry.
-- Every method holds the breaker's lock from start to end, so a method is one step. A reading of
-- `time.time()` is an argument; `time.time() - t >= d` is `t + d <= time.time()`. Log lines are
-- left out.
pub mod Registry
pub mod Invariant
pub mod Traces
mod Examples
use chen.Common.{ℕ, ◌+◌, ◌-◌, String, Bool, Option, none, some, List, [], ◌∷◌, leb, if◌then◌else◌}

-- `OPEN` is `opened`, since `open` is a reserved word.
pub data CircuitState : Type 0 where
  closed opened half_open : CircuitState

pub record CircuitBreaker : Type 0 where
  pub name : String
  pub threshold : ℕ
  pub cooldown_seconds : ℕ
  pub success_threshold : ℕ
  pub state : CircuitState
  pub failure_count : ℕ
  pub success_count : ℕ
  pub last_failure_time : ℕ

-- `CircuitBreaker(name=…, threshold=…, cooldown_seconds=…, success_threshold=…)`
abbrev pub new_breaker : String → ℕ → ℕ → ℕ → CircuitBreaker
new_breaker name threshold cooldown successes = record {
  name = name;
  threshold = threshold;
  cooldown_seconds = cooldown;
  success_threshold = successes;
  state = closed;
  failure_count = 0;
  success_count = 0;
  last_failure_time = 0;
}

transition_from : CircuitState → ℕ → CircuitBreaker → CircuitBreaker
transition_from opened now b =
    if leb (b.last_failure_time + b.cooldown_seconds) now
    then record b { state = half_open; success_count = 0 }
    else b
transition_from closed now b = b
transition_from half_open now b = b

-- `_maybe_transition`
unfoldable pub maybe_transition : ℕ → CircuitBreaker → CircuitBreaker
unfolding transition_from
maybe_transition now b = transition_from b.state now b

-- `CircuitBreakerOpenError(name, state, retry_after)`
pub record OpenError : Type 0 where
  pub name : String
  pub state : CircuitState
  pub retry_after : ℕ

enter_from : CircuitState → ℕ → CircuitBreaker → Option OpenError
enter_from opened now b = some (record {
  name = b.name;
  state = b.state;
  retry_after = b.cooldown_seconds + b.last_failure_time - now;
})
enter_from closed now b = none
enter_from half_open now b = none

-- `__enter__`: the error that it raises, if any, and the breaker. The clock is read at `now` by
-- the transition, and at `later` for `retry_after`, where `-` at 0 is the source's `max`.
unfoldable pub enter : ℕ → ℕ → CircuitBreaker → Option OpenError × CircuitBreaker
unfolding maybe_transition enter_from
enter now later b = let b' = maybe_transition now b in (enter_from b'.state later b', b')

success_from : CircuitState → CircuitBreaker → CircuitBreaker
success_from half_open b =
    if leb b.success_threshold (b.success_count + 1)
    then record b { state = closed; failure_count = 0; success_count = b.success_count + 1 }
    else record b { success_count = b.success_count + 1 }
success_from closed b = record b { failure_count = 0 }
success_from opened b = b

-- `_on_success`
unfoldable pub on_success : CircuitBreaker → CircuitBreaker
unfolding success_from
on_success b = success_from b.state b

failure_from : CircuitState → CircuitBreaker → CircuitBreaker
failure_from half_open b = record b { state = opened }
failure_from closed b =
    if leb b.threshold (b.failure_count + 1)
    then record b { state = opened; failure_count = b.failure_count + 1 }
    else record b { failure_count = b.failure_count + 1 }
failure_from opened b = b

-- `_on_failure`: the time is written in every state.
unfoldable pub on_failure : ℕ → CircuitBreaker → CircuitBreaker
unfolding failure_from
on_failure now b = failure_from b.state (record b { last_failure_time = now })

-- `__exit__`: `true` for a body that raised.
unfoldable pub leave : Bool → ℕ → CircuitBreaker → CircuitBreaker
unfolding on_success on_failure
leave raised now b = if raised then on_failure now b else on_success b

-- `reset`
unfoldable pub reset : CircuitBreaker → CircuitBreaker
reset b = record b { state = closed; failure_count = 0; success_count = 0 }

-- What the threads that share a breaker do to it, one call at a time.
pub data Event : Type 0 where
  read : ℕ → Event
  entering : ℕ → ℕ → Event
  leaving : Bool → ℕ → Event
  resetting : Event

unfoldable pub step : Event → CircuitBreaker → CircuitBreaker
unfolding maybe_transition enter leave reset
step (read now) b = maybe_transition now b
step (entering now later) b = (enter now later b).1
step (leaving raised now) b = leave raised now b
step resetting b = reset b

unfoldable pub run : List Event → CircuitBreaker → CircuitBreaker
unfolding step
run [] b = b
run (e ∷ es) b = run es (step e b)
