-- ===== src/Breaker/Examples.antt =====
-- Tests of the breaker, and its theorems at concrete inputs.
use chen.Common.{true, false, ◌≡◌, refl, List, [], ◌∷◌, arith, text_key}
use chen.Breaker.{
  CircuitBreaker, closed, opened, half_open, new_breaker, leave, Event, entering, leaving, run,
}
use chen.Breaker.Invariant.{IsWellFormed, run-IsWellFormed}
use chen.Breaker.Traces.{failures}

abbrev backend : CircuitBreaker
backend = new_breaker "reasoner" 2 30 1

abbrev tripped_at_7 : CircuitBreaker
tripped_at_7 = record backend { state = opened; failure_count = 2; last_failure_time = 7 }

abbrev probed : CircuitBreaker
probed = record tripped_at_7 { state = half_open }

abbrev traffic : List Event
traffic =
    entering 1 1
    ∷ leaving true 5
    ∷ entering 6 6
    ∷ leaving true 7
    ∷ entering 20 20
    ∷ entering 40 40
    ∷ leaving false 41
    ∷ []

trips : failures (5 ∷ 7 ∷ []) backend ≡ tripped_at_7
unfolding failures leave
trips = refl

recovers : (run traffic backend).state ≡ closed
unfolding run
recovers = refl

run-IsWellFormed_example : IsWellFormed (run traffic backend)
run-IsWellFormed_example = run-IsWellFormed traffic backend (ground arith)
