-- ===== src/Breaker/Traces.antt =====
-- What a breaker (src/chen/observability/circuit_breaker.py) does over several calls.
use chen.Common.{
  ℕ, zero, suc, ◌+◌, ◌-◌, ◌≤◌, ◌<◌, true, false, ◌≡◌, ◌≢◌, ◌⊎◌, refl, Option, none, some, List, [],
  ◌∷◌, arith, ltb, length, All, if◌then◌else◌,
}
use chen.Breaker.{CircuitBreaker, closed, opened, half_open, OpenError, enter, leave}

-- Calls that fail one after the other, with the times at which they end.
unfoldable pub failures : List ℕ → CircuitBreaker → CircuitBreaker
failures [] b = b
failures (t ∷ ts) b = failures ts (leave true t b)

failures-opened :
    (ts : List ℕ) (b : CircuitBreaker) → b.state ≡ opened → (failures ts b).state ≡ opened
unfolding failures leave
failures-opened [] b h = h
failures-opened (t ∷ ts) b h = failures-opened ts (leave true t b) (ground arith)

-- From a closed breaker in good order, a run of failures opens it exactly when, with those already
-- counted, there are at least `threshold` of them.
pub failures_trip :
    (ts : List ℕ) (b : CircuitBreaker)
    → b.state ≡ closed
    → b.failure_count < b.threshold
    → (failures ts b).state
      ≡ (if ltb (b.failure_count + length ts) b.threshold then closed else opened)
unfolding failures leave
failures_trip [] b c h = ground arith
failures_trip (t ∷ ts) b c h =
    ground (arith, failures_trip ts (leave true t b), failures-opened ts (leave true t b))

-- `__enter__` raises exactly when the breaker is open and the cooldown is not over; the breaker
-- is then unchanged, and the error has the time left. Otherwise the call goes on, and the breaker
-- is not open: one that was open is half-open with no success counted, any other is unchanged.
pub enter_lem :
    (now later : ℕ) (b : CircuitBreaker)
    → let (e, b') = enter now later b in
      ((b.state ≡ opened)
        × (now < b.last_failure_time + b.cooldown_seconds)
        × (b' ≡ b)
        × (e
            ≡ some (record {
              name = b.name;
              state = opened;
              retry_after = b.cooldown_seconds + b.last_failure_time - later;
            })))
      ⊎ ((e ≡ none)
          × (b.state ≡ opened)
          × (b.last_failure_time + b.cooldown_seconds ≤ now)
          × (b' ≡ record b { state = half_open; success_count = 0 }))
      ⊎ ((e ≡ none) × (b.state ≢ opened) × (b' ≡ b))
unfolding enter
enter_lem now later b = ground arith

-- Calls that enter one after the other, with their clock readings, none of which has left.
unfoldable pub enter_each : List (ℕ × ℕ) → CircuitBreaker → List (Option OpenError) × CircuitBreaker
enter_each [] b = ([], b)
enter_each ((now, later) ∷ ts) b =
    let (e, b') = enter now later b in let (es, b'') = enter_each ts b' in (e ∷ es, b'')

enter_each_half_open :
    (ts : List (ℕ × ℕ)) (b : CircuitBreaker)
    → b.state ≡ half_open
    → (All (λ e. e ≡ none) (enter_each ts b).0) × ((enter_each ts b).1 ≡ b)
unfolding enter_each enter
enter_each_half_open [] b h = (tt, refl)
enter_each_half_open (t ∷ ts) b h = ground (arith, enter_each_half_open ts b h)

-- Once the cooldown is over, an open breaker lets every caller in, as long as none of them has
-- left: each call of any non-empty sequence, of whatever length, enters, and afterwards the
-- breaker is half-open with no success counted.
pub half_open_admits_every :
    (now later : ℕ) (ts : List (ℕ × ℕ)) (b : CircuitBreaker)
    → b.state ≡ opened
    → b.last_failure_time + b.cooldown_seconds ≤ now
    → (All (λ e. e ≡ none) (enter_each ((now, later) ∷ ts) b).0)
      × ((enter_each ((now, later) ∷ ts) b).1 ≡ record b { state = half_open; success_count = 0 })
unfolding enter_each enter
half_open_admits_every now later ts b o h =
    ground (arith, enter_each_half_open ts (record b { state = half_open; success_count = 0 }) refl)

-- Calls that end without an exception.
unfoldable pub successes : ℕ → CircuitBreaker → CircuitBreaker
successes zero b = b
successes (suc n) b = successes n (leave false 0 b)

successes-closed :
    (n : ℕ) (b : CircuitBreaker)
    → b.state ≡ closed
    → b.failure_count ≡ 0
    → ((successes n b).state ≡ closed) × ((successes n b).failure_count ≡ 0)
unfolding successes leave
successes-closed zero b c z = (c, z)
successes-closed (suc n) b c z = ground (arith, successes-closed n (leave false 0 b))

-- From a half-open breaker that still waits for successes, a run of successes closes it and sets
-- its failure count to 0 exactly when it makes the count reach `success_threshold`; until then it
-- leaves both as they are.
pub successes_close :
    (n : ℕ) (b : CircuitBreaker)
    → b.state ≡ half_open
    → b.success_count < b.success_threshold
    → let b' = successes n b in
      (b'.state ≡ (if ltb (b.success_count + n) b.success_threshold then half_open else closed))
      × (b'.failure_count
          ≡ (if ltb (b.success_count + n) b.success_threshold then b.failure_count else 0))
unfolding successes leave
successes_close zero b s h = ground arith
successes_close (suc n) b s h =
    ground (arith, successes_close n (leave false 0 b), successes-closed n (leave false 0 b))

-- A failure of a half-open breaker opens it again for a whole cooldown: whoever enters before
-- `now + cooldown_seconds` is turned away, and whoever enters later is let in.
pub probe_failure_reopens :
    (now at later : ℕ) (b : CircuitBreaker)
    → b.state ≡ half_open
    → let b' = leave true now b in
      (b'.state ≡ opened)
      × ((enter at later b').0 ≡ none → now + b.cooldown_seconds ≤ at)
      × (now + b.cooldown_seconds ≤ at → (enter at later b').0 ≡ none)
unfolding leave enter
probe_failure_reopens now at later b h = ground arith
