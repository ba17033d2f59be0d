-- ===== src/Breaker/Registry.antt =====
-- src/chen/observability/circuit_breaker.py: `to_dict` and `CircuitBreakerRegistry`. The clock is
-- a function: its value at `i` is the result of the `i`-th call of `time.time()`.
use chen.Common.{
  ℕ, ◌+◌, ◌-◌, String, ◌≡◌, ◌≢◌, inl, inr, refl, text_key, Option, none, some, List, [], ◌∷◌, ltb,
  if◌then◌else◌, arith, All, Option-cases,
}
use chen.Common.Dict.{Dict, lookup, insert, lookup-insert_self, lookup-insert_ne}
use chen.Breaker.{CircuitBreaker, CircuitState, closed, new_breaker, maybe_transition, reset}

-- The dictionary that `to_dict` returns.
pub record Snapshot : Type 0 where
  pub name : String
  pub state : CircuitState
  pub failure_count : ℕ
  pub success_count : ℕ
  pub threshold : ℕ
  pub cooldown_seconds : ℕ
  pub last_failure_ago : Option ℕ

-- `to_dict`: the snapshot and the breaker, whose state may have moved on.
unfoldable pub to_dict : ℕ → ℕ → CircuitBreaker → Snapshot × CircuitBreaker
unfolding maybe_transition
to_dict now later b =
    let b' = maybe_transition now b in
    (
      record {
        name = b'.name;
        state = b'.state;
        failure_count = b'.failure_count;
        success_count = b'.success_count;
        threshold = b'.threshold;
        cooldown_seconds = b'.cooldown_seconds;
        last_failure_ago =
            if ltb 0 b'.last_failure_time then some (later - b'.last_failure_time) else none;
      },
      b',
    )

abbrev pub Breakers : Type 0
Breakers = Dict String CircuitBreaker

-- `get_or_create`: the breaker, and the registry with it.
unfoldable pub get_or_create : String → ℕ → ℕ → Breakers → CircuitBreaker × Breakers
get_or_create name threshold cooldown r = elim (lookup name r) [
  | some b ↦ (b, r)
  | none ↦ let b = new_breaker name threshold cooldown 1 in (b, insert name b r)
]

-- `get`
unfoldable pub get : String → Breakers → Option CircuitBreaker
get name r = lookup name r

-- `list_all`
unfoldable pub list_all : (ℕ → ℕ) → ℕ → Breakers → List Snapshot × Breakers
unfolding to_dict
list_all clock i [] = ([], [])
list_all clock i ((name, b) ∷ r) =
    let (s, b') = to_dict (clock i) (clock (i + 1)) b in
    let (ss, r') = list_all clock (i + 2) r in (s ∷ ss, (name, b') ∷ r')

-- `reset_all`
unfoldable pub reset_all : Breakers → Breakers
unfolding reset
reset_all [] = []
reset_all ((name, b) ∷ r) = (name, reset b) ∷ reset_all r

-- The first call of `get_or_create` for a name fixes the breaker and its settings: `get` finds it
-- afterwards, a second call with any settings returns it and leaves the registry alone, and the
-- breakers of other names are untouched.
pub get_or_create_once :
    (name other : String) (t c t' c' : ℕ) (r : Breakers)
    → name ≢ other
    → let (b, r') = get_or_create name t c r in
      (get name r' ≡ some b)
      × (get_or_create name t' c' r' ≡ (b, r'))
      × (get other r' ≡ get other r)
unfolding get_or_create get
get_or_create_once name other t c t' c' r ne = elim (Option-cases (lookup name r)) [
  | inl new ↦ (
    ground (arith, lookup-insert_self name (new_breaker name t c 1) r),
    ground (arith, lookup-insert_self name (new_breaker name t c 1) r),
    ground (arith, lookup-insert_ne name other (new_breaker name t c 1) r ne),
  )
  | inr (b, old) ↦ (ground arith, ground arith, ground arith)
]

abbrev IsFresh : String × CircuitBreaker → Type 0
IsFresh (_, b) = (b.state ≡ closed) × (b.failure_count ≡ 0) × (b.success_count ≡ 0)

reset_all-IsFresh : (r : Breakers) → All IsFresh (reset_all r)
unfolding reset_all
reset_all-IsFresh [] = tt
reset_all-IsFresh (e ∷ r) = ((refl, refl, refl), reset_all-IsFresh r)
