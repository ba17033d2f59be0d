-- ===== src/Bench/Graders.antt =====
-- The graders of src/chen/benchmarks/tasks.py, with exact ratios for their grades, the registry of the
-- tasks and `run_all` of src/chen/benchmarks/runner.py.
use chen.Common.{
  ℕ, ◌+◌, ◌*◌, Text, String, Bool, true, Option, none, some, List, [], ◌∷◌, ltb, length, map, keep,
  any, last?, if◌then◌else◌, ◌==◌, text_key, codes_key, occurs_in, split_at, without,
}
use chen.Common.Dict.{Dict, lookup, insert}
use chen.Common.Result.{Result, ok, raised, ◌>>=◌}
use chen.Core.Expert.{CoreError, key_error}
use chen.Bench.Ratios.{Ratio, whole}
use chen.Bench.{BenchmarkTask, BenchmarkRunner, BenchmarkRunResult, run_task}

-- `str.lower`, `str.upper`, `str.strip` and `str.split()`; `words`, `numbers` and `plain_numbers` are
-- what the regular expressions find, `answers` says whether one of the four patterns of an answer
-- is found, and `alone` whether the word is, of an expected answer that is no faulty pattern. `N` stands for floats: `same` is a difference below
-- 1e-9, and `near` one of 5% of a number that is not 0.
pub record Strings (N : Type 0) : Type 0 where
  pub lower : Text → Text
  pub upper : Text → Text
  pub strip : Text → Text
  pub fields : Text → List Text
  pub words : Text → List Text
  pub numbers : Text → List Text
  pub plain_numbers : Text → List Text
  pub answers : Text → Text → Bool
  pub alone : Text → Text → Bool
  pub float : Text → Option N
  pub same : N → N → Bool
  pub near : N → N → Bool

abbrev pub half : Ratio
half = record { num = 1; den = 2 }

unfoldable pub all_or_nothing : Bool → Ratio
unfolding whole
all_or_nothing right = if right then whole 1 else whole 0

-- The number of words that occur in a text
unfoldable pub count_in : Text → List Text → ℕ
unfolding occurs_in
count_in text [] = 0
count_in text (w ∷ ws) = (if occurs_in w text then 1 else 0) + count_in text ws

-- `found / len(words)` in parts of `1 / scale`
unfoldable pub share : ℕ → Text → List Text → Ratio
unfolding count_in whole
share scale text [] = whole 0
share scale text (w ∷ ws) = record { num = count_in text (w ∷ ws); den = scale * length (w ∷ ws) }

unfoldable pub compare_numbers : {N : Type 0} → Strings N → Option N → Option N → Ratio
unfolding whole
compare_numbers s none want = whole 0
compare_numbers s (some got) none = whole 0
compare_numbers s (some got) (some want) =
    if s.same got want then whole 1 else if s.near got want then half else whole 0

module _ {N : Type 0} (s : Strings N) where
  unfoldable pub exact_match_grader : Text → Text → Ratio
  unfolding all_or_nothing
  exact_match_grader output expected =
      all_or_nothing (occurs_in (s.lower (s.strip expected)) (s.lower (s.strip output)))

  unfoldable pub numeric_grader : Text → Text → Ratio
  unfolding compare_numbers whole
  numeric_grader output expected = elim (s.numbers output) [
    | [] ↦ whole 0
    | n ∷ ns ↦ compare_numbers s (s.float n) (s.float expected)
  ]

  unfoldable pub keyword_coverage_grader : Text → Text → Ratio
  unfolding share split_at
  keyword_coverage_grader output expected =
      let parts = keep (λ k. ltb 0 (length (s.strip k))) (split_at 44 expected) in
      share 1 (s.lower output) (map (λ k. s.lower (s.strip k)) parts)

  unfoldable pub mock_friendly_grader : Text → Text → Ratio
  unfolding share whole
  mock_friendly_grader output expected =
      if occurs_in (s.lower (s.strip expected)) (s.lower (s.strip output))
      then whole 1
      else share 2 (s.lower output) (keep (λ w. ltb 3 (length w)) (s.words (s.lower expected)))

  unfoldable pub mmlu_grader : Text → Text → Ratio
  unfolding whole
  mmlu_grader output expected =
      let letter = s.upper (s.strip expected) in
      let out = s.upper output in
      if letter == []
      then whole 0
      else if s.answers letter out
      then whole 1
      else if s.alone letter out
      then half
      else whole 0

  unfoldable pub humaneval_grader : Text → Text → Ratio
  unfolding all_or_nothing whole
  humaneval_grader output expected =
      if s.strip expected == []
      then whole 0
      else all_or_nothing (occurs_in (s.strip expected) output)

  unfoldable pub gsm8k_grader : Text → Text → Ratio
  unfolding all_or_nothing whole without
  gsm8k_grader output expected =
      let answer = s.strip expected in
      let target : Text = elim (last? (s.fields (without 44 answer))) [
        | none ↦ answer
        | some n ↦ n
      ] in
      if answer == []
      then whole 0
      else all_or_nothing (
          if any (λ n. n == target) (s.plain_numbers (without 44 output))
          then true
          else occurs_in target output)

-- `register_task`
unfoldable pub register_task : BenchmarkTask → Dict String BenchmarkTask → Dict String BenchmarkTask
register_task task registry = insert task.name task registry

module _ {M : Type 0} (b : BenchmarkRunner M) where
  -- `run_task` of a name
  unfoldable pub run_named :
      Dict String BenchmarkTask → String → ℕ → M → Result CoreError BenchmarkRunResult × M
  unfolding run_task
  run_named registry name max_tokens state = elim (lookup name registry) [
    | none ↦ (raised key_error, state)
    | some task ↦ run_task b task max_tokens state
  ]

  run_names :
      Dict String BenchmarkTask
      → List String
      → ℕ
      → M
      → Result CoreError (List BenchmarkRunResult) × M
  unfolding run_named
  run_names registry [] max_tokens state = (ok [], state)
  run_names registry (name ∷ names) max_tokens state =
      let first = run_named registry name max_tokens state in
      elim first.0 [
        | raised x ↦ (raised x, first.1)
        | ok r ↦
            let rest = run_names registry names max_tokens first.1 in
            (rest.0 >>= (λ rs. ok (r ∷ rs)), rest.1)
      ]

  -- `run_all`
  unfoldable pub run_all :
      Dict String BenchmarkTask → ℕ → M → Result CoreError (List BenchmarkRunResult) × M
  unfolding run_names
  run_all registry max_tokens state = run_names registry (map (λ e. e.0) registry) max_tokens state
