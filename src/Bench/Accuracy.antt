-- ===== src/Bench/Accuracy.antt =====
-- Grades and accuracies lie between 0 and 1 (src/chen/benchmarks/tasks.py, runner.py).
use chen.Common.{
  ℕ, zero, suc, ◌+◌, ◌*◌, ◌≤◌, ◌≡◌, inl, inr, Text, Bool, true, false, Option, none, some, List, [],
  ◌∷◌, length, All, arith, ltb, if◌then◌else◌,
}
use mathlib.Core.Path.{subst}
use chen.Common.Result.{ok, Result-cases}
use chen.Bench.Ratios.{Ratio, whole, plus, over}
use chen.Bench.CostTarget.{mul_mono, mul_positive}
use chen.Bench.{
  BenchmarkTask, BenchmarkRunner, BenchmarkRunResult, new_result, add_sample, run_samples, report,
  run_task,
}
use chen.Bench.Graders.{
  Strings, half, all_or_nothing, count_in, share, compare_numbers, exact_match_grader,
  numeric_grader, keyword_coverage_grader, mock_friendly_grader, mmlu_grader, humaneval_grader,
  gsm8k_grader,
}

-- A ratio between 0 and `n`.
abbrev pub IsUpTo : ℕ → Ratio → Type 0
IsUpTo n r = (r.num ≤ n * r.den) × (1 ≤ r.den)

zero_grade : IsUpTo 1 (whole 0)
unfolding whole
zero_grade = (omega arith, omega arith)

one_grade : IsUpTo 1 (whole 1)
unfolding whole
one_grade = (omega arith, omega arith)

all_or_nothing-IsUpTo : (right : Bool) → IsUpTo 1 (all_or_nothing right)
unfolding all_or_nothing
all_or_nothing-IsUpTo true = one_grade
all_or_nothing-IsUpTo false = zero_grade

count_in-le : (text : Text) (ws : List Text) → count_in text ws ≤ length ws
unfolding count_in
count_in-le text [] = omega arith
count_in-le text (w ∷ ws) = ground (arith, count_in-le text ws)

half_grade : IsUpTo 1 half
half_grade = (omega arith, omega arith)

choice-IsUpTo :
    (test : Bool) (r t : Ratio) → IsUpTo 1 r → IsUpTo 1 t → IsUpTo 1 (if test then r else t)
choice-IsUpTo true r t h k = h
choice-IsUpTo false r t h k = k

share-IsUpTo :
    (scale : ℕ) (text : Text) (ws : List Text) → 1 ≤ scale → IsUpTo 1 (share scale text ws)
unfolding share
share-IsUpTo scale text [] pos = zero_grade
share-IsUpTo zero text (w ∷ ws) pos = absurd (omega arith)
share-IsUpTo (suc k) text (w ∷ ws) pos =
    let n = length (w ∷ ws) in
    let few = count_in-le text (w ∷ ws) in
    let split : suc k * n ≡ n + k * n = ground arith in
    (omega (arith, few, split), omega (arith, split))

compare_numbers-IsUpTo :
    {N : Type 0} (s : Strings N) (got want : Option N) → IsUpTo 1 (compare_numbers s got want)
unfolding compare_numbers
compare_numbers-IsUpTo s none want = zero_grade
compare_numbers-IsUpTo s (some got) none = zero_grade
compare_numbers-IsUpTo s (some got) (some want) =
    choice-IsUpTo (s.same got want) (whole 1) (if s.near got want then half else whole 0) one_grade
      (choice-IsUpTo (s.near got want) half (whole 0) half_grade zero_grade)

numeric-IsUpTo :
    {N : Type 0} (s : Strings N) (found : List Text) (want : Option N)
    → IsUpTo 1 (elim found [ [] ↦ whole 0 | n ∷ ns ↦ compare_numbers s (s.float n) want ])
numeric-IsUpTo s [] want = zero_grade
numeric-IsUpTo s (n ∷ ns) want = compare_numbers-IsUpTo s (s.float n) want

module _ {N : Type 0} (s : Strings N) (output expected : Text) where
  -- The graders of the tasks that are shipped
  abbrev pub grades : List Ratio
  grades =
      exact_match_grader s output expected
      ∷ numeric_grader s output expected
      ∷ keyword_coverage_grader s output expected
      ∷ mock_friendly_grader s output expected
      ∷ mmlu_grader s output expected
      ∷ humaneval_grader s output expected
      ∷ gsm8k_grader s output expected
      ∷ []

  -- Every grader's grade of every output lies between 0 and 1.
  pub grades-IsUpTo : All (IsUpTo 1) grades
  unfolding exact_match_grader numeric_grader keyword_coverage_grader mock_friendly_grader
      mmlu_grader humaneval_grader gsm8k_grader
  grades-IsUpTo =
      let numeric = numeric-IsUpTo s (s.numbers output) (s.float expected) in
      let one : 1 ≤ 1 = omega arith in
      let two : 1 ≤ 2 = omega arith in
      let keywords = share-IsUpTo 1 (s.lower output) _ one in
      let friendly =
        choice-IsUpTo _ (whole 1) _ one_grade (share-IsUpTo 2 (s.lower output) _ two) in
      let alone = choice-IsUpTo _ half (whole 0) half_grade zero_grade in
      let letter =
        choice-IsUpTo _ (whole 0) _ zero_grade (choice-IsUpTo _ (whole 1) _ one_grade alone) in
      let code = choice-IsUpTo _ (whole 0) _ zero_grade (all_or_nothing-IsUpTo _) in
      let number = choice-IsUpTo _ (whole 0) _ zero_grade (all_or_nothing-IsUpTo _) in
      (all_or_nothing-IsUpTo _, (numeric, (keywords, (friendly, (letter, (code, (number, tt)))))))

plus-IsUpTo : (n : ℕ) (r t : Ratio) → IsUpTo n r → IsUpTo 1 t → IsUpTo (suc n) (plus r t)
unfolding plus
plus-IsUpTo n r t h k =
    let x = mul_mono t.den r.num (n * r.den) h.0 in
    let y = mul_mono r.den t.num (1 * t.den) k.0 in
    (ground (arith, x, y), mul_positive r.den t.den h.1 k.1)

-- The mean of `n` grades
mean-IsUpTo : (n : ℕ) (r : Ratio) → IsUpTo n r → IsUpTo 1 (if ltb 0 n then over r (whole n) else r)
unfolding over whole
mean-IsUpTo zero r h = ground (arith, h)
mean-IsUpTo (suc n) r h =
    let taken : over r (whole (suc n)) ≡ (if ltb 0 (suc n) then over r (whole (suc n)) else r) =
      ground arith in
    let some_left : 1 ≤ suc n = omega arith in
    let low = h.0 in
    subst (IsUpTo 1) taken (ground (arith, low), mul_positive r.den (suc n) h.1 some_left)

module _ {M : Type 0} (b : BenchmarkRunner M) (task : BenchmarkTask) where
  -- A run over samples adds a grade of at most 1 for each.
  run_samples-IsUpTo :
      ((output expected : Text) → IsUpTo 1 (task.grader output expected))
      → (k : ℕ) (samples : List (Text × Text)) (n : ℕ) (r t : BenchmarkRunResult) (s s' : M)
      → IsUpTo n r.avg_accuracy
      → run_samples b task k samples r s ≡ (ok t, s')
      → IsUpTo (n + length samples) t.avg_accuracy
  unfolding run_samples add_sample
  run_samples-IsUpTo graded k [] n r t s s' h done =
      let same : r ≡ t = ground (arith, done) in
      let none_left : n ≡ n + 0 = ground arith in
      subst (λ (x : BenchmarkRunResult). IsUpTo (n + 0) x.avg_accuracy) same
        (subst (λ k. IsUpTo k r.avg_accuracy) none_left h)
  run_samples-IsUpTo graded k ((prompt, expected) ∷ rest) n r t s s' h done =
      elim (Result-cases (b.run prompt (some k) s).0) [
        | inr (x, failed) ↦ absurd (ground (arith, failed, done))
        | inl (pr, ran) ↦
            let score = task.grader pr.output expected in
            let next = add_sample b task prompt expected pr r in
            let more = plus-IsUpTo n r.avg_accuracy score h (graded pr.output expected) in
            let ih =
              run_samples-IsUpTo graded k rest (suc n) next t (b.run prompt (some k) s).1 s' more
                (ground (arith, ran, done)) in
            let moved : suc n + length rest ≡ n + suc (length rest) = ground arith in
            subst (λ k. IsUpTo k t.avg_accuracy) moved ih
      ]

  -- Where every grade lies between 0 and 1, so does the accuracy of a run that returns.
  pub accuracy-IsUpTo :
      ((output expected : Text) → IsUpTo 1 (task.grader output expected))
      → (k : ℕ) (s s' : M) (t : BenchmarkRunResult) → run_task b task k s ≡ (ok t, s')
      → IsUpTo 1 t.avg_accuracy
  unfolding run_task report new_result over whole
  accuracy-IsUpTo graded k s s' t done =
      elim (Result-cases (run_samples b task k task.samples (new_result task.name) s).0) [
        | inr (x, failed) ↦ absurd (ground (arith, failed, done))
        | inl (r, ran) ↦
            let last = (run_samples b task k task.samples (new_result task.name) s).1 in
            let pair : run_samples b task k task.samples (new_result task.name) s ≡ (ok r, last) =
              ground (arith, ran) in
            let sum =
              run_samples-IsUpTo graded k task.samples 0 (new_result task.name) r s last
                (omega arith, omega arith) pair in
            let all_of_them : 0 + length task.samples ≡ length task.samples = ground arith in
            let same : report b task r ≡ t = ground (arith, done, ran) in
            subst (λ (x : BenchmarkRunResult). IsUpTo 1 x.avg_accuracy) same
              (mean-IsUpTo (length task.samples) r.avg_accuracy
                (subst (λ n. IsUpTo n r.avg_accuracy) all_of_them sum))
      ]
