-- ===== src/Bench/CostTarget.antt =====
-- The cost target of the KPIs (src/chen/benchmarks/kpis.py).
use chen.Common.{
  ℕ, zero, suc, ◌*◌, ◌≤◌, max, Text, false, ◌≡◌, sym, ap, ◌∙◌, inl, inr, Option, some, List, [],
  ◌∷◌, ltb, leb, length, arith, if◌then◌else◌, Bool-cases,
}
use chen.Common.Result.{ok, Result-cases}
use chen.Core.Metrics.{CostModel, cost_for, total_tokens}
use chen.Core.Pipeline.{PipelineResult}
use chen.Bench.Ratios.{
  Ratio, whole, times, over, is_positive, minus, scale, reduction, at_least_pct, per,
}
use chen.Bench.{
  BaselineMetrics, Kpis, KpiReport, BenchmarkTask, BenchmarkRunner, BenchmarkRunResult, compute,
  add_sample, run_samples, report, new_result, run_task,
}

-- The defaults of `CostModel`, `BaselineMetrics` and `KPIs`.
unfoldable pub default_rates : CostModel
default_rates = record { input_per_1m = 150000; output_per_1m = 600000 }

unfoldable pub default_baseline : BaselineMetrics
default_baseline = record {
  params_m = 70000;
  input_tokens = 200;
  output_tokens = 300;
  latency_ms = record { num = 1500; den = 1 };
  accuracy = record { num = 85; den = 100 };
}

unfoldable pub default_kpis : Kpis
unfolding default_rates
default_kpis = record {
  cost = default_rates;
  epu_target = record { num = 3; den = 1 };
  cost_reduction_target_pct = 80;
}

-- A cost per token of at least `k`.
unfoldable pub CostsAtLeast : ℕ → ℕ → ℕ → Type 0
CostsAtLeast k tokens cost = k * tokens ≤ cost

pub mul_mono : (q a b : ℕ) → a ≤ b → q * a ≤ q * b
mul_mono zero a b h = ground arith
mul_mono (suc q) a b h = ground (arith, mul_mono q a b h)

pub mul_positive : (q a : ℕ) → 1 ≤ q → 1 ≤ a → 1 ≤ q * a
mul_positive q a h k = ground (arith, mul_mono q 1 a k, h)

target_missed :
    (c : Ratio)
    → 1 ≤ c.den
    → 150000 * 1000000 * c.den ≤ c.num
    → at_least_pct (reduction (record { num = 210000000000000; den = 500 }) c) 80 ≡ false
unfolding at_least_pct reduction minus scale
target_missed c some_tokens dear = elim (Bool-cases (leb (c.num * 500) (210000000000000 * c.den))) [
  | inl cheaper ↦ ground (arith, cheaper, some_tokens, dear)
  | inr dearer ↦ ground (arith, dearer, some_tokens, dear)
]

chen_cost :
    (q tokens cost : ℕ)
    → 1 ≤ q
    → 1 ≤ tokens
    → 150000 * tokens ≤ cost
    → (c : Ratio) × (per (over (whole cost) (whole q)) (over (whole tokens) (whole q)) 1000000 ≡ c)
      × (1 ≤ c.den)
      × (150000 * 1000000 * c.den ≤ c.num)
unfolding per over whole is_positive times
chen_cost q tokens cost some_queries some_tokens dear =
    let y = mul_positive q tokens some_queries some_tokens in
    let z = mul_mono q (150000 * tokens) cost dear in
    (
      record { num = cost * 1 * (1 * q) * 1000000; den = 1 * q * (tokens * 1) * 1 },
      ground (arith, some_tokens),
      ground (arith, y),
      ground (arith, z),
    )

-- With the default rates, baseline and targets no run that counts a token, and that costs what its
-- tokens cost, meets the cost target, whatever the number of queries is.
cost_target_unmet :
    (tokens cost : ℕ) (latency accuracy : Ratio) (params distinct n : ℕ)
    → 1 ≤ tokens
    → 150000 * tokens ≤ cost
    → (compute default_kpis tokens cost latency accuracy params distinct default_baseline
        n).cost_target_met
      ≡ false
unfolding compute default_kpis default_baseline cost_for per over whole times is_positive
cost_target_unmet tokens cost latency accuracy params distinct n some_tokens dear =
    let (c, is, den, num) = chen_cost (max 1 n) tokens cost (omega arith) some_tokens dear in
    let missed = target_missed c den num in
    ap (λ x. at_least_pct (reduction (record { num = 210000000000000; den = 500 }) x) 80) is
    ∙ missed

module _ {M : Type 0} (b : BenchmarkRunner M) (task : BenchmarkTask) (max_tokens : ℕ) where
  -- Runs cost what their tokens cost at the default rates.
  abbrev IsPriced : Type 0
  IsPriced =
      (prompt : Text) (k : Option ℕ) (s : M) (pr : PipelineResult)
      → (b.run prompt k s).0 ≡ ok pr
      → pr.metrics.total_cost_usd
        ≡ cost_for default_rates pr.metrics.total_input_tokens pr.metrics.total_output_tokens

  run_samples-dear :
      (samples : List (Text × Text)) (r : BenchmarkRunResult) (s : M) (r' : BenchmarkRunResult)
      → IsPriced
      → 150000 * r.total_tokens ≤ r.total_cost_usd
      → (run_samples b task max_tokens samples r s).0 ≡ ok r'
      → 150000 * r'.total_tokens ≤ r'.total_cost_usd
  unfolding run_samples add_sample cost_for default_rates total_tokens
  run_samples-dear [] r s r' priced dear h = ground (arith, dear, h)
  run_samples-dear ((prompt, expected) ∷ rest) r s r' priced dear h =
      elim (Result-cases (b.run prompt (some max_tokens) s).0) [
        | inr (x, raises) ↦ absurd (ground (arith, raises, h))
        | inl (pr, ran) ↦
            let price = priced prompt (some max_tokens) s pr ran in
            run_samples-dear rest (add_sample b task prompt expected pr r)
              (b.run prompt (some max_tokens) s).1 r' priced (ground (arith, price, dear))
              (ground (arith, ran, h))
      ]

-- With the default rates, baseline and targets, a benchmark of a pipeline whose runs cost what
-- their tokens cost reports that the cost target is missed, whatever the pipeline, the task and its
-- grader are, as soon as a token is counted.
pub default_target_unmet :
    {M : Type 0} (b : BenchmarkRunner M) (task : BenchmarkTask) (max_tokens : ℕ) (s : M)
    (r : BenchmarkRunResult)
    → b.kpis ≡ default_kpis
    → b.baseline ≡ default_baseline
    → IsPriced b task max_tokens
    → (run_task b task max_tokens s).0 ≡ ok r
    → 1 ≤ r.total_tokens
    → (k : KpiReport) × (r.kpi_report ≡ some k) × (k.cost_target_met ≡ false)
unfolding run_task report new_result
default_target_unmet b task max_tokens s r kpis baseline priced h some_tokens =
    elim (Result-cases (run_samples b task max_tokens task.samples (new_result task.name) s).0) [
      | inr (x, raises) ↦ absurd (ground (arith, raises, h))
      | inl (r', ran) ↦
          let dear =
            run_samples-dear b task max_tokens task.samples (new_result task.name) s r' priced
              (omega arith) ran in
          let n = length task.samples in
          let accuracy = if ltb 0 n then over r'.avg_accuracy (whole n) else r'.avg_accuracy in
          let same : report b task r' ≡ r = ground (arith, ran, h) in
          let counted : r'.total_tokens ≡ r.total_tokens =
            ap (λ (x : BenchmarkRunResult). x.total_tokens) same in
          let unmet =
            cost_target_unmet r'.total_tokens r'.total_cost_usd r'.total_latency_ms accuracy
              r'.params_invoked_m r'.distinct_params_m n (ground (arith, counted, some_tokens))
              dear in
          (
            compute b.kpis r'.total_tokens r'.total_cost_usd r'.total_latency_ms accuracy
                r'.params_invoked_m r'.distinct_params_m b.baseline n,
            sym (ap (λ (x : BenchmarkRunResult). x.kpi_report) same),
            rw (kpis, baseline) unmet,
          )
    ]
