-- ===== src/Bench/Examples.antt =====
-- A benchmark at concrete inputs.
use chen.Common.{
  occurs_in, ◌==◌, text_key, codes_key, ℕ, ◌+◌, Text, codes, false, ◌≡◌, refl, sym, ap, ◌∙◌, none,
  some, [], ◌∷◌, arith,
}
use chen.Common.Result.{ok}
use chen.Core.Metrics.{AggregateMetrics, cost_for, total_tokens}
use chen.Core.Pipeline.{PipelineResult}
use chen.Bench.Ratios.{whole}
use chen.Bench.{
  KpiReport, BenchmarkTask, BenchmarkRunner, BenchmarkRunResult, run_task, run_samples, report,
  new_result, add_sample,
}
use chen.Bench.Graders.{Strings, exact_match_grader}
use chen.Bench.Accuracy.{IsUpTo, grades-IsUpTo, accuracy-IsUpTo}
use chen.Bench.CostTarget.{default_rates, default_baseline, default_kpis, default_target_unmet}

abbrev metrics : AggregateMetrics
metrics = record {
  expert_metrics = [];
  total_input_tokens = 2;
  total_output_tokens = 1;
  total_params_invoked_m = 7;
  distinct_params_invoked_m = 7;
  total_cost_usd = 900000;
  kv_cache_transfers = 0;
  kv_cache_failures = 0;
  latent_nuance_score = (0, 1);
  cost = default_rates;
}

abbrev answered : Text → PipelineResult
answered prompt = record {
  output = prompt;
  metrics = metrics;
  per_expert = [];
  selected_experts = [];
}

abbrev runner : BenchmarkRunner ℕ
runner = record {
  run = λ prompt k n. (ok (answered prompt), n + 1);
  latency = λ pr. whole 5;
  baseline = default_baseline;
  kpis = default_kpis;
}

abbrev task : BenchmarkTask
task = record {
  name = "qa";
  samples = (codes "hi", codes "ho") ∷ (codes "17 + 25", codes "42") ∷ [];
  grader = λ output expected. whole 1;
}

inner :
    (prompt : Text) (pr : PipelineResult)
    → (runner.run prompt none 0).0 ≡ ok pr
    → answered prompt ≡ pr
inner prompt pr h = ground (arith, h)

result : BenchmarkRunResult
unfolding report run_samples add_sample new_result total_tokens
result = report runner task (
    add_sample runner task (codes "17 + 25") (codes "42") (answered (codes "17 + 25"))
      (add_sample runner task (codes "hi") (codes "ho") (answered (codes "hi")) (new_result "qa")))

default_target_unmet_example :
    (k : KpiReport) × (result.kpi_report ≡ some k) × (k.cost_target_met ≡ false)
unfolding result run_task run_samples report add_sample new_result total_tokens cost_for
    default_rates
default_target_unmet_example =
    default_target_unmet runner task 64 0 result refl refl
      (λ prompt k s pr h.
        ap (λ (x : PipelineResult). x.metrics.total_cost_usd) (sym (inner prompt pr h))
        ∙ ap
            (λ (x : PipelineResult).
              cost_for default_rates x.metrics.total_input_tokens x.metrics.total_output_tokens)
            (inner prompt pr h))
      refl (omega arith)

-- Texts without blanks and of lower case, where a number is its own text
abbrev strings : Strings Text
strings = record {
  lower = λ t. t;
  upper = λ t. t;
  strip = λ t. t;
  fields = λ t. t ∷ [];
  words = λ t. t ∷ [];
  numbers = λ t. t ∷ [];
  plain_numbers = λ t. t ∷ [];
  answers = λ letter t. false;
  alone = λ letter t. occurs_in letter t;
  float = λ t. some t;
  same = λ x y. x == y;
  near = λ x y. false;
}

abbrev graded_task : BenchmarkTask
graded_task = record task { grader = exact_match_grader strings }

graded_result : BenchmarkRunResult
unfolding report run_samples add_sample new_result total_tokens
graded_result = report runner graded_task (
    add_sample runner graded_task (codes "17 + 25") (codes "42") (answered (codes "17 + 25")) (
      add_sample runner graded_task (codes "hi") (codes "ho") (answered (codes "hi"))
        (new_result "qa")))

accuracy-IsUpTo_example : IsUpTo 1 graded_result.avg_accuracy
unfolding graded_result run_task run_samples report add_sample new_result total_tokens
accuracy-IsUpTo_example =
    accuracy-IsUpTo runner graded_task
      (λ output expected. (grades-IsUpTo strings output expected).0) 64 0 2 graded_result refl
