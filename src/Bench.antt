-- ===== src/Bench.antt =====
-- src/chen/benchmarks/kpis.py and src/chen/benchmarks/runner.py, with exact ratios in place of
-- floats. Costs are in the unit of the metrics of a run, latencies in a unit of the clock. The
-- pipeline is its `run`, with a state `M` of its own; texts of reports are left out.
pub mod Ratios
pub mod CostTarget
pub mod Graders
pub mod Accuracy
mod Examples
use chen.Common.{
  ℕ, ◌+◌, ◌-◌, ◌*◌, max, Text, String, Bool, true, false, Option, none, some, List, [], ◌∷◌, ◌++◌,
  ltb, leb, length, if◌then◌else◌,
}
use chen.Common.Result.{Result, ok, raised}
use chen.Bench.Ratios.{
  Ratio, Signed, whole, plus, times, over, is_positive, at_least, minus, scale, reduction,
  at_least_pct, per,
}
use chen.Core.Expert.{CoreError}
use chen.Core.Metrics.{CostModel, cost_for, total_tokens}
use chen.Core.Pipeline.{PipelineResult}
use chen.Store.{ℤ, pos, negsuc}

pub record BaselineMetrics : Type 0 where
  pub params_m : ℕ
  pub input_tokens : ℕ
  pub output_tokens : ℕ
  pub latency_ms : Ratio
  pub accuracy : Ratio

pub record Kpis : Type 0 where
  pub cost : CostModel
  pub epu_target : Ratio
  pub cost_reduction_target_pct : ℕ

pub record KpiReport : Type 0 where
  pub chen_cost_per_1m : Ratio
  pub chen_latency_ms : Ratio
  pub chen_accuracy : Ratio
  pub chen_params_invoked_m : ℕ
  pub chen_distinct_params_m : ℕ
  pub baseline_cost_per_1m : Ratio
  pub baseline_latency_ms : Ratio
  pub baseline_accuracy : Ratio
  pub baseline_params_m : ℕ
  pub epu : Ratio
  pub cost_reduction_pct : Signed
  pub latency_to_accuracy : Ratio
  pub baseline_latency_to_accuracy : Ratio
  pub cost_target_met : Bool
  pub epu_target_met : Bool
  pub latency_target_met : Bool

-- `compute`
unfoldable pub compute : Kpis → ℕ → ℕ → Ratio → Ratio → ℕ → ℕ → BaselineMetrics → ℕ → KpiReport
unfolding per over whole is_positive reduction at_least at_least_pct
compute k chen_total_tokens chen_total_cost_usd chen_latency_ms chen_accuracy params distinct
      baseline n_queries =
    let q = whole (max 1 n_queries) in
    let chen_tokens_per_q = over (whole chen_total_tokens) q in
    let chen_cost_per_q = over (whole chen_total_cost_usd) q in
    let chen_cost_per_1m = per chen_cost_per_q chen_tokens_per_q 1000000 in
    let chen_latency_per_q = over chen_latency_ms q in
    let baseline_tokens = whole (baseline.input_tokens + baseline.output_tokens) in
    let baseline_cost_per_q =
      whole (cost_for k.cost baseline.input_tokens baseline.output_tokens) in
    let baseline_cost_per_1m = per baseline_cost_per_q baseline_tokens 1000000 in
    let epu = per (whole baseline.params_m) (whole distinct) 1 in
    let cost_reduction_pct : Signed =
      if is_positive baseline_cost_per_1m
      then reduction baseline_cost_per_1m chen_cost_per_1m
      else record { num = pos 0; den = 1 } in
    let lta = per chen_accuracy chen_latency_per_q 1000 in
    let baseline_lta = per baseline.accuracy baseline.latency_ms 1000 in
    record {
      chen_cost_per_1m = chen_cost_per_1m;
      chen_latency_ms = chen_latency_per_q;
      chen_accuracy = chen_accuracy;
      chen_params_invoked_m = params;
      chen_distinct_params_m = distinct;
      baseline_cost_per_1m = baseline_cost_per_1m;
      baseline_latency_ms = baseline.latency_ms;
      baseline_accuracy = baseline.accuracy;
      baseline_params_m = baseline.params_m;
      epu = epu;
      cost_reduction_pct = cost_reduction_pct;
      latency_to_accuracy = lta;
      baseline_latency_to_accuracy = baseline_lta;
      cost_target_met = at_least_pct cost_reduction_pct k.cost_reduction_target_pct;
      epu_target_met = at_least epu k.epu_target;
      latency_target_met = at_least lta baseline_lta;
    }

pub record BenchmarkTask : Type 0 where
  pub name : String
  pub samples : List (Text × Text)
  pub grader : Text → Text → Ratio

pub record BenchmarkRunResult : Type 0 where
  pub task_name : String
  pub per_sample : List (Text × Text × Ratio × PipelineResult)
  pub avg_accuracy : Ratio
  pub total_tokens : ℕ
  pub total_cost_usd : ℕ
  pub total_latency_ms : Ratio
  pub params_invoked_m : ℕ
  pub distinct_params_m : ℕ
  pub kpi_report : Option KpiReport

unfoldable pub new_result : String → BenchmarkRunResult
unfolding whole
new_result name = record {
  task_name = name;
  per_sample = [];
  avg_accuracy = whole 0;
  total_tokens = 0;
  total_cost_usd = 0;
  total_latency_ms = whole 0;
  params_invoked_m = 0;
  distinct_params_m = 0;
  kpi_report = none;
}

pub record BenchmarkRunner (M : Type 0) : Type 0 where
  pub run : Text → Option ℕ → M → Result CoreError PipelineResult × M
  pub latency : PipelineResult → Ratio
  pub baseline : BaselineMetrics
  pub kpis : Kpis

module _ {M : Type 0} where
  -- What one sample adds.
  unfoldable pub add_sample :
      BenchmarkRunner M
      → BenchmarkTask
      → Text
      → Text
      → PipelineResult
      → BenchmarkRunResult
      → BenchmarkRunResult
  unfolding plus
  add_sample b task prompt expected pr r =
      let score = task.grader pr.output expected in
      record r {
        per_sample = r.per_sample ++ (prompt, expected, score, pr) ∷ [];
        avg_accuracy = plus r.avg_accuracy score;
        total_tokens = r.total_tokens + total_tokens pr.metrics;
        total_cost_usd = r.total_cost_usd + pr.metrics.total_cost_usd;
        total_latency_ms = plus r.total_latency_ms (b.latency pr);
        params_invoked_m = r.params_invoked_m + pr.metrics.total_params_invoked_m;
        distinct_params_m = pr.metrics.distinct_params_invoked_m;
      }

  unfoldable pub run_samples :
      BenchmarkRunner M
      → BenchmarkTask
      → ℕ
      → List (Text × Text)
      → BenchmarkRunResult
      → M
      → Result CoreError BenchmarkRunResult × M
  unfolding add_sample
  run_samples b task max_tokens [] r s = (ok r, s)
  run_samples b task max_tokens ((prompt, expected) ∷ rest) r s =
      let done = b.run prompt (some max_tokens) s in
      elim done.0 [
        | raised x ↦ (raised x, done.1)
        | ok pr ↦ run_samples b task max_tokens rest (add_sample b task prompt expected pr r) done.1
      ]

  -- The end of `run_task`.
  unfoldable pub report :
      BenchmarkRunner M → BenchmarkTask → BenchmarkRunResult → BenchmarkRunResult
  unfolding compute over whole
  report b task r =
      let n = length task.samples in
      let accuracy = if ltb 0 n then over r.avg_accuracy (whole n) else r.avg_accuracy in
      record r {
        avg_accuracy = accuracy;
        kpi_report = some (
            compute b.kpis r.total_tokens r.total_cost_usd r.total_latency_ms accuracy
              r.params_invoked_m r.distinct_params_m b.baseline n);
      }

  -- `run_task`
  unfoldable pub run_task :
      BenchmarkRunner M → BenchmarkTask → ℕ → M → Result CoreError BenchmarkRunResult × M
  unfolding run_samples report new_result
  run_task b task max_tokens s =
      let done = run_samples b task max_tokens task.samples (new_result task.name) s in
      elim done.0 [ raised x ↦ (raised x, done.1) | ok r ↦ (ok (report b task r), done.1) ]
