-- ===== src/Core/Metrics.antt =====
-- src/chen/core/pipeline.py: the metrics of a run, and src/chen/core/config.py: the cost model.
-- Rates are in millionths of a dollar per million tokens and costs in millionths of a millionth, so
-- that both are exact; latencies and the entries of memory read are left out.
pub mod Totals
use chen.Common.{
  ℕ, ◌+◌, ◌*◌, ◌/◌, Bool, true, false, not, ◌&&◌, List, [], ◌∷◌, ◌++◌, ltb, eqb, length, keep,
  if◌then◌else◌,
}
use chen.Core.Expert.{ExpertMetrics, Expert}

pub record CostModel : Type 0 where
  pub input_per_1m : ℕ
  pub output_per_1m : ℕ

-- `cost_for` without the tax on parameters, which no pipeline asks for.
unfoldable pub cost_for : CostModel → ℕ → ℕ → ℕ
cost_for c input_tokens output_tokens =
    input_tokens * c.input_per_1m + output_tokens * c.output_per_1m

pub record AggregateMetrics : Type 0 where
  pub expert_metrics : List ExpertMetrics
  pub total_input_tokens : ℕ
  pub total_output_tokens : ℕ
  pub total_params_invoked_m : ℕ
  pub distinct_params_invoked_m : ℕ
  pub total_cost_usd : ℕ
  pub kv_cache_transfers : ℕ
  pub kv_cache_failures : ℕ
  -- A ratio: numerator and denominator.
  pub latent_nuance_score : ℕ × ℕ
  pub cost : CostModel

unfoldable pub new_metrics : CostModel → AggregateMetrics
new_metrics c = record {
  expert_metrics = [];
  total_input_tokens = 0;
  total_output_tokens = 0;
  total_params_invoked_m = 0;
  distinct_params_invoked_m = 0;
  total_cost_usd = 0;
  kv_cache_transfers = 0;
  kv_cache_failures = 0;
  latent_nuance_score = (0, 1);
  cost = c;
}

unfoldable pub one_if : Bool → ℕ
one_if true = 1
one_if false = 0

-- `add`
unfoldable pub add : ExpertMetrics → AggregateMetrics → AggregateMetrics
unfolding one_if cost_for
add m a = record a {
  expert_metrics = a.expert_metrics ++ m ∷ [];
  total_input_tokens = a.total_input_tokens + m.input_tokens;
  total_output_tokens = a.total_output_tokens + m.output_tokens;
  total_params_invoked_m = a.total_params_invoked_m + m.params_m;
  kv_cache_transfers = a.kv_cache_transfers + one_if m.used_kv_cache;
  kv_cache_failures =
      a.kv_cache_failures + one_if (m.used_kv_cache && not m.cache_transfer_succeeded);
  total_cost_usd = a.total_cost_usd + cost_for a.cost m.input_tokens m.output_tokens;
}

unfoldable pub sum_params : List Expert → ℕ
sum_params [] = 0
sum_params (e ∷ es) = e.backend.params_m + sum_params es

-- `finalize`
unfoldable pub finalize : List Expert → AggregateMetrics → AggregateMetrics
unfolding sum_params
finalize distinct_experts a =
    let n_kv_used = length (keep (λ (m : ExpertMetrics). m.used_kv_cache) a.expert_metrics) in
    let n_kv_ok = length (
      keep (λ (m : ExpertMetrics). m.used_kv_cache && m.cache_transfer_succeeded)
        a.expert_metrics) in
    record a {
      distinct_params_invoked_m = sum_params distinct_experts;
      latent_nuance_score = if ltb 0 n_kv_used then (n_kv_ok, n_kv_used) else a.latent_nuance_score;
    }

-- `total_tokens`
unfoldable pub total_tokens : AggregateMetrics → ℕ
total_tokens a = a.total_input_tokens + a.total_output_tokens

-- `epu`, a ratio.
unfoldable pub epu : AggregateMetrics → ℕ × ℕ
epu a =
    if eqb a.total_params_invoked_m 0
    then (0, 1)
    else (a.distinct_params_invoked_m, a.total_params_invoked_m)

unfoldable pub add_each : List ExpertMetrics → AggregateMetrics → AggregateMetrics
unfolding add
add_each [] a = a
add_each (m ∷ ms) a = add_each ms (add m a)
