-- ===== src/Core/Metrics/Totals.antt =====
-- The totals of a run against its list of metrics (src/chen/core/pipeline.py).
use chen.Common.{
  append-nil, append_assoc, ℕ, ◌+◌, ◌*◌, ◌≤◌, ap, ◌∙◌, Text, false, not, ◌&&◌, ◌≡◌, refl, ◌⊎◌,
  Option, List, [], ◌∷◌, ◌++◌, arith, All, keep, length,
}
use chen.Core.Expert.{Expert, ExpertMetrics, KvCache}
use chen.Core.Expert.Invoke.{IsFrom, used_succeeded}
use chen.Core.Metrics.{
  CostModel, AggregateMetrics, new_metrics, add, add_each, finalize, cost_for, one_if,
}

-- The metrics of some invocation of some expert.
abbrev pub IsRecorded : ExpertMetrics → Type 0
IsRecorded m =
    (e : Expert) × (prompt : Option Text) × (cache : Option KvCache) × IsFrom e prompt cache m

recorded-flags :
    (m : ExpertMetrics) → IsRecorded m → (m.used_kv_cache && not m.cache_transfer_succeeded) ≡ false
recorded-flags m (e, prompt, cache, h) = ground (arith, used_succeeded e prompt cache m h)

add_each-failures :
    (ms : List ExpertMetrics) (a : AggregateMetrics)
    → All IsRecorded ms
    → (add_each ms a).kv_cache_failures ≡ a.kv_cache_failures
unfolding add_each add one_if
add_each-failures [] a h = refl
add_each-failures (m ∷ ms) a h =
    ground (arith, add_each-failures ms (add m a) h.1, recorded-flags m h.0)

add_each-metrics :
    (ms : List ExpertMetrics) (a : AggregateMetrics)
    → (add_each ms a).expert_metrics ≡ a.expert_metrics ++ ms
unfolding add_each add
add_each-metrics [] a = ground (arith, append-nil a.expert_metrics)
add_each-metrics (m ∷ ms) a =
    ground (arith, add_each-metrics ms (add m a), append_assoc a.expert_metrics (m ∷ []) ms)

keep_same :
    (ms : List ExpertMetrics)
    → All IsRecorded ms
    → keep (λ (m : ExpertMetrics). m.used_kv_cache && m.cache_transfer_succeeded) ms
      ≡ keep (λ (m : ExpertMetrics). m.used_kv_cache) ms
keep_same [] h = refl
keep_same (m ∷ ms) h = ground (arith, keep_same ms h.1, recorded-flags m h.0)

add_each-nuance :
    (ms : List ExpertMetrics) (a : AggregateMetrics)
    → (add_each ms a).latent_nuance_score ≡ a.latent_nuance_score
unfolding add_each add
add_each-nuance [] a = refl
add_each-nuance (m ∷ ms) a = add_each-nuance ms (add m a)

-- Whatever invocations a run records, whether their caches were moved or not, no failed transfer
-- is counted, and the nuance score is 1 if an expert used a cache and 0 if none did.
pub failures_uncounted :
    (c : CostModel) (ms : List ExpertMetrics) (es : List Expert)
    → All IsRecorded ms
    → ((finalize es (add_each ms (new_metrics c))).kv_cache_failures ≡ 0)
      × (((finalize es (add_each ms (new_metrics c))).latent_nuance_score ≡ (0, 1))
          ⊎ ((finalize es (add_each ms (new_metrics c))).latent_nuance_score.0
              ≡ (finalize es (add_each ms (new_metrics c))).latent_nuance_score.1))
unfolding finalize new_metrics
failures_uncounted c ms es h = (
  add_each-failures ms (new_metrics c) h,
  ground (
    arith,
    add_each-nuance ms (new_metrics c),
    add_each-metrics ms (new_metrics c),
    keep_same ms h,
  ),
)

linear : (a b c d i o : ℕ) → (a * i + b * o) + (c * i + d * o) ≡ (a + c) * i + (b + d) * o
linear a b c d i o = omega arith

add_each-costs :
    (ms : List ExpertMetrics) (a : AggregateMetrics)
    → a.total_cost_usd ≡ cost_for a.cost a.total_input_tokens a.total_output_tokens
    → (add_each ms a).total_cost_usd
      ≡ cost_for a.cost (add_each ms a).total_input_tokens (add_each ms a).total_output_tokens
unfolding add_each add
add_each-costs [] a h = h
add_each-costs (m ∷ ms) a h = add_each-costs ms (add m a) (
    ap (λ t. t + cost_for a.cost m.input_tokens m.output_tokens) h
    ∙ unfold cost_for in
      linear a.total_input_tokens a.total_output_tokens m.input_tokens m.output_tokens
        a.cost.input_per_1m a.cost.output_per_1m)

transfers_bound :
    (ms : List ExpertMetrics) (a : AggregateMetrics)
    → (add_each ms a).kv_cache_transfers ≤ a.kv_cache_transfers + length ms
unfolding add_each add one_if
transfers_bound [] a = omega arith
transfers_bound (m ∷ ms) a = ground (arith, transfers_bound ms (add m a))

-- The cost of a run is the cost of its total tokens, and no more caches are counted as moved
-- than experts were invoked.
pub total_cost :
    (c : CostModel) (ms : List ExpertMetrics) (es : List Expert)
    → ((finalize es (add_each ms (new_metrics c))).total_cost_usd
        ≡ cost_for c
            (finalize es (add_each ms (new_metrics c))).total_input_tokens
            (finalize es (add_each ms (new_metrics c))).total_output_tokens)
      × ((finalize es (add_each ms (new_metrics c))).kv_cache_transfers ≤ length ms)
unfolding finalize new_metrics
total_cost c ms es = (
  add_each-costs ms (new_metrics c) (unfold cost_for in omega arith),
  ground (arith, transfers_bound ms (new_metrics c)),
)
