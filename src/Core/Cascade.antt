-- ===== src/Core/Cascade.antt =====
-- src/chen/phases/phase1_cascade.py: experts one after the other, each with the text of the one
-- before. `clock n` is the time when an entry is written with `n` experts left to invoke.
pub mod Runs
mod Examples
use chen.Common.{
  ℕ, suc, Text, String, codes, Bool, true, false, not, Option, none, some, List, [], ◌∷◌, ◌++◌, ltb,
  length, map, if◌then◌else◌, ◌==◌, text_key,
}
use chen.Common.Result.{Result, ok, raised, ◌>>=◌}
use chen.Common.Dict.{Dict, lookup, insert}
use chen.Memory.{MemoryEntry, Embedder, InMemoryMemory}
use chen.Memory
use chen.Core.Expert.{CoreError, value_error, key_error, KvCache, Expert, ExpertMetrics, invoke}
use chen.Core.Metrics.{CostModel, AggregateMetrics, new_metrics, add, finalize}
use chen.Core.Router.{value}
use chen.Core.Pipeline.{
  by_name, get_expert, missing, invoke_expert, note, noted, confidence_at, popped, PipelineResult,
  experts_of,
}

pub record CascadePipeline : Type 0 where
  pub experts : List Expert
  pub sequence : List String
  pub max_tokens_per_expert : ℕ
  pub write_intermediate_to_memory : Bool
  pub memory_retrieve_k : ℕ
  pub cost : CostModel

-- `__post_init__`
unfoldable pub new_cascade : CascadePipeline → Result CoreError CascadePipeline
unfolding missing
new_cascade c = elim c.experts [
  | [] ↦ raised value_error
  | e ∷ es ↦
      let sequence : List String = elim c.sequence [
        | [] ↦ map (λ (f : Expert). f.name) (e ∷ es)
        | n ∷ ns ↦ n ∷ ns
      ] in
      if missing sequence (by_name (e ∷ es) [])
      then raised value_error
      else ok (record c { sequence = sequence })
]

-- The loop of `run`: the last text and the metrics. The option is the argument `max_tokens`, which
-- the first round takes out of `kwargs`.
unfoldable pub run_loop :
    Embedder
    → (ℕ → ℕ)
    → CascadePipeline
    → List String
    → Option ℕ
    → Text
    → AggregateMetrics
    → InMemoryMemory
    → Result CoreError (Text × AggregateMetrics) × InMemoryMemory
unfolding noted note confidence_at popped
run_loop p clock c [] max_tokens text metrics memory = (ok (text, metrics), memory)
run_loop p clock c (n ∷ ns) max_tokens text metrics memory = elim (get_expert n c.experts) [
  | raised x ↦ (raised x, memory)
  | ok e ↦
      let done =
        invoke_expert p e text (popped max_tokens c.max_tokens_per_expert) c.memory_retrieve_k
          memory in
      elim done.0 [
        | raised x ↦ (raised x, done.1)
        | ok (output, cache, m) ↦ run_loop p clock c ns none output (add m metrics) (
            noted p c.write_intermediate_to_memory
              (note (clock (length ns)) output (value e.role) e.name (confidence_at ns)) done.1)
      ]
]

-- `run`
unfoldable pub run :
    Embedder
    → (ℕ → ℕ)
    → Text
    → Option ℕ
    → CascadePipeline
    → InMemoryMemory
    → Result CoreError PipelineResult × InMemoryMemory
unfolding run_loop experts_of noted note
run p clock prompt max_tokens c memory =
    let start =
      noted p c.write_intermediate_to_memory
        (note (clock (length c.sequence)) prompt "user" "user" 10) memory in
    let (done, memory') =
      run_loop p clock c c.sequence max_tokens prompt (new_metrics c.cost) start in
    (
      do
        (output, metrics) ← done
        let final = finalize (experts_of c.experts c.sequence) metrics
        ok (record {
          output = output;
          metrics = final;
          per_expert = metrics.expert_metrics;
          selected_experts = c.sequence;
        }),
      memory',
    )
