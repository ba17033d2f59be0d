-- ===== src/Core/Handoff.antt =====
-- src/chen/phases/phase2_kv_pass.py and src/chen/phases/phase3_routing.py: handing a KV cache from
-- one expert to the next. What comes after the first expert is the same code in both files.
-- `clock n` is the time when an entry is written with `n` experts left to invoke.
pub mod Rounds
pub mod Transfers
pub mod KvPass
pub mod Routed
mod Examples
use chen.Common.{
  ℕ, Text, String, Bool, true, false, Option, none, some, List, [], ◌∷◌, ◌++◌, ltb, length,
  if◌then◌else◌, ◌==◌, text_key,
}
use chen.Common.Result.{Result, ok, raised, ◌>>=◌}
use chen.Memory.{MemoryEntry, Embedder, InMemoryMemory}
use chen.Memory
use chen.Core.Expert.{CoreError, value_error, runtime_error, KvCache, Expert, ExpertMetrics, invoke}
use chen.Core.Metrics.{CostModel, AggregateMetrics, new_metrics, add, finalize}
use chen.Core.Router.{value, has_role}
use chen.Core.Expert.{synthesizer}
use chen.Core.Pipeline.{
  by_name, get_expert, missing, invoke_expert, augment, note, noted, confidence_at, popped,
  PipelineResult, experts_of,
}

-- The fields that the two pipelines have in common.
pub record Settings : Type 0 where
  pub experts : List Expert
  pub max_tokens_per_expert : ℕ
  pub write_intermediate_to_memory : Bool
  pub memory_retrieve_k : ℕ
  pub fallback_to_text : Bool
  pub cost : CostModel

-- `current_cache`, `current_text` and `text_mode`
pub record Hand : Type 0 where
  pub cache : Option KvCache
  pub text : Text
  pub text_mode : Bool

-- What an expert returned, and whether the run is in text mode now.
abbrev pub Turn : Type 0
Turn = Text × Option KvCache × ExpertMetrics × Bool

by_text : Embedder → Expert → Text → ℕ → Bool → InMemoryMemory → Result CoreError Turn
by_text p e text max_tokens mode memory = do
  (output, next, m) ← (invoke_expert p e text max_tokens 0 memory).0
  ok (output, next, m, mode)

-- After a transfer: a failed one is followed by `raise` outside of any handler, or by a second
-- invocation with the text.
after_transfer :
    Embedder
    → Expert
    → Text
    → ℕ
    → Bool
    → InMemoryMemory
    → Text × Option KvCache × ExpertMetrics
    → Result CoreError Turn
unfolding by_text
after_transfer p e text max_tokens fallback memory (output, next, m) =
    if m.cache_transfer_succeeded
    then ok (output, next, m, false)
    else if fallback
    then by_text p e text max_tokens true memory
    else raised runtime_error

-- An expert that is not the first.
unfoldable pub hand_over :
    Embedder → Expert → Hand → ℕ → Bool → InMemoryMemory → Result CoreError Turn
unfolding by_text after_transfer
hand_over p e hand max_tokens fallback memory =
    if hand.text_mode then by_text p e hand.text max_tokens true memory else (elim hand.cache [
      | none ↦ by_text p e hand.text max_tokens false memory
      | some cache ↦ (do
        turn ← invoke e none (some cache) max_tokens
        after_transfer p e hand.text max_tokens fallback memory turn)
    ])

-- The text that is written to memory: that of the cache, else what the expert was given.
unfoldable pub source : Hand → Text
source hand = elim hand.cache [ none ↦ hand.text | some c ↦ c.source_text ]

unfoldable pub written :
    Embedder → (ℕ → ℕ) → Settings → Expert → List String → Hand → InMemoryMemory → InMemoryMemory
unfolding source noted note confidence_at
written p clock c e ns hand memory =
    noted p c.write_intermediate_to_memory
      (note (clock (length ns)) (source hand) (value e.role) e.name (confidence_at ns)) memory

-- The rounds after the first.
unfoldable pub run_rest :
    Embedder
    → (ℕ → ℕ)
    → Settings
    → List String
    → Hand
    → AggregateMetrics
    → InMemoryMemory
    → Result CoreError (Hand × AggregateMetrics) × InMemoryMemory
unfolding hand_over written
run_rest p clock c [] hand metrics memory = (ok (hand, metrics), memory)
run_rest p clock c (n ∷ ns) hand metrics memory = elim (get_expert n c.experts) [
  | raised x ↦ (raised x, memory)
  | ok e ↦ elim (hand_over p e hand c.max_tokens_per_expert c.fallback_to_text memory) [
    | raised x ↦ (raised x, memory)
    | ok (output, next, m, mode) ↦
        run_rest p clock c ns (record { cache = next; text = output; text_mode = mode })
          (add m metrics) (written p clock c e ns hand memory)
  ]
]

-- The first round of a pipeline: the hand that it leaves holds the cache that the expert was given.
abbrev pub First : Type 0
First =
    Expert
    → ℕ
    → InMemoryMemory
    → Result CoreError (Text × Option KvCache × ExpertMetrics × Hand) × InMemoryMemory

unfoldable pub with_hand :
    Result CoreError (Text × Option KvCache × ExpertMetrics)
    → Hand
    → Result CoreError (Text × Option KvCache × ExpertMetrics × Hand)
with_hand r hand = do (output, next, m) ← r; ok (output, next, m, hand)

unfoldable pub run_rounds :
    Embedder
    → (ℕ → ℕ)
    → Settings
    → First
    → Text
    → Option ℕ
    → List String
    → InMemoryMemory
    → Result CoreError (Hand × AggregateMetrics) × InMemoryMemory
unfolding run_rest written popped
run_rounds p clock c first prompt max_tokens [] memory =
    (ok (record { cache = none; text = prompt; text_mode = false }, new_metrics c.cost), memory)
run_rounds p clock c first prompt max_tokens (n ∷ ns) memory = elim (get_expert n c.experts) [
  | raised x ↦ (raised x, memory)
  | ok e ↦
      let done = first e (popped max_tokens c.max_tokens_per_expert) memory in
      elim done.0 [
        | raised x ↦ (raised x, done.1)
        | ok (output, next, m, hand) ↦
            run_rest p clock c ns
              (record { cache = next; text = output; text_mode = hand.text_mode })
              (add m (new_metrics c.cost)) (written p clock c e ns hand done.1)
      ]
]

-- The result, and `text_mode_fallback` of its metadata.
unfoldable pub run_pipeline :
    Embedder
    → (ℕ → ℕ)
    → Settings
    → First
    → Text
    → Option ℕ
    → List String
    → InMemoryMemory
    → Result CoreError (PipelineResult × Bool) × InMemoryMemory
unfolding run_rounds experts_of noted note
run_pipeline p clock c first prompt max_tokens names memory =
    let start =
      noted p c.write_intermediate_to_memory (note (clock (length names)) prompt "user" "user" 10)
        memory in
    let (done, memory') = run_rounds p clock c first prompt max_tokens names start in
    (
      do
        (hand, metrics) ← done
        let result : PipelineResult = record {
          output = hand.text;
          metrics = finalize (experts_of c.experts names) metrics;
          per_expert = metrics.expert_metrics;
          selected_experts = names;
        }
        ok (result, hand.text_mode),
      memory',
    )
