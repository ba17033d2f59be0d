-- ===== src/Core/Handoff/Routed/Runs.antt =====
-- What a run of the third phase returns (src/chen/phases/phase3_routing.py).
use chen.Common.{
  ℕ, Text, String, Bool, true, false, not, ◌||◌, ◌≡◌, inl, inr, Option, none, some, List, [], arith,
  ltb, map, if◌then◌else◌, Bool-cases, Option-cases,
}
use chen.Common.Result.{ok, Result-cases}
use chen.Memory.{MemoryEntry, Embedder, InMemoryMemory}
use chen.Memory
use chen.Core.Expert.{KvCache, Expert, ExpertMetrics}
use chen.Core.Expert.Invoke.{invoke_cache-answers}
use chen.Core.Pipeline.{by_name, get_expert, missing, augment, PipelineResult}
use chen.Core.Pipeline.Serving.{invoke_expert-answers}
use chen.Core.Handoff.{Hand, with_hand}
use chen.Core.Handoff.Rounds.{IsDecoding, run_pipeline-answers}
use chen.Core.Handoff.Routed.{RoutingPipeline, selected_names, first_text, tried, routed_first, run}

first_text-answers :
    (p : Embedder) (i : ℕ) (prompt : Text) (es : List Expert) (n : String) (e : Expert) (k : ℕ)
    (memory : InMemoryMemory)
    → IsDecoding es
    → get_expert n es ≡ ok e
    → (output : Text) × (next : Option KvCache) × (m : ExpertMetrics) × (hand : Hand) × ((first_text
          p i prompt e k memory).0
        ≡ ok (output, next, m, hand))
      × (m.expert_name ≡ e.name)
unfolding first_text with_hand
first_text-answers p i prompt es n e k memory s found =
    let (output, next, m, done, named, moved) =
      invoke_expert-answers p es n e prompt k i memory s.serving found in
    (
      output,
      next,
      m,
      record { cache = none; text = prompt; text_mode = true },
      ground (arith, done),
      named,
    )

tried-named :
    (prompt : Text) (es : List Expert) (n : String) (e : Expert) (k : ℕ) (augmented : Text)
    (output : Text) (next : Option KvCache) (m : ExpertMetrics) (hand : Hand)
    → IsDecoding es
    → get_expert n es ≡ ok e
    → tried prompt e k augmented ≡ some (output, next, m, hand)
    → m.expert_name ≡ e.name
unfolding tried
tried-named prompt es n e k augmented output next m hand s found h =
    elim (Result-cases (e.backend.encode augmented)) [
      | inr (x, failed) ↦ absurd (ground (arith, failed, h))
      | inl (cache, encoded) ↦
          let (o, next', m', done, named) =
            invoke_cache-answers e cache k (λ t. s.serving.serves n e found t k)
              (λ d. s.decodes n e found d k) in
          ground (arith, encoded, done, h, named)
    ]

routed_first-answers :
    (p : Embedder) (text_handoff : Bool) (i : ℕ) (prompt : Text) (es : List Expert) (n : String)
    (e : Expert) (k : ℕ) (memory : InMemoryMemory)
    → IsDecoding es
    → get_expert n es ≡ ok e
    → (output : Text) × (next : Option KvCache) × (m : ExpertMetrics) × (hand : Hand)
      × ((routed_first p text_handoff i prompt e k memory).0 ≡ ok (output, next, m, hand))
      × (m.expert_name ≡ e.name)
unfolding routed_first
routed_first-answers p text_handoff i prompt es n e k memory s found =
    elim (Bool-cases (text_handoff || not e.backend.supports_kv_cache)) [
      | inl text ↦
          let (output, next, m, hand, done, named) =
            first_text-answers p i prompt es n e k memory s found in
          (output, next, m, hand, ground (arith, text, done), named)
      | inr kv ↦
          let (entries, read) = Memory.retrieve p prompt i none 0 memory in
          let augmented = if ltb 0 i then augment entries prompt else prompt in
          let memory' = if ltb 0 i then read else memory in
          elim (Option-cases (tried prompt e k augmented)) [
            | inl failed ↦
                let (output, next, m, hand, done, named) =
                  first_text-answers p i prompt es n e k memory' s found in
                (output, next, m, hand, ground (arith, kv, failed, done), named)
            | inr ((output, next, m, hand), done) ↦ (
              output,
              next,
              m,
              hand,
              ground (arith, kv, done),
              tried-named prompt es n e k augmented output next m hand s found done,
            )
          ]
    ]

-- If the names that are selected are those of experts, the experts always generate texts and
-- decode caches, and the pipeline may fall back to text, a run of the third phase returns,
-- whatever encodings and transfers of caches fail: it reports exactly the selected experts, in
-- that order.
pub routed_run-answers :
    (p : Embedder) (clock : ℕ → ℕ) (prompt : Text) (max_tokens : Option ℕ) (c : RoutingPipeline)
    (memory : InMemoryMemory)
    → IsDecoding c.settings.experts
    → c.settings.fallback_to_text ≡ true
    → missing
        (selected_names (c.router prompt c.settings.experts) c.settings.experts)
        (by_name c.settings.experts [])
      ≡ false
    → (r : PipelineResult) × (mode : Bool) × ((run p clock prompt max_tokens c memory).0
        ≡ ok (r, mode))
      × (map (λ (m : ExpertMetrics). m.expert_name) r.per_expert
          ≡ selected_names (c.router prompt c.settings.experts) c.settings.experts)
      × (r.selected_experts
          ≡ selected_names (c.router prompt c.settings.experts) c.settings.experts)
unfolding run
routed_run-answers p clock prompt max_tokens c memory s fallback h =
    run_pipeline-answers p clock c.settings
      (routed_first p c.text_handoff c.settings.memory_retrieve_k prompt) prompt max_tokens
      (selected_names (c.router prompt c.settings.experts) c.settings.experts) memory s
      (record {
        answers = λ n e k memory found.
            routed_first-answers p c.text_handoff c.settings.memory_retrieve_k prompt
              c.settings.experts n e k memory s found;
      })
      fallback h
