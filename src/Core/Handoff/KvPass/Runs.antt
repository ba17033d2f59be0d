-- ===== src/Core/Handoff/KvPass/Runs.antt =====
-- What a run of the second phase returns (src/chen/phases/phase2_kv_pass.py).
use chen.Common.{
  ℕ, Text, String, Bool, true, false, ◌≡◌, inl, inr, Option, none, some, List, [], arith, ltb, map,
  Bool-cases,
}
use chen.Common.Result.{ok, Result-cases}
use chen.Memory.{MemoryEntry, Embedder, InMemoryMemory}
use chen.Memory
use chen.Core.Expert.{KvCache, Expert, ExpertMetrics}
use chen.Core.Expert.Invoke.{invoke-answers, invoke_cache-answers}
use chen.Core.Pipeline.{by_name, get_expert, missing, PipelineResult}
use chen.Core.Handoff.{Hand, with_hand}
use chen.Core.Handoff.Rounds.{IsDecoding, run_pipeline-answers}
use chen.Core.Handoff.KvPass.{KvPassPipeline, with_context, first_text, first_cache, kv_first, run}

first_text-answers :
    (es : List Expert) (n : String) (e : Expert) (prompt : Text) (k : ℕ)
    → IsDecoding es
    → get_expert n es ≡ ok e
    → (output : Text) × (next : Option KvCache) × (m : ExpertMetrics) × (hand : Hand) × (first_text
          prompt e k
        ≡ ok (output, next, m, hand))
      × (m.expert_name ≡ e.name)
unfolding first_text with_hand
first_text-answers es n e prompt k s found =
    let (output, h) = s.serving.serves n e found prompt k in
    let (next, m, done, named, moved) = invoke-answers e prompt k output h in
    (
      output,
      next,
      m,
      record { cache = none; text = prompt; text_mode = true },
      ground (arith, done),
      named,
    )

first_cache-answers :
    (es : List Expert) (n : String) (e : Expert) (prompt : Text) (k : ℕ) (cache : KvCache)
    → IsDecoding es
    → get_expert n es ≡ ok e
    → (output : Text) × (next : Option KvCache) × (m : ExpertMetrics) × (hand : Hand) × (first_cache
          prompt e k cache
        ≡ ok (output, next, m, hand))
      × (m.expert_name ≡ e.name)
unfolding first_cache with_hand
first_cache-answers es n e prompt k cache s found =
    let (output, next, m, done, named) =
      invoke_cache-answers e cache k (λ t. s.serving.serves n e found t k)
        (λ d. s.decodes n e found d k) in
    (
      output,
      next,
      m,
      record { cache = some cache; text = prompt; text_mode = false },
      ground (arith, done),
      named,
    )

kv_first-answers :
    (p : Embedder) (i : ℕ) (prompt : Text) (es : List Expert) (n : String) (e : Expert) (k : ℕ)
    (memory : InMemoryMemory)
    → IsDecoding es
    → get_expert n es ≡ ok e
    → (output : Text) × (next : Option KvCache) × (m : ExpertMetrics) × (hand : Hand) × ((kv_first p
          i prompt e k memory).0
        ≡ ok (output, next, m, hand))
      × (m.expert_name ≡ e.name)
unfolding kv_first
kv_first-answers p i prompt es n e k memory s found =
    let (output, next, m, hand, done, named) = first_text-answers es n e prompt k s found in
    elim (Bool-cases e.backend.supports_kv_cache) [
      | inr unable ↦ (output, next, m, hand, ground (arith, unable, done), named)
      | inl able ↦ elim (Result-cases (e.backend.encode prompt)) [
        | inr (x, failed) ↦ (output, next, m, hand, ground (arith, able, failed, done), named)
        | inl (cache, encoded) ↦
            let entries = (Memory.retrieve p prompt i none 0 memory).0 in
            elim (Bool-cases (ltb 0 i)) [
              | inl reads ↦
                  let (output, next, m, hand, done, named) =
                    first_cache-answers es n e prompt k (with_context e prompt cache entries) s
                      found in
                  (output, next, m, hand, ground (arith, able, encoded, reads, done), named)
              | inr plain ↦
                  let (output, next, m, hand, done, named) =
                    first_cache-answers es n e prompt k cache s found in
                  (output, next, m, hand, ground (arith, able, encoded, plain, done), named)
            ]
      ]
    ]

-- If every name of the sequence is that of an expert, the experts always generate texts and
-- decode caches, and the pipeline may fall back to text, a run of the second phase returns,
-- whatever encodings and transfers of caches fail: it reports exactly the experts of the
-- sequence, in that order.
pub kv_run-answers :
    (p : Embedder) (clock : ℕ → ℕ) (prompt : Text) (max_tokens : Option ℕ) (c : KvPassPipeline)
    (memory : InMemoryMemory)
    → IsDecoding c.settings.experts
    → c.settings.fallback_to_text ≡ true
    → missing c.sequence (by_name c.settings.experts []) ≡ false
    → (r : PipelineResult) × (mode : Bool) × ((run p clock prompt max_tokens c memory).0
        ≡ ok (r, mode))
      × (map (λ (m : ExpertMetrics). m.expert_name) r.per_expert ≡ c.sequence)
      × (r.selected_experts ≡ c.sequence)
unfolding run
kv_run-answers p clock prompt max_tokens c memory s fallback h =
    run_pipeline-answers p clock c.settings (kv_first p c.settings.memory_retrieve_k prompt) prompt
      max_tokens c.sequence memory s
      (record {
        answers = λ n e k memory found.
            kv_first-answers p c.settings.memory_retrieve_k prompt c.settings.experts n e k memory s
              found;
      })
      fallback h
