-- ===== src/Core/Handoff/KvPass.antt =====
-- src/chen/phases/phase2_kv_pass.py: the first expert reads its prompt from a cache of its own.
pub mod Runs
use chen.Common.{
  ℕ, Text, String, Bool, true, false, Option, none, some, List, [], ◌∷◌, ltb, map, if◌then◌else◌,
}
use chen.Common.Result.{Result, ok, raised, ◌>>=◌}
use chen.Memory.{MemoryEntry, Embedder, InMemoryMemory}
use chen.Memory
use chen.Core.Expert.{CoreError, value_error, KvCache, Expert, ExpertMetrics, invoke}
use chen.Core.Pipeline.{by_name, missing, augment, PipelineResult}
use chen.Core.Handoff.{Settings, Hand, First, with_hand, run_pipeline}

pub record KvPassPipeline : Type 0 where
  pub settings : Settings
  pub sequence : List String

-- `__post_init__`, without its warnings.
unfoldable pub new_kv_pass : KvPassPipeline → Result CoreError KvPassPipeline
unfolding by_name missing
new_kv_pass c = elim c.settings.experts [
  | [] ↦ raised value_error
  | e ∷ es ↦
      let sequence : List String = elim c.sequence [
        | [] ↦ map (λ (f : Expert). f.name) (e ∷ es)
        | n ∷ ns ↦ n ∷ ns
      ] in
      if missing sequence (by_name (e ∷ es) [])
      then raised value_error
      else ok (record c { sequence = sequence })
]

-- The cache with the context from memory; the one without it, if there is none or encoding fails.
unfoldable pub with_context : Expert → Text → KvCache → List MemoryEntry → KvCache
unfolding augment
with_context e prompt cache [] = cache
with_context e prompt cache (m ∷ ms) = elim (e.backend.encode (augment (m ∷ ms) prompt)) [
  | raised x ↦ cache
  | ok c ↦ c
]

first_text : Text → Expert → ℕ → Result CoreError (Text × Option KvCache × ExpertMetrics × Hand)
unfolding with_hand
first_text prompt e max_tokens =
    with_hand (invoke e (some prompt) none max_tokens)
      (record { cache = none; text = prompt; text_mode = true })

first_cache :
    Text → Expert → ℕ → KvCache → Result CoreError (Text × Option KvCache × ExpertMetrics × Hand)
unfolding with_hand
first_cache prompt e max_tokens cache =
    with_hand (invoke e none (some cache) max_tokens)
      (record { cache = some cache; text = prompt; text_mode = false })

-- The first round of `run`.
unfoldable pub kv_first : Embedder → ℕ → Text → First
unfolding with_context first_text first_cache
kv_first p k prompt e max_tokens memory =
    if e.backend.supports_kv_cache
    then (elim (e.backend.encode prompt) [
      | raised x ↦ (first_text prompt e max_tokens, memory)
      | ok cache ↦
          let (entries, memory') = Memory.retrieve p prompt k none 0 memory in
          if ltb 0 k
          then (first_cache prompt e max_tokens (with_context e prompt cache entries), memory')
          else (first_cache prompt e max_tokens cache, memory)
    ])
    else (first_text prompt e max_tokens, memory)

-- `run`
unfoldable pub run :
    Embedder
    → (ℕ → ℕ)
    → Text
    → Option ℕ
    → KvPassPipeline
    → InMemoryMemory
    → Result CoreError (PipelineResult × Bool) × InMemoryMemory
unfolding run_pipeline kv_first
run p clock prompt max_tokens c memory =
    run_pipeline p clock c.settings (kv_first p c.settings.memory_retrieve_k prompt) prompt
      max_tokens c.sequence memory
