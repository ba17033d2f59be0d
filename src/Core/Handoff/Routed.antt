-- ===== src/Core/Handoff/Routed.antt =====
-- src/chen/phases/phase3_routing.py: the experts that a router selects. The router is a function of
-- the prompt and the experts, such as those of src/chen/core/router.py.
pub mod Runs
pub mod TextMode
pub mod Routers
use chen.Common.{
  ℕ, Text, String, Bool, true, false, not, ◌||◌, Option, none, some, List, [], ◌∷◌, ltb, find,
  if◌then◌else◌,
}
use chen.Common.Result.{Result, ok, raised, ◌>>=◌}
use chen.Memory.{MemoryEntry, Embedder, InMemoryMemory}
use chen.Memory
use chen.Core.Expert.{CoreError, synthesizer, KvCache, Expert, ExpertMetrics, invoke}
use chen.Core.Router.{has_role}
use chen.Core.Pipeline.{augment, invoke_expert, PipelineResult}
use chen.Core.Handoff.{Settings, Hand, First, with_hand, run_pipeline}

-- `handoff` is "text" if `text_handoff` holds.
pub record RoutingPipeline : Type 0 where
  pub settings : Settings
  pub router : Text → List Expert → List String
  pub text_handoff : Bool

-- The names to invoke: if the router gives none, the first synthesizer, else the first expert.
unfoldable pub selected_names : List String → List Expert → List String
unfolding has_role
selected_names (n ∷ ns) es = n ∷ ns
selected_names [] [] = []
selected_names [] (e ∷ es) = elim (find (has_role synthesizer) (e ∷ es)) [
  | none ↦ e.name ∷ []
  | some f ↦ f.name ∷ []
]

-- The first round on the text, in text mode from now on.
unfoldable pub first_text : Embedder → ℕ → Text → First
unfolding with_hand
first_text p k prompt e max_tokens memory =
    let done = invoke_expert p e prompt max_tokens k memory in
    (with_hand done.0 (record { cache = none; text = prompt; text_mode = true }), done.1)

-- The `try` of the first round: `none` where anything in it raises.
unfoldable pub tried :
    Text → Expert → ℕ → Text → Option (Text × Option KvCache × ExpertMetrics × Hand)
tried prompt e max_tokens augmented = elim (e.backend.encode augmented) [
  | raised x ↦ none
  | ok cache ↦ elim (invoke e none (some cache) max_tokens) [
    | raised x ↦ none
    | ok (output, next, m) ↦
        some (output, next, m, record { cache = some cache; text = prompt; text_mode = false })
  ]
]

-- The first round of `run`.
unfoldable pub routed_first : Embedder → Bool → ℕ → Text → First
unfolding first_text tried augment
routed_first p text_handoff k prompt e max_tokens memory =
    if text_handoff || not e.backend.supports_kv_cache
    then first_text p k prompt e max_tokens memory
    else (let (entries, read) = Memory.retrieve p prompt k none 0 memory in
        let augmented = if ltb 0 k then augment entries prompt else prompt in
        let memory' = if ltb 0 k then read else memory in
        elim (tried prompt e max_tokens augmented) [
          | none ↦ first_text p k prompt e max_tokens memory'
          | some turn ↦ (ok turn, memory')
        ])

-- `run`
unfoldable pub run :
    Embedder
    → (ℕ → ℕ)
    → Text
    → Option ℕ
    → RoutingPipeline
    → InMemoryMemory
    → Result CoreError (PipelineResult × Bool) × InMemoryMemory
unfolding run_pipeline routed_first selected_names
run p clock prompt max_tokens c memory =
    run_pipeline p clock c.settings
      (routed_first p c.text_handoff c.settings.memory_retrieve_k prompt) prompt max_tokens
      (selected_names (c.router prompt c.settings.experts) c.settings.experts) memory
