-- ===== src/Core/Pipeline.antt =====
-- src/chen/core/pipeline.py: what the pipelines share. The memory is that of
-- src/chen/core/memory.py; confidences are in tenths.
pub mod Serving
use chen.Common.{
  ℕ, Text, String, codes, Bool, true, false, Option, none, some, List, [], ◌∷◌, ◌++◌, ltb,
  if◌then◌else◌, ◌==◌, text_key,
}
use chen.Common.Result.{Result, ok, raised, ◌>>=◌}
use chen.Common.Dict.{Dict, lookup, insert}
use chen.Memory.{MemoryEntry, Embedder, InMemoryMemory}
use chen.Memory
use chen.Core.Expert.{CoreError, key_error, KvCache, Expert, ExpertMetrics, invoke}
use chen.Core.Metrics.{AggregateMetrics}

-- `experts_by_name`: the last expert of a name stays.
unfoldable pub by_name : List Expert → Dict String Expert → Dict String Expert
by_name [] d = d
by_name (e ∷ es) d = by_name es (insert e.name e d)

-- `get_expert`
unfoldable pub get_expert : String → List Expert → Result CoreError Expert
unfolding by_name
get_expert name es = elim (lookup name (by_name es [])) [ none ↦ raised key_error | some e ↦ ok e ]

unfoldable pub missing : List String → Dict String Expert → Bool
missing [] d = false
missing (n ∷ ns) d = elim (lookup n d) [ none ↦ true | some e ↦ missing ns d ]

-- The lines of the context, joined.
unfoldable pub context : List MemoryEntry → Text
context [] = []
context (e ∷ []) = codes "- [" ++ (codes e.role ++ (codes "] " ++ e.text))
context (e ∷ f ∷ es) =
    (codes "- [" ++ (codes e.role ++ (codes "] " ++ e.text))) ++ (codes "\n" ++ context (f ∷ es))

unfoldable pub augment : List MemoryEntry → Text → Text
unfolding context
augment [] prompt = prompt
augment (e ∷ es) prompt =
    codes "Context from shared memory:\n" ++ (context (e ∷ es) ++ (codes "\n\n---\n\n" ++ prompt))

-- `_invoke_expert` on a text
unfoldable pub invoke_expert :
    Embedder
    → Expert
    → Text
    → ℕ
    → ℕ
    → InMemoryMemory
    → Result CoreError (Text × Option KvCache × ExpertMetrics) × InMemoryMemory
unfolding augment
invoke_expert p e prompt max_tokens k memory =
    let (entries, memory') = Memory.retrieve p prompt k none 0 memory in
    if ltb 0 k
    then (invoke e (some (augment entries prompt)) none max_tokens, memory')
    else (invoke e (some prompt) none max_tokens, memory)

-- What a run writes to memory.
unfoldable pub note : ℕ → Text → String → String → ℕ → MemoryEntry
note now text role expert_name confidence = record {
  text = text;
  embedding = none;
  role = role;
  expert_name = expert_name;
  confidence = confidence;
  timestamp = now;
  metadata = [];
}

unfoldable pub noted : Embedder → Bool → MemoryEntry → InMemoryMemory → InMemoryMemory
noted p write e memory = if write then (Memory.write p e memory).1 else memory

unfoldable pub confidence_at : List String → ℕ
confidence_at [] = 10
confidence_at (n ∷ ns) = 9

-- `kwargs.pop("max_tokens", default)`
unfoldable pub popped : Option ℕ → ℕ → ℕ
popped none default = default
popped (some n) default = n

pub record PipelineResult : Type 0 where
  pub output : Text
  pub metrics : AggregateMetrics
  pub per_expert : List ExpertMetrics
  pub selected_experts : List String

unfoldable pub experts_of : List Expert → List String → List Expert
unfolding get_expert
experts_of es [] = []
experts_of es (n ∷ ns) = elim (get_expert n es) [
  | raised x ↦ experts_of es ns
  | ok e ↦ e ∷ experts_of es ns
]
