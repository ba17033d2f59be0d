-- ===== src/Server/Garage.antt =====
-- src/chen/server/routes.py: the experts and the pipeline of a request. What the other backends are,
-- the scores of the router, the embedder, the clock and the rates of the cost model are the parameter
-- `Outside`.
pub mod Runs
use chen.Common.{
  ℕ, Text, String, codes, Bool, true, false, none, List, [], ◌∷◌, eqb, if◌then◌else◌, ◌==◌,
  text_key,
}
use chen.Common.Result.{Result, ok, raised, ◌>>=◌}
use chen.Memory.{Embedder, empty_memory}
use chen.Core.Expert.{
  CoreError, value_error, analyst, reasoner, coder, synthesizer, ExpertRole, Backend, Expert,
}
use chen.Core.Metrics.{CostModel}
use chen.Core.Router.{Limits, logistic_route}
use chen.Core.Pipeline.{PipelineResult}
use chen.Core.Cascade.{CascadePipeline, new_cascade}
use chen.Core.Cascade
use chen.Core.Handoff.{Settings}
use chen.Core.Handoff.KvPass.{KvPassPipeline, new_kv_pass}
use chen.Core.Handoff.KvPass
use chen.Core.Handoff.Routed.{RoutingPipeline}
use chen.Core.Handoff.Routed
use chen.Core.Handoff.Routed.TextMode.{plain_result}
use chen.Core.Mock.{Hashes, MockBackend, new_mock, as_backend}

-- `S` stands for the scores.
pub record Outside (S : Type 0) : Type 0 where
  pub hashes : Hashes
  pub hf : Text → ℕ → Backend
  pub vllm : ℕ → Backend
  pub llama_cpp : ℕ → Backend
  pub more : S → S → Bool
  pub score : Text → Expert → S
  pub passes : S → Bool
  pub embedder : Embedder
  pub clock : ℕ → ℕ
  pub cost : CostModel

-- The fields that `MockBackend(params_m=…, role_hint=…)` leaves as they are by default.
unfoldable pub default_mock : Text → ℕ → MockBackend
unfolding new_mock
default_mock role_hint params_m = new_mock (record {
  params_m = params_m;
  model_id = [];
  n_layers = 4;
  n_heads = 8;
  head_dim = 64;
  seed = 42;
  role_hint = role_hint;
})

module _ {S : Type 0} where
  -- `_build_backend`
  unfoldable pub build_backend : Outside S → String → Text → ℕ → Result CoreError Backend
  unfolding default_mock as_backend
  build_backend w backend role_hint params_m =
      if backend == "mock"
      then ok (as_backend w.hashes (default_mock role_hint params_m))
      else if backend == "hf"
      then ok (w.hf role_hint params_m)
      else if backend == "vllm"
      then ok (w.vllm params_m)
      else if backend == "llama_cpp"
      then ok (w.llama_cpp params_m)
      else raised value_error

  unfoldable pub build_expert :
      Outside S → String → String → ExpertRole → ℕ → Result CoreError Expert
  unfolding build_backend
  build_expert w backend name role params_m = do
    b ← build_backend w backend (codes name) params_m
    let e : Expert = record { name = name; role = role; backend = b; description = "" }
    ok e

  -- `_build_experts`
  unfoldable pub build_experts : Outside S → String → Result CoreError (List Expert)
  unfolding build_expert
  build_experts w backend = do
    a ← build_expert w backend "analyst" analyst 3000
    r ← build_expert w backend "reasoner" reasoner 8000
    c ← build_expert w backend "coder" coder 7000
    s ← build_expert w backend "synthesizer" synthesizer 3000
    ok (a ∷ r ∷ c ∷ s ∷ [])

pub data Pipeline : Type 0 where
  cascade : CascadePipeline → Pipeline
  kv_pass : KvPassPipeline → Pipeline
  routing : RoutingPipeline → Pipeline

unfoldable pub sequence : List String
sequence = "analyst" ∷ "synthesizer" ∷ []

-- `LogisticRouter.from_experts(experts)`
unfoldable pub default_limits : Limits
default_limits = record { min_activation = 1; max_activation = 3; force_last_role = synthesizer }

unfoldable pub settings : List Expert → ℕ → CostModel → Settings
settings experts max_tokens cost = record {
  experts = experts;
  max_tokens_per_expert = max_tokens;
  write_intermediate_to_memory = false;
  memory_retrieve_k = 0;
  fallback_to_text = true;
  cost = cost;
}

module _ {S : Type 0} where
  unfoldable pub default_router : Outside S → Text → List Expert → List String
  unfolding default_limits
  default_router w text es = logistic_route w.more default_limits (w.score text) w.passes es

  -- `_make_pipeline`, which uses its router kind in no phase.
  unfoldable pub make_pipeline : Outside S → ℕ → List Expert → ℕ → Result CoreError Pipeline
  unfolding sequence settings default_router
  make_pipeline w phase experts max_tokens =
      if eqb phase 1
      then (do
        c ← new_cascade (record {
          experts = experts;
          sequence = sequence;
          max_tokens_per_expert = max_tokens;
          write_intermediate_to_memory = false;
          memory_retrieve_k = 0;
          cost = w.cost;
        })
        ok (cascade c))
      else if eqb phase 2
      then (do
        c ←
            new_kv_pass
              (record { settings = settings experts max_tokens w.cost; sequence = sequence })
        ok (kv_pass c))
      else if eqb phase 3
      then ok (
          routing (record {
            settings = settings experts max_tokens w.cost;
            router = default_router w;
            text_handoff = true;
          }))
      else raised value_error

  -- `pipe.run(prompt)`, on the new memory of the pipeline.
  unfoldable pub run : Outside S → Pipeline → Text → Result CoreError PipelineResult
  unfolding plain_result
  run w (cascade c) prompt = (Cascade.run w.embedder w.clock prompt none c empty_memory).0
  run w (kv_pass c) prompt =
      plain_result (KvPass.run w.embedder w.clock prompt none c empty_memory).0
  run w (routing c) prompt =
      plain_result (Routed.run w.embedder w.clock prompt none c empty_memory).0
