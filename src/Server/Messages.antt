-- ===== src/Server/Messages.antt =====
-- src/chen/server/routes.py: the bodies of requests and responses. Times are left out of what is
-- said of an expert. `F` stands for floats.
use chen.Common.{
  ℕ, Text, String, Bool, true, ◌&&◌, Option, none, some, List, [], ◌∷◌, ◌++◌, leb, length, take,
  if◌then◌else◌,
}
use chen.Core.Expert.{CoreError, ExpertMetrics}
use chen.Core.Router.{value}
use chen.Core.Pipeline.{PipelineResult}
use chen.Store.{StoreError, RunRecord}

pub record InferRequest : Type 0 where
  pub prompt : Text
  pub phase : ℕ
  pub backend : String
  pub max_tokens : ℕ
  pub router : String
  pub save_run : Bool
  pub stream : Bool
  pub tenant_id : Option Text
  pub analyst_model : Option Text
  pub reasoner_model : Option Text
  pub coder_model : Option Text
  pub synthesizer_model : Option Text
  pub trace_id : Option Text

unfoldable pub fits : ℕ → Option Text → Bool
fits n none = true
fits n (some t) = leb (length t) n

-- The constraints of the fields.
unfoldable pub is_valid : InferRequest → Bool
unfolding fits
is_valid req =
    leb 1 (length req.prompt)
    && (leb (length req.prompt) 100000
        && (leb 1 req.phase
            && (leb req.phase 3
                && (leb 1 req.max_tokens
                    && (leb req.max_tokens 4096
                        && (fits 128 req.tenant_id
                            && (fits 256 req.analyst_model
                                && (fits 256 req.reasoner_model
                                    && (fits 256 req.coder_model
                                        && (fits 256 req.synthesizer_model
                                            && fits 128 req.trace_id))))))))))

pub data RouteError : Type 0 where
  failed : CoreError → RouteError
  unreadable : StoreError → RouteError
  not_found : RouteError

pub record Config : Type 0 where
  pub phase : ℕ
  pub backend : String
  pub router : String
  pub max_tokens : ℕ
  pub sequence : List String

pub record ExpertMetricsModel : Type 0 where
  pub expert_name : String
  pub role : String
  pub params_m : ℕ
  pub input_tokens : ℕ
  pub output_tokens : ℕ
  pub used_kv_cache : Bool

pub record InferResponse (F : Type 0) : Type 0 where
  pub output : Text
  pub selected_experts : List String
  pub per_expert : List ExpertMetricsModel
  pub total_tokens : ℕ
  pub total_cost_usd : F
  pub total_latency_ms : F
  pub epu : F
  pub kv_transfers : ℕ
  pub run_id : Text
  pub config_hash : Text

pub record RunSummary (F : Type 0) : Type 0 where
  pub run_id : Text
  pub timestamp : Text
  pub phase : ℕ
  pub backend : String
  pub prompt_preview : Text
  pub total_tokens : ℕ
  pub total_cost_usd : F
  pub epu : F

pub record RunDetail (F : Type 0) : Type 0 where
  pub summary : RunSummary F
  pub config_hash : Text
  pub router : String
  pub selected_experts : List String
  pub output : Text
  pub total_latency_ms : F
  pub kv_transfers : ℕ

-- What `record_pipeline_run` and the functions beside it count.
pub data MetricEvent : Type 0 where
  pipeline_run : ℕ → MetricEvent
  expert_invocation : String → String → MetricEvent
  tokens : String → ℕ → MetricEvent
  kv_transfer : String → String → Bool → MetricEvent

unfoldable pub recorded_expert : ExpertMetrics → List MetricEvent
unfolding value
recorded_expert m =
    expert_invocation m.expert_name (value m.role)
    ∷ tokens "input" m.input_tokens
    ∷ tokens "output" m.output_tokens
    ∷ (if m.used_kv_cache
        then kv_transfer "prev" m.expert_name m.cache_transfer_succeeded ∷ []
        else [])

unfoldable pub recorded_experts : List ExpertMetrics → List MetricEvent
unfolding recorded_expert
recorded_experts [] = []
recorded_experts (m ∷ ms) = recorded_expert m ++ recorded_experts ms

unfoldable pub model_of : ExpertMetrics → ExpertMetricsModel
unfolding value
model_of m = record {
  expert_name = m.expert_name;
  role = value m.role;
  params_m = m.params_m;
  input_tokens = m.input_tokens;
  output_tokens = m.output_tokens;
  used_kv_cache = m.used_kv_cache;
}

unfoldable pub config_of : InferRequest → PipelineResult → Config
config_of req result = record {
  phase = req.phase;
  backend = req.backend;
  router = req.router;
  max_tokens = req.max_tokens;
  sequence = result.selected_experts;
}

unfoldable pub summary_of : {F : Type 0} → RunRecord F → RunSummary F
summary_of r = record {
  run_id = r.run_id;
  timestamp = r.timestamp;
  phase = r.phase;
  backend = r.backend;
  prompt_preview = take 80 r.prompt;
  total_tokens = r.total_tokens;
  total_cost_usd = r.total_cost_usd;
  epu = r.epu;
}

unfoldable pub detail_of : {F : Type 0} → RunRecord F → RunDetail F
unfolding summary_of
detail_of r = record {
  summary = summary_of r;
  config_hash = r.config_hash;
  router = r.router;
  selected_experts = r.selected_experts;
  output = r.output;
  total_latency_ms = r.total_latency_ms;
  kv_transfers = r.kv_transfers;
}
