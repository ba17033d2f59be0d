-- ===== src/Server/Routes/Streaming.antt =====
-- The handler of /infer/stream of src/chen/server/routes.py.
use chen.Common.{ℕ, ◌+◌, Text, String, List, [], ◌∷◌, ◌++◌, take, if◌then◌else◌}
use chen.Common.Result.{Result, ok, raised, ◌>>=◌}
use chen.Core.Expert.{ExpertMetrics}
use chen.Core.Metrics.{AggregateMetrics, total_tokens}
use chen.Core.Metrics
use chen.Core.Router.{value}
use chen.Core.Pipeline.{PipelineResult}
use chen.Store.{ℤ, StoreError, RunRecord, Row, Json}
use chen.Store
use chen.Server.Messages.{InferRequest, RouteError, failed, Config}
use chen.Server.Garage.{Outside, build_experts, make_pipeline, run}
use chen.Server.Routes.{Formats, App, hash_config}

-- What the last event of a stream says.
pub record FinalEvent (F : Type 0) : Type 0 where
  pub output : Text
  pub selected_experts : List String
  pub total_tokens : ℕ
  pub total_cost_usd : F
  pub total_latency_ms : F
  pub epu : F
  pub kv_transfers : ℕ
  pub run_id : Text
  pub config_hash : Text
  pub elapsed_ms : F

pub data StreamEvent (F : Type 0) : Type 0 where
  expert : ℕ → String → String → F → ℕ → StreamEvent F
  done : FinalEvent F → StreamEvent F

-- The events of the experts from index `i` on: a name, a role, a latency and a number of tokens.
unfoldable pub expert_events :
    {F : Type 0} → (ExpertMetrics → F) → ℕ → List ExpertMetrics → List (StreamEvent F)
unfolding value
expert_events latency_ms i [] = []
expert_events latency_ms i (m ∷ ms) =
    expert i m.expert_name (value m.role) (latency_ms m) (m.input_tokens + m.output_tokens)
    ∷ expert_events latency_ms (i + 1) ms

-- The configuration that `infer_stream` makes
unfoldable pub stream_config : InferRequest → PipelineResult → Config
stream_config req result = record {
  phase = req.phase;
  backend = req.backend;
  router = req.router;
  max_tokens = req.max_tokens;
  sequence = result.selected_experts;
}

module _ {F : Type 0} {J : Type 0} where
  -- The record that `infer_stream` saves
  unfoldable pub stream_record : Formats F J → InferRequest → PipelineResult → RunRecord F
  unfolding hash_config stream_config total_tokens
  stream_record f req result =
      let cfg_hash = hash_config f (stream_config req result) in
      let run_id = take 16 cfg_hash in
      record {
        run_id = run_id;
        config_hash = cfg_hash;
        prompt = req.prompt;
        output = result.output;
        phase = req.phase;
        backend = req.backend;
        router = req.router;
        selected_experts = result.selected_experts;
        total_tokens = total_tokens result.metrics;
        total_cost_usd = f.cost_usd result.metrics;
        total_latency_ms = f.latency_ms result.metrics;
        epu = f.ratio (Metrics.epu result.metrics);
        kv_transfers = result.metrics.kv_cache_transfers;
        timestamp = f.now;
        trace_id = [];
        tenant_id = [];
      }

  -- The dictionary of the last event
  unfoldable pub final_of : Formats F J → F → InferRequest → PipelineResult → FinalEvent F
  unfolding hash_config stream_config total_tokens
  final_of f elapsed_ms req result =
      let cfg_hash = hash_config f (stream_config req result) in
      record {
        output = result.output;
        selected_experts = result.selected_experts;
        total_tokens = total_tokens result.metrics;
        total_cost_usd = f.cost_usd result.metrics;
        total_latency_ms = f.latency_ms result.metrics;
        epu = f.ratio (Metrics.epu result.metrics);
        kv_transfers = result.metrics.kv_cache_transfers;
        run_id = take 16 cfg_hash;
        config_hash = cfg_hash;
        elapsed_ms = elapsed_ms;
      }

  -- `infer_stream`, read to its end; `latency_ms` and `elapsed_ms` are what the clock shows.
  unfoldable pub infer_stream :
      {S : Type 0}
      → Outside S
      → Formats F J
      → (ExpertMetrics → F)
      → F
      → InferRequest
      → App F J
      → Result RouteError (List (StreamEvent F)) × App F J
  unfolding build_experts make_pipeline run expert_events stream_record final_of
  infer_stream w f latency_ms elapsed_ms req s =
      elim (do
        experts ← build_experts w req.backend
        pipe ← make_pipeline w req.phase experts req.max_tokens
        run w pipe req.prompt) [
          | raised x ↦ (raised (failed x), s)
          | ok result ↦ (
            ok (
                expert_events latency_ms 0 result.per_expert
                ++ done (final_of f elapsed_ms req result) ∷ []),
            record s {
              rows =
                  if req.save_run
                  then Store.save f.json (stream_record f req result) s.rows
                  else s.rows;
            },
          )
        ]
