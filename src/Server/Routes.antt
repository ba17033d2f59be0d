-- ===== src/Server/Routes.antt =====
-- src/chen/server/routes.py: the handlers of /infer, /infer/stream, /runs and /runs/{run_id}, on the
-- run store of src/chen/persistence/run_store.py. A handler takes the requests that pydantic lets
-- through; its response and the state after it are its result. Floats, JSON and SHA-256 are the
-- parameter `Formats`.
pub mod Saved
pub mod Answers
pub mod Streaming
pub mod Streamed
mod Examples
use chen.Common.{
  ℕ, ◌+◌, Text, String, Bool, true, false, ◌&&◌, Option, none, some, List, [], ◌∷◌, ◌++◌, eqb, leb,
  length, take, map, if◌then◌else◌,
}
use chen.Common.Result.{Result, ok, raised, ◌>>=◌}
use chen.Core.Expert.{CoreError, ExpertRole, Expert, ExpertMetrics}
use chen.Core.Metrics.{AggregateMetrics, total_tokens}
use chen.Core.Metrics
use chen.Core.Router.{value}
use chen.Core.Pipeline.{PipelineResult}
use chen.Store.{ℤ, StoreError, RunRecord, Row, Json}
use chen.Store
use chen.Server.Messages.{
  InferRequest, RouteError, failed, unreadable, not_found, Config, InferResponse, RunSummary,
  RunDetail, MetricEvent, pipeline_run, recorded_experts, model_of, config_of, summary_of,
  detail_of,
}
use chen.Server.Garage.{Outside, Pipeline, build_experts, make_pipeline, run}

pub record Formats (F : Type 0) (J : Type 0) : Type 0 where
  pub json : Json J
  pub zero_float : F
  pub cost_usd : AggregateMetrics → F
  pub latency_ms : AggregateMetrics → F
  pub ratio : ℕ × ℕ → F
  pub dumps : Config → Text
  pub utf8 : Text → List ℕ
  pub sha256_hex : List ℕ → Text
  pub now : Text
  pub by_time : List (Row F J) → List (Row F J)

-- The state that the handlers share: the metrics, newest last, and the table of the store.
pub record App (F : Type 0) (J : Type 0) : Type 0 where
  pub events : List MetricEvent
  pub rows : List (Row F J)

-- The experts, the pipeline and its run.
unfoldable pub run_request :
    {S : Type 0} → Outside S → InferRequest → Result CoreError PipelineResult
unfolding build_experts make_pipeline run
run_request w req = do
  experts ← build_experts w req.backend
  pipe ← make_pipeline w req.phase experts req.max_tokens
  run w pipe req.prompt

module _ {F : Type 0} {J : Type 0} where
  -- `hash_config`
  unfoldable pub hash_config : Formats F J → Config → Text
  hash_config f config = f.sha256_hex (f.utf8 (f.dumps config))

  unfoldable pub record_of : Formats F J → InferRequest → PipelineResult → RunRecord F
  unfolding hash_config config_of total_tokens
  record_of f req result =
      let cfg_hash = hash_config f (config_of req result) in
      record {
        run_id = take 16 cfg_hash;
        config_hash = cfg_hash;
        prompt = req.prompt;
        output = result.output;
        phase = req.phase;
        backend = req.backend;
        router = req.router;
        selected_experts = result.selected_experts;
        total_tokens = total_tokens result.metrics;
        total_cost_usd = f.cost_usd result.metrics;
        total_latency_ms = f.latency_ms result.metrics;
        epu = f.ratio (Metrics.epu result.metrics);
        kv_transfers = result.metrics.kv_cache_transfers;
        timestamp = f.now;
        trace_id = [];
        tenant_id = [];
      }

  unfoldable pub stored :
      Formats F J → InferRequest → PipelineResult → List (Row F J) → List (Row F J)
  unfolding record_of
  stored f req result rows =
      if req.save_run then Store.save f.json (record_of f req result) rows else rows

  unfoldable pub response_of : Formats F J → InferRequest → PipelineResult → InferResponse F
  unfolding hash_config config_of total_tokens model_of
  response_of f req result =
      let cfg_hash = hash_config f (config_of req result) in
      record {
        output = result.output;
        selected_experts = result.selected_experts;
        per_expert = map model_of result.per_expert;
        total_tokens = total_tokens result.metrics;
        total_cost_usd = f.cost_usd result.metrics;
        total_latency_ms = f.latency_ms result.metrics;
        epu = f.ratio (Metrics.epu result.metrics);
        kv_transfers = result.metrics.kv_cache_transfers;
        run_id = take 16 cfg_hash;
        config_hash = cfg_hash;
      }

  -- `infer`
  unfoldable pub infer :
      {S : Type 0}
      → Outside S
      → Formats F J
      → InferRequest
      → App F J
      → Result RouteError (InferResponse F) × App F J
  unfolding run_request recorded_experts stored response_of
  infer w f req s = elim (run_request w req) [
    | raised x ↦ (raised (failed x), s)
    | ok result ↦ (
      ok (response_of f req result),
      record {
        events = s.events ++ (pipeline_run req.phase ∷ recorded_experts result.per_expert);
        rows = stored f req result s.rows;
      },
    )
  ]

  -- `list_runs`
  unfoldable pub list_runs :
      Formats F J → ℤ → Option ℕ → App F J → Result RouteError (List (RunSummary F))
  unfolding summary_of
  list_runs f limit phase s = elim (Store.list f.json f.zero_float f.by_time limit phase s.rows) [
    | raised x ↦ raised (unreadable x)
    | ok records ↦ ok (map summary_of records)
  ]

  -- `get_run`
  unfoldable pub get_run : Formats F J → Text → App F J → Result RouteError (RunDetail F)
  unfolding detail_of
  get_run f run_id s = elim (Store.get f.json f.zero_float run_id s.rows) [
    | raised x ↦ raised (unreadable x)
    | ok none ↦ raised not_found
    | ok (some r) ↦ ok (detail_of r)
  ]
