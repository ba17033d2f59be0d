-- ===== src/Server/Routes/Streamed.antt =====
-- /infer/stream and /infer (src/chen/server/routes.py).
use chen.Common.{ℕ, ◌+◌, ◌≡◌, refl, ap, ◌∙◌, inl, inr, Text, List, [], ◌∷◌, ◌++◌, map, arith}
use chen.Common.Result.{Result, ok, raised, Result-cases}
use chen.Core.Expert.{CoreError, ExpertMetrics}
use chen.Core.Pipeline.{PipelineResult}
use mathlib.Core.Path.{subst}
use chen.Core.Metrics.{AggregateMetrics}
use chen.Server.Messages.{
  RouteError, failed, InferRequest, InferResponse, ExpertMetricsModel, model_of, config_of,
}
use chen.Server.Garage.{Outside}
use chen.Server.Routes.{
  Formats, App, response_of, record_of, stored, hash_config, run_request, infer,
}
use chen.Server.Routes.Streaming.{
  StreamEvent, FinalEvent, expert, done, expert_events, final_of, stream_config, stream_record,
  infer_stream,
}

-- Events from index `i` on say of each expert of a response its name, its role and its tokens; their
-- latencies are any.
abbrev pub AreEvents : {F : Type 0} → ℕ → List ExpertMetricsModel → List (StreamEvent F) → Type 0
AreEvents i [] es = es ≡ []
AreEvents {F = F} i (m ∷ ms) es =
    (latency_ms : F) × (rest : List (StreamEvent F)) × (es
      ≡ expert i m.expert_name m.role latency_ms (m.input_tokens + m.output_tokens) ∷ rest)
    × AreEvents (i + 1) ms rest

expert_events-AreEvents :
    {F : Type 0} (latency_ms : ExpertMetrics → F) (i : ℕ) (ms : List ExpertMetrics)
    → AreEvents i (map model_of ms) (expert_events latency_ms i ms)
unfolding expert_events model_of
expert_events-AreEvents latency_ms i [] = refl
expert_events-AreEvents latency_ms i (m ∷ ms) = (
  latency_ms m,
  expert_events latency_ms (i + 1) ms,
  refl,
  expert_events-AreEvents latency_ms (i + 1) ms,
)

-- A last event says what a response does, with any latency.
pub record IsRest (F : Type 0) (p : InferResponse F) (r : FinalEvent F) : Type 0 where
  pub output : r.output ≡ p.output
  pub experts : r.selected_experts ≡ p.selected_experts
  pub tokens : r.total_tokens ≡ p.total_tokens
  pub cost : r.total_cost_usd ≡ p.total_cost_usd
  pub ratio : r.epu ≡ p.epu
  pub transfers : r.kv_transfers ≡ p.kv_transfers
  pub same_run : r.run_id ≡ p.run_id
  pub same_hash : r.config_hash ≡ p.config_hash

-- The same formats at another time and with another latency
abbrev pub at_time : {F J : Type 0} → Formats F J → Text → (AggregateMetrics → F) → Formats F J
at_time f now latency_ms = record f { now = now; latency_ms = latency_ms }

final_of-IsRest :
    {F J : Type 0} (f : Formats F J) (now : Text) (latency_ms : AggregateMetrics → F)
    (elapsed_ms : F) (req : InferRequest) (result : PipelineResult)
    → IsRest F
        (response_of f req result)
        (final_of (at_time f now latency_ms) elapsed_ms req result)
unfolding final_of response_of stream_config config_of hash_config
final_of-IsRest f now latency_ms elapsed_ms req result = record {
  output = refl;
  experts = refl;
  tokens = refl;
  cost = refl;
  ratio = refl;
  transfers = refl;
  same_run = refl;
  same_hash = refl;
}

-- What is left of `infer_stream` after the run
finished :
    {F J : Type 0}
    → Formats F J
    → (ExpertMetrics → F)
    → F
    → InferRequest
    → App F J
    → Result CoreError PipelineResult
    → Result RouteError (List (StreamEvent F)) × App F J
finished f latency_ms elapsed_ms req s (raised y) = (raised (failed y), s)
finished f latency_ms elapsed_ms req s (ok r) = (
  ok (expert_events latency_ms 0 r.per_expert ++ done (final_of f elapsed_ms req r) ∷ []),
  record s { rows = stored f req r s.rows },
)

streamed :
    {S F J : Type 0} (w : Outside S) (f : Formats F J) (latency_ms : ExpertMetrics → F)
    (elapsed_ms : F) (req : InferRequest) (s : App F J) (x : Result CoreError PipelineResult)
    → run_request w req ≡ x
    → infer_stream w f latency_ms elapsed_ms req s ≡ finished f latency_ms elapsed_ms req s x
unfolding infer_stream run_request stored record_of stream_record stream_config config_of finished
streamed {F = F} {J = J} w f latency_ms elapsed_ms req s x ran =
    ap
      (λ (y : Result CoreError PipelineResult).
        elim y as (λ z. Result RouteError (List (StreamEvent F)) × App F J) [
          | raised e ↦ (raised (failed e), s)
          | ok r ↦ (
            ok (expert_events latency_ms 0 r.per_expert ++ done (final_of f elapsed_ms req r) ∷ []),
            record s { rows = stored f req r s.rows },
          )
        ])
      ran
    ∙ elim x [ raised e ↦ refl | ok r ↦ refl ]

-- A stream of a request that `infer` answers, at whatever time and with whatever latencies, has an
-- event with the name, the role and the tokens of each expert of the answer, in order, and then one
-- with the output, the experts, the tokens, the cost, the ratio, the transfers, the run id and the
-- hash of the answer. It leaves in the run store the record that `infer` would leave at its time and
-- with its latency, but, unlike `infer`, it leaves the metrics as they were.
pub infer_stream-infer :
    {S F J : Type 0} (w : Outside S) (f : Formats F J) (now : Text)
    (total_ms : AggregateMetrics → F) (latency_ms : ExpertMetrics → F) (elapsed_ms : F)
    (req : InferRequest) (s : App F J) (p : InferResponse F)
    → (infer w f req s).0 ≡ ok p
    → (es : List (StreamEvent F)) × (r : FinalEvent F) × ((infer_stream w
          (at_time f now total_ms)
          latency_ms
          elapsed_ms
          req
          s).0
        ≡ ok (es ++ done r ∷ []))
      × AreEvents 0 p.per_expert es
      × IsRest F p r
      × ((infer_stream w (at_time f now total_ms) latency_ms elapsed_ms req s).1.rows
          ≡ (infer w (at_time f now total_ms) req s).1.rows)
      × ((infer_stream w (at_time f now total_ms) latency_ms elapsed_ms req s).1.events ≡ s.events)
unfolding infer finished
infer_stream-infer {F = F} {J = J} w f now total_ms latency_ms elapsed_ms req s p h =
    let f' = at_time f now total_ms in
    elim (Result-cases (run_request w req)) [
      | inl (result, ran) ↦
          let shown : response_of f req result ≡ p = ground (arith, ran, h) in
          let ends = streamed w f' latency_ms elapsed_ms req s (ok result) ran in
          let rest = final_of-IsRest f now total_ms elapsed_ms req result in
          let sent = expert_events-AreEvents latency_ms 0 result.per_expert in
          (
            expert_events latency_ms 0 result.per_expert,
            final_of f' elapsed_ms req result,
            ap (λ (r : Result RouteError (List (StreamEvent F)) × App F J). r.0) ends,
            subst
                (λ (x : InferResponse F).
                  AreEvents 0 x.per_expert (expert_events latency_ms 0 result.per_expert))
                shown sent,
            subst (λ (x : InferResponse F). IsRest F x (final_of f' elapsed_ms req result)) shown
                rest,
            ap (λ (r : Result RouteError (List (StreamEvent F)) × App F J). r.1.rows) ends
                ∙ ground (arith, ran),
            ap (λ (r : Result RouteError (List (StreamEvent F)) × App F J). r.1.events) ends,
          )
      | inr (y, raises) ↦ absurd (ground (arith, raises, h))
    ]

-- A request that raises leaves the metrics and the run store as they were, and raises the same in
-- `infer` and in `infer_stream`.
pub failed_unchanged :
    {S F J : Type 0} (w : Outside S) (f : Formats F J) (latency_ms : ExpertMetrics → F)
    (elapsed_ms : F) (req : InferRequest) (s : App F J) (x : RouteError)
    → (infer w f req s).0 ≡ raised x
    → ((infer w f req s).1 ≡ s) × (infer_stream w f latency_ms elapsed_ms req s ≡ (raised x, s))
unfolding infer finished
failed_unchanged w f latency_ms elapsed_ms req s x h = elim (Result-cases (run_request w req)) [
  | inl (result, ran) ↦ absurd (ground (arith, ran, h))
  | inr (y, raises) ↦
      let ends = streamed w f latency_ms elapsed_ms req s (raised y) raises in
      (ground (arith, raises, h), ends ∙ ground (arith, raises, h))
]
