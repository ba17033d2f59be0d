-- ===== src/Server/Routes/Answers.antt =====
-- Requests to the mock backend are answered (src/chen/server/routes.py).
use chen.Common.{
  ◌≤◌, true, ◌≡◌, refl, ap, ◌∙◌, List, [], ◌∷◌, length, length-map, map, arith, text_key,
}
use chen.Common.Result.{ok}
use chen.Core.Expert.{ExpertMetrics}
use chen.Server.Messages.{is_valid, InferRequest, InferResponse, ExpertMetricsModel, model_of}
use chen.Server.Garage.{Outside, build_experts, sequence}
use chen.Server.Routes.{Formats, App, run_request, infer, response_of}
use chen.Server.Garage.Runs.{garage, build_experts-garage, cascade_result, phase_run}

model-names :
    (ms : List ExpertMetrics)
    → map (λ (m : ExpertMetricsModel). m.expert_name) (map model_of ms)
      ≡ map (λ (m : ExpertMetrics). m.expert_name) ms
unfolding model_of
model-names [] = refl
model-names (m ∷ ms) = ap (λ ns. m.expert_name ∷ ns) (model-names ms)

phase-answered :
    {S F J : Type 0} (w : Outside S) (f : Formats F J) (req : InferRequest) (s : App F J)
    → req.backend ≡ "mock"
    → 1 ≤ req.phase
    → req.phase ≤ 3
    → (p : InferResponse F) × ((infer w f req s).0 ≡ ok p)
      × (map (λ (m : ExpertMetricsModel). m.expert_name) p.per_expert ≡ p.selected_experts)
      × (1 ≤ length p.per_expert)
      × (length p.per_expert ≤ 3)
unfolding infer run_request response_of
phase-answered w f req s mock low high =
    let (r, ran, names, least, most) = phase_run w req.prompt req.max_tokens req.phase low high in
    let built : build_experts w req.backend ≡ ok (garage w) = rw mock (build_experts-garage w) in
    let size = length-map model_of r.per_expert in
    (
      response_of f req r,
      ground (arith, built, ran),
      model-names r.per_expert ∙ names,
      ground (arith, size, least),
      ground (arith, size, most),
    )

-- A request that passes the checks of its fields and names the mock backend is answered, whatever
-- the scores of the router and the state are: the answer reports exactly the experts that were
-- selected, in that order, at least one and at most three.
pub mock-infer :
    {S F J : Type 0} (w : Outside S) (f : Formats F J) (req : InferRequest) (s : App F J)
    → req.backend ≡ "mock"
    → is_valid req ≡ true
    → (p : InferResponse F) × ((infer w f req s).0 ≡ ok p)
      × (map (λ (m : ExpertMetricsModel). m.expert_name) p.per_expert ≡ p.selected_experts)
      × (1 ≤ length p.per_expert)
      × (length p.per_expert ≤ 3)
unfolding is_valid
mock-infer w f req s mock valid =
    phase-answered w f req s mock (ground (arith, valid)) (ground (arith, valid))

-- In phase 1 the mock backend's requests select the two experts of the sequence.
pub mock_cascade-sequence :
    {S F J : Type 0} (w : Outside S) (f : Formats F J) (req : InferRequest) (s : App F J)
    (p : InferResponse F)
    → req.backend ≡ "mock"
    → req.phase ≡ 1
    → (infer w f req s).0 ≡ ok p
    → p.selected_experts ≡ sequence
unfolding infer run_request response_of
mock_cascade-sequence w f req s p mock one answered =
    let (r, ran, names, selected) = cascade_result w req.prompt req.max_tokens in
    let built : build_experts w req.backend ≡ ok (garage w) = rw mock (build_experts-garage w) in
    ground (arith, built, ran, one, answered, selected)
