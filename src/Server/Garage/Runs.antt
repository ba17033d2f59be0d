-- ===== src/Server/Garage/Runs.antt =====
-- The pipelines of the server over the mock backend (src/chen/server/routes.py).
use chen.Common.{
  ℕ, ◌≤◌, Text, String, codes, true, false, ◌≡◌, refl, sym, ap, ◌∙◌, inl, inr, none, List, [], ◌∷◌,
  eqb, length, length-map, map, arith, text_key, Bool-cases,
}
use mathlib.Core.Path.{subst}
use chen.Common.Result.{Result, ok, ◌>>=◌}
use chen.Common.Dict.{lookup, insert}
use chen.Memory.{empty_memory}
use chen.Core.Expert.{
  CoreError, analyst, reasoner, coder, synthesizer, ExpertRole, Expert, ExpertMetrics,
}
use chen.Core.Pipeline.{PipelineResult, by_name, missing}
use chen.Core.Cascade.{CascadePipeline, new_cascade}
use chen.Core.Cascade.Runs.{run-answers}
use chen.Core.Handoff.Rounds.{IsDecoding}
use chen.Core.Handoff.KvPass.{KvPassPipeline, new_kv_pass}
use chen.Core.Handoff.KvPass.Runs.{kv_run-answers}
use chen.Core.Handoff.Routed.{RoutingPipeline}
use chen.Core.Handoff.Routed.TextMode.{plain_result}
use chen.Core.Handoff.Routed.Routers.{logistic_run-answers}
use chen.Core.Mock.{as_backend}
use chen.Core.Mock.Answers.{IsMock-IsDecoding}
use chen.Server.Garage.{
  Outside, default_mock, build_backend, build_expert, build_experts, sequence, settings,
  default_limits, default_router, make_pipeline, run,
}

module _ {S : Type 0} (w : Outside S) where
  mock_expert : String → ExpertRole → ℕ → Expert
  mock_expert name role params_m = record {
    name = name;
    role = role;
    backend = as_backend w.hashes (default_mock (codes name) params_m);
    description = "";
  }

  others : List Expert
  unfolding mock_expert
  others =
      mock_expert "reasoner" reasoner 8000
      ∷ mock_expert "coder" coder 7000
      ∷ mock_expert "synthesizer" synthesizer 3000
      ∷ []

  pub garage : List Expert
  unfolding mock_expert others
  garage = mock_expert "analyst" analyst 3000 ∷ others

  pub build_experts-garage : build_experts w "mock" ≡ ok garage
  unfolding build_experts build_expert build_backend garage others mock_expert
  build_experts-garage = refl

  garage-IsDecoding : IsDecoding garage
  unfolding garage others mock_expert
  garage-IsDecoding = IsMock-IsDecoding w.hashes garage (
    (default_mock (codes "analyst") 3000, refl),
    (
      (default_mock (codes "reasoner") 8000, refl),
      (
        (default_mock (codes "coder") 7000, refl),
        ((default_mock (codes "synthesizer") 3000, refl), tt),
      ),
    ),
  )

  garage-named : missing sequence (by_name garage []) ≡ false
  unfolding garage others mock_expert sequence missing by_name lookup insert
  garage-named = refl

  -- A run that invoked the experts it reports as selected, between one and three of them.
  abbrev pub IsAnswered : Result CoreError PipelineResult → Type 0
  IsAnswered run =
      (r : PipelineResult) × (run ≡ ok r)
      × (map (λ (m : ExpertMetrics). m.expert_name) r.per_expert ≡ r.selected_experts)
      × (1 ≤ length r.per_expert)
      × (length r.per_expert ≤ 3)

  from_names :
      (run : Result CoreError PipelineResult) (r : PipelineResult)
      → run ≡ ok r
      → map (λ (m : ExpertMetrics). m.expert_name) r.per_expert ≡ sequence
      → r.selected_experts ≡ sequence
      → IsAnswered run
  unfolding sequence
  from_names run r ran names selected =
      let size : length r.per_expert ≡ 2 =
        sym (length-map (λ (m : ExpertMetrics). m.expert_name) r.per_expert) ∙ ap length names in
      (r, ran, names ∙ sym selected, ground (arith, size), ground (arith, size))

  pub cascade_result :
      (prompt : Text) (n : ℕ)
      → (r : PipelineResult) × ((make_pipeline w 1 garage n >>= (λ pipe. run w pipe prompt)) ≡ ok r)
        × (map (λ (m : ExpertMetrics). m.expert_name) r.per_expert ≡ sequence)
        × (r.selected_experts ≡ sequence)
  unfolding make_pipeline run new_cascade garage others mock_expert
  cascade_result prompt n =
      let c : CascadePipeline = record {
        experts = garage;
        sequence = sequence;
        max_tokens_per_expert = n;
        write_intermediate_to_memory = false;
        memory_retrieve_k = 0;
        cost = w.cost;
      } in
      let (r, ran, names, selected) =
        run-answers w.embedder w.clock prompt none c empty_memory garage-IsDecoding.serving
          garage-named in
      (r, ground (arith, ran, garage-named), names, selected)

  cascade_run :
      (prompt : Text) (n : ℕ)
      → IsAnswered (make_pipeline w 1 garage n >>= (λ pipe. run w pipe prompt))
  cascade_run prompt n =
      let (r, ran, names, selected) = cascade_result prompt n in from_names _ r ran names selected

  kv_pass_run :
      (prompt : Text) (n : ℕ)
      → IsAnswered (make_pipeline w 2 garage n >>= (λ pipe. run w pipe prompt))
  unfolding make_pipeline run new_kv_pass garage others mock_expert settings plain_result
  kv_pass_run prompt n =
      let c : KvPassPipeline = record {
        settings = settings garage n w.cost;
        sequence = sequence;
      } in
      let (r, mode, ran, names, selected) =
        kv_run-answers w.embedder w.clock prompt none c empty_memory garage-IsDecoding refl
          garage-named in
      from_names _ r (ground (arith, ran, garage-named)) names selected

  routing_run :
      (prompt : Text) (n : ℕ)
      → IsAnswered (make_pipeline w 3 garage n >>= (λ pipe. run w pipe prompt))
  unfolding make_pipeline run garage settings plain_result default_router default_limits
  routing_run prompt n =
      let c : RoutingPipeline = record {
        settings = settings garage n w.cost;
        router = default_router w;
        text_handoff = true;
      } in
      let (r, mode, ran, names, selected, least, most) =
        logistic_run-answers w.more default_limits w.score w.passes w.embedder w.clock prompt none c
          (mock_expert "analyst" analyst 3000) others empty_memory (omega arith) refl refl
          garage-IsDecoding refl in
      (r, ground (arith, ran), names ∙ sym selected, least, most)

  abbrev pub IsPhase : Text → ℕ → ℕ → Type 0
  IsPhase prompt n phase =
      IsAnswered (make_pipeline w phase garage n >>= (λ pipe. run w pipe prompt))

  pub phase_run :
      (prompt : Text) (n phase : ℕ)
      → 1 ≤ phase
      → phase ≤ 3
      → IsAnswered (make_pipeline w phase garage n >>= (λ pipe. run w pipe prompt))
  phase_run prompt n phase low high = elim (Bool-cases (eqb phase 1)) [
    | inl one ↦
        let is : 1 ≡ phase = ground (arith, one) in
        subst (IsPhase prompt n) is (cascade_run prompt n)
    | inr above ↦ elim (Bool-cases (eqb phase 2)) [
      | inl two ↦
          let is : 2 ≡ phase = ground (arith, two) in
          subst (IsPhase prompt n) is (kv_pass_run prompt n)
      | inr top ↦
          let is : 3 ≡ phase = ground (arith, above, top, low, high) in
          subst (IsPhase prompt n) is (routing_run prompt n)
    ]
  ]
