-- ===== src/Core/Handoff/Examples.antt =====
-- Runs of the second and third phase at concrete inputs.
use chen.Common.{
  ℕ, ◌+◌, ◌≤◌, arith, Text, String, codes, Bool, true, false, ◌≡◌, refl, sym, ap, inl, inr,
  Bool-cases, Option, none, some, List, [], ◌∷◌, ltb, length, map, All, ◌==◌, text_key,
}
use chen.Common.Result.{ok, raised}
use chen.Common.Dict.{lookup, insert}
use chen.Memory.{Embedder, empty_memory}
use chen.Core.Expert.{analyst, synthesizer, backend_failed, KvCache, Expert, ExpertMetrics, invoke}
use chen.Core.Expert.Invoke.{invoke-answers}
use chen.Core.Pipeline.{PipelineResult, by_name, missing, get_expert}
use chen.Core.Router.{logistic_route, Limits}
use chen.Core.Cascade
use chen.Core.Handoff.{Settings, Hand}
use chen.Core.Handoff.Rounds.{IsDecoding}
use chen.Core.Handoff.Transfers.{failed_transfers_unrecorded}
use chen.Core.Handoff.KvPass.{KvPassPipeline}
use chen.Core.Handoff.KvPass
use chen.Core.Handoff.KvPass.Runs.{kv_run-answers}
use chen.Core.Handoff.Routed.{RoutingPipeline, selected_names}
use chen.Core.Handoff.Routed
use chen.Core.Handoff.Routed.TextMode.{cascade_of, plain_result, text_run_is_cascade}
use chen.Core.Handoff.Routed.Routers.{logistic_run-answers}
use chen.Core.Mock.{Hashes, MockBackend, as_backend, generate, encoded, decode}
use chen.Core.Mock.Answers.{IsMock-IsDecoding}

abbrev hashes : Hashes
hashes = record {
  utf8 = λ text. text;
  keyed = λ seed chunk. seed + length chunk;
  short = λ text. length text;
  hex = λ text. text;
  repr = λ text. text;
  strip = λ text. text;
}

abbrev mock : Text → ℕ → MockBackend
mock model layers = record {
  params_m = 3000;
  model_id = model;
  n_layers = layers;
  n_heads = 2;
  head_dim = 4;
  seed = 42;
  role_hint = model;
}

abbrev first : Expert
first = record {
  name = "a";
  role = analyst;
  backend = as_backend hashes (mock (codes "s") 2);
  description = "";
}

abbrev second : Expert
second = record {
  name = "b";
  role = synthesizer;
  backend = as_backend hashes (mock (codes "l") 3);
  description = "";
}

abbrev settings : Settings
settings = record {
  experts = first ∷ second ∷ [];
  max_tokens_per_expert = 256;
  write_intermediate_to_memory = false;
  memory_retrieve_k = 0;
  fallback_to_text = true;
  cost = record { input_per_1m = 1; output_per_1m = 2 };
}

abbrev embedder : Embedder
embedder = record {
  digest = λ role expert_name text. expert_name;
  embed = λ text. [];
  closer = λ q v w. false;
}

abbrev passing : KvPassPipeline
passing = record { settings = settings; sequence = "a" ∷ "b" ∷ [] }

mocks-IsDecoding : IsDecoding (first ∷ second ∷ [])
mocks-IsDecoding =
    IsMock-IsDecoding hashes (first ∷ second ∷ [])
      ((mock (codes "s") 2, refl), ((mock (codes "l") 3, refl), tt))

kv_run-answers_example :
    (r : PipelineResult) × (mode : Bool) × ((KvPass.run embedder
        (λ n. n)
        (codes "hi")
        none
        passing
        empty_memory).0
      ≡ ok (r, mode))
    × (map (λ (m : ExpertMetrics). m.expert_name) r.per_expert ≡ "a" ∷ "b" ∷ [])
    × (r.selected_experts ≡ "a" ∷ "b" ∷ [])
unfolding missing by_name insert lookup
kv_run-answers_example =
    kv_run-answers embedder (λ n. n) (codes "hi") none passing empty_memory mocks-IsDecoding refl
      refl

abbrev limits : Limits
limits = record { min_activation = 1; max_activation = 2; force_last_role = synthesizer }

abbrev routed : RoutingPipeline
routed = record {
  settings = settings;
  router = λ text es. logistic_route (λ (i j : ℕ). ltb j i) limits (λ e. 1) (λ i. true) es;
  text_handoff = true;
}

logistic_run-answers_example :
    (r : PipelineResult) × (mode : Bool) × ((Routed.run embedder
        (λ n. n)
        (codes "hi")
        none
        routed
        empty_memory).0
      ≡ ok (r, mode))
    × (map (λ (m : ExpertMetrics). m.expert_name) r.per_expert
        ≡ logistic_route (λ (i j : ℕ). ltb j i) limits (λ e. 1) (λ i. true) (first ∷ second ∷ []))
    × (r.selected_experts
        ≡ logistic_route (λ (i j : ℕ). ltb j i) limits (λ e. 1) (λ i. true) (first ∷ second ∷ []))
    × (1 ≤ length r.per_expert)
    × (length r.per_expert ≤ 2)
logistic_run-answers_example =
    logistic_run-answers (λ (i j : ℕ). ltb j i) limits (λ text e. 1) (λ i. true) embedder (λ n. n)
      (codes "hi") none routed first (second ∷ []) empty_memory (omega arith) refl refl
      mocks-IsDecoding refl

text_run_is_cascade_example :
    (
      plain_result (Routed.run embedder (λ n. n) (codes "hi") none routed empty_memory).0,
      (Routed.run embedder (λ n. n) (codes "hi") none routed empty_memory).1,
    )
    ≡ Cascade.run embedder
        (λ n. n)
        (codes "hi")
        none
        (cascade_of settings
          (selected_names (routed.router (codes "hi") settings.experts) settings.experts))
        empty_memory
text_run_is_cascade_example =
    text_run_is_cascade embedder (λ n. n) (codes "hi") none routed empty_memory refl refl refl

-- An expert whose backend takes over no cache.
abbrev broken : Expert
broken = record first {
  backend = record (as_backend hashes (mock (codes "s") 2)) {
    transfer_cache = λ c. raised backend_failed;
  };
}

only_broken : (n : String) (e : Expert) → get_expert n (broken ∷ []) ≡ ok e → broken ≡ e
unfolding get_expert by_name insert lookup
only_broken n e h = elim (Bool-cases ("a" == n)) [
  | inl here ↦ ground (arith, here, h)
  | inr there ↦ absurd (ground (arith, there, h))
]

broken-IsDecoding : IsDecoding (broken ∷ [])
unfolding as_backend
broken-IsDecoding = record {
  serving = record {
    serves = λ n e h text k. (
      generate hashes (mock (codes "s") 2) text,
      ap (λ (f : Expert). f.backend.generate text k) (sym (only_broken n e h)),
    );
  };
  decodes = λ n e h c k. (
    decode hashes (mock (codes "s") 2) c,
    ap (λ (f : Expert). f.backend.decode c k) (sym (only_broken n e h)),
  );
}

abbrev failing : KvPassPipeline
failing = record { settings = record settings { experts = broken ∷ [] }; sequence = "a" ∷ "a" ∷ [] }

failing_run :
    (r : PipelineResult) × (mode : Bool) × ((KvPass.run embedder
        (λ n. n)
        (codes "hi")
        none
        failing
        empty_memory).0
      ≡ ok (r, mode))
    × (map (λ (m : ExpertMetrics). m.expert_name) r.per_expert ≡ "a" ∷ "a" ∷ [])
    × (r.selected_experts ≡ "a" ∷ "a" ∷ [])
unfolding missing by_name insert lookup
failing_run =
    kv_run-answers embedder (λ n. n) (codes "hi") none failing empty_memory broken-IsDecoding refl
      refl

failed_transfers_unrecorded_example :
    (m : ExpertMetrics) × (ms : List ExpertMetrics) × (failing_run.0.per_expert ≡ m ∷ ms)
    × All (λ k. k.cache_transfer_succeeded ≡ true) ms
failed_transfers_unrecorded_example =
    failed_transfers_unrecorded embedder (λ n. n) (codes "hi") none failing empty_memory "a"
      ("a" ∷ []) failing_run.0 failing_run.1 refl failing_run.2

abbrev handed : KvCache
handed = encoded hashes (mock (codes "l") 3) (codes "hi")

abbrev hand : Hand
hand = record { cache = some handed; text = codes "ho"; text_mode = false }

answered :
    (next : Option KvCache) × (m : ExpertMetrics) × (invoke broken (some handed.source_text) none 8
      ≡ ok (generate hashes (mock (codes "s") 2) handed.source_text, next, m))
unfolding as_backend
answered =
    let (next, m, done, named, moved) =
      invoke-answers broken handed.source_text 8
        (generate hashes (mock (codes "s") 2) handed.source_text) refl in
    (next, m, done)
