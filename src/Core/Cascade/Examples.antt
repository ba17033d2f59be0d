-- ===== src/Core/Cascade/Examples.antt =====
-- A cascade at concrete inputs.
use chen.Common.{
  String, codes, true, false, ◌≡◌, refl, sym, ap, inl, inr, none, some, [], ◌∷◌, map, arith, ◌==◌,
  Bool-cases, text_key,
}
use chen.Common.Result.{ok, raised}
use chen.Common.Dict.{lookup, insert}
use chen.Memory.{Embedder, empty_memory}
use chen.Core.Expert.{backend_failed, analyst, Backend, Expert, ExpertMetrics}
use chen.Core.Cascade.{CascadePipeline, run}
use chen.Core.Pipeline.{PipelineResult, by_name, get_expert, missing}
use chen.Core.Pipeline.Serving.{IsServing}
use chen.Core.Cascade.Runs.{run-answers}

abbrev echo : Backend
echo = record {
  params_m = 7;
  supports_kv_cache = false;
  generate = λ text n. ok text;
  encode = λ text. raised backend_failed;
  decode = λ c n. ok c.source_text;
  transfer_cache = λ c. ok c;
  count_tokens = none;
}

abbrev parrot : Expert
parrot = record { name = "a"; role = analyst; backend = echo; description = "" }

abbrev cascade : CascadePipeline
cascade = record {
  experts = parrot ∷ [];
  sequence = "a" ∷ "a" ∷ [];
  max_tokens_per_expert = 256;
  write_intermediate_to_memory = true;
  memory_retrieve_k = 2;
  cost = record { input_per_1m = 1; output_per_1m = 2 };
}

abbrev embedder : Embedder
embedder = record {
  digest = λ role expert_name text. expert_name;
  embed = λ text. [];
  closer = λ q v w. false;
}

only_parrot : (n : String) (e : Expert) → get_expert n cascade.experts ≡ ok e → parrot ≡ e
unfolding get_expert by_name insert lookup
only_parrot n e h = elim (Bool-cases ("a" == n)) [
  | inl here ↦ ground (arith, here, h)
  | inr there ↦ absurd (ground (arith, there, h))
]

cascade-IsServing : IsServing cascade.experts
cascade-IsServing = record {
  serves = λ n e h text k.
      (text, ap (λ (f : Expert). f.backend.generate text k) (sym (only_parrot n e h)));
}

run-answers_example :
    (r : PipelineResult) × ((run embedder (λ n. n) (codes "hi") (some 8) cascade empty_memory).0
      ≡ ok r)
    × (map (λ (m : ExpertMetrics). m.expert_name) r.per_expert ≡ "a" ∷ "a" ∷ [])
    × (r.selected_experts ≡ "a" ∷ "a" ∷ [])
unfolding missing by_name insert lookup
run-answers_example =
    run-answers embedder (λ n. n) (codes "hi") (some 8) cascade empty_memory cascade-IsServing refl
