-- ===== src/Core/Cascade/Runs.antt =====
-- What a run of the cascade returns (src/chen/phases/phase1_cascade.py).
use chen.Common.{
  ℕ, Text, String, false, ◌≡◌, refl, sym, ap, ◌∙◌, Option, none, some, List, [], ◌∷◌, ◌++◌,
  append-nil, append_assoc, arith, length, map, text_key,
}
use chen.Common.Result.{ok}
use chen.Memory.{Embedder, InMemoryMemory}
use chen.Core.Expert.{Expert, ExpertMetrics}
use chen.Core.Metrics.{AggregateMetrics, new_metrics, add, finalize}
use chen.Core.Router.{value}
use chen.Core.Cascade.{CascadePipeline, run_loop, run}
use chen.Core.Pipeline.{
  PipelineResult, by_name, get_expert, missing, invoke_expert, noted, note, confidence_at, popped,
  experts_of,
}
use chen.Core.Pipeline.Serving.{
  IsServing, get_expert-found, get_expert-name, invoke_expert-answers, invoke_expert-budget,
  names_in, add-names,
}

run_loop-answers :
    (p : Embedder) (clock : ℕ → ℕ) (c : CascadePipeline) (ns : List String) (max_tokens : Option ℕ)
    (text : Text) (a : AggregateMetrics) (memory : InMemoryMemory)
    → IsServing c.experts
    → missing ns (by_name c.experts []) ≡ false
    → (output : Text) × (a' : AggregateMetrics) × ((run_loop p clock c ns max_tokens text a
          memory).0
        ≡ ok (output, a'))
      × (names_in a' ≡ names_in a ++ ns)
unfolding run_loop
run_loop-answers p clock c [] max_tokens text a memory s h =
    (text, a, refl, sym (append-nil (names_in a)))
run_loop-answers p clock c (n ∷ ns) max_tokens text a memory s h =
    let ((e, found), rest) = get_expert-found n ns c.experts h in
    let k = popped max_tokens c.max_tokens_per_expert in
    let (output, next, m, done, named, moved) =
      invoke_expert-answers p c.experts n e text k c.memory_retrieve_k memory s found in
    let memory' = (invoke_expert p e text k c.memory_retrieve_k memory).1 in
    let (last, a', ran, names) =
      run_loop-answers p clock c ns none output (add m a)
        (noted p c.write_intermediate_to_memory
          (note (clock (length ns)) output (value e.role) e.name (confidence_at ns)) memory')
        s rest in
    (
      last,
      a',
      ground (arith, found, done, ran),
      names
          ∙ ap (λ ms. ms ++ ns) (add-names m a)
          ∙ append_assoc (names_in a) (m.expert_name ∷ []) ns
          ∙ ap (λ i. names_in a ++ i ∷ ns) (named ∙ get_expert-name n c.experts e found),
    )

-- If every name of the sequence is that of an expert, and the experts always generate a text, a run
-- returns: it has invoked exactly the experts of the sequence, in that order.
pub run-answers :
    (p : Embedder) (clock : ℕ → ℕ) (prompt : Text) (max_tokens : Option ℕ) (c : CascadePipeline)
    (memory : InMemoryMemory)
    → IsServing c.experts
    → missing c.sequence (by_name c.experts []) ≡ false
    → (r : PipelineResult) × ((run p clock prompt max_tokens c memory).0 ≡ ok r)
      × (map (λ (m : ExpertMetrics). m.expert_name) r.per_expert ≡ c.sequence)
      × (r.selected_experts ≡ c.sequence)
unfolding run
run-answers p clock prompt max_tokens c memory s h =
    let start =
      noted p c.write_intermediate_to_memory
        (note (clock (length c.sequence)) prompt "user" "user" 10) memory in
    let (output, a, ran, names) =
      run_loop-answers p clock c c.sequence max_tokens prompt (new_metrics c.cost) start s h in
    (
      record {
        output = output;
        metrics = finalize (experts_of c.experts c.sequence) a;
        per_expert = a.expert_metrics;
        selected_experts = c.sequence;
      },
      ground (arith, ran),
      names ∙ unfold new_metrics in refl,
      refl,
    )

run_loop-budget :
    (p : Embedder) (clock : ℕ → ℕ) (c : CascadePipeline) (ns : List String) (n : ℕ) (text : Text)
    (a : AggregateMetrics) (memory : InMemoryMemory) (first : String) (rest : List String)
    (e : Expert)
    → ns ≡ first ∷ rest
    → get_expert first c.experts ≡ ok e
    → ((text : Text) (j k : ℕ) → e.backend.generate text j ≡ e.backend.generate text k)
    → run_loop p clock c ns (some n) text a memory ≡ run_loop p clock c ns none text a memory
unfolding run_loop
run_loop-budget p clock c [] n text a memory first rest e h found same = refl
run_loop-budget p clock c (m ∷ ns) n text a memory first rest e h found same =
    let here : get_expert m c.experts ≡ ok e = ground (arith, h, found) in
    let alike =
      invoke_expert-budget p e text n c.max_tokens_per_expert c.memory_retrieve_k memory same in
    ground (arith, here, alike)

-- The argument `max_tokens` of a run reaches only the first expert: if that one is indifferent to
-- its budget, a run with the argument does exactly what a run without it does.
pub budget_first_only :
    (p : Embedder) (clock : ℕ → ℕ) (prompt : Text) (n : ℕ) (c : CascadePipeline)
    (memory : InMemoryMemory) (first : String) (rest : List String) (e : Expert)
    → c.sequence ≡ first ∷ rest
    → get_expert first c.experts ≡ ok e
    → ((text : Text) (j k : ℕ) → e.backend.generate text j ≡ e.backend.generate text k)
    → run p clock prompt (some n) c memory ≡ run p clock prompt none c memory
unfolding run
budget_first_only p clock prompt n c memory first rest e sequence found same =
    let start =
      noted p c.write_intermediate_to_memory
        (note (clock (length c.sequence)) prompt "user" "user" 10) memory in
    ground (
      arith,
      run_loop-budget p clock c c.sequence n prompt (new_metrics c.cost) start first rest e sequence
          found same,
    )
