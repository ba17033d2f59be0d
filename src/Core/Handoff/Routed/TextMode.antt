-- ===== src/Core/Handoff/Routed/TextMode.antt =====
-- The third phase with text handed over (src/chen/phases/phase3_routing.py) and the first phase
-- (src/chen/phases/phase1_cascade.py).
use chen.Common.{
  ℕ, Text, String, Bool, true, false, ◌≡◌, refl, inl, inr, Option, none, some, List, [], ◌∷◌, arith,
  length,
}
use chen.Common.Result.{Result, ok, raised, Result-cases}
use chen.Memory.{Embedder, InMemoryMemory}
use chen.Core.Expert.{CoreError, Expert, invoke}
use chen.Core.Metrics.{AggregateMetrics, new_metrics, add}
use chen.Core.Pipeline.{get_expert, invoke_expert, popped, noted, note, PipelineResult}
use chen.Core.Cascade.{CascadePipeline, run_loop}
use chen.Core.Cascade
use chen.Core.Handoff.{
  Settings, Hand, by_text, hand_over, run_rest, with_hand, written, run_rounds, run_pipeline,
}
use chen.Core.Handoff.Routed.{RoutingPipeline, selected_names, first_text, routed_first, run}

-- The cascade with the settings of a routed pipeline.
unfoldable pub cascade_of : Settings → List String → CascadePipeline
cascade_of c names = record {
  experts = c.experts;
  sequence = names;
  max_tokens_per_expert = c.max_tokens_per_expert;
  write_intermediate_to_memory = c.write_intermediate_to_memory;
  memory_retrieve_k = c.memory_retrieve_k;
  cost = c.cost;
}

shown : Result CoreError (Hand × AggregateMetrics) → Result CoreError (Text × AggregateMetrics)
shown (raised x) = raised x
shown (ok (hand, a)) = ok (hand.text, a)

-- Without memory, a round in text mode is a round of the cascade.
run_rest-text :
    (p : Embedder) (clock : ℕ → ℕ) (c : Settings) (names ns : List String) (hand : Hand)
    (a : AggregateMetrics) (memory : InMemoryMemory)
    → c.write_intermediate_to_memory ≡ false
    → c.memory_retrieve_k ≡ 0
    → hand.text_mode ≡ true
    → (shown (run_rest p clock c ns hand a memory).0, (run_rest p clock c ns hand a memory).1)
      ≡ run_loop p clock (cascade_of c names) ns none hand.text a memory
unfolding run_rest run_loop cascade_of hand_over by_text written noted popped shown invoke_expert
run_rest-text p clock c names [] hand a memory w z t = refl
run_rest-text p clock c names (n ∷ ns) hand a memory w z t =
    elim (Result-cases (get_expert n c.experts)) [
      | inr (x, unknown) ↦ ground (arith, unknown)
      | inl (e, found) ↦
          elim (Result-cases (invoke e (some hand.text) none c.max_tokens_per_expert)) [
            | inr (x, failed) ↦ ground (arith, found, failed, w, z, t)
            | inl ((output, next, m), done) ↦
                let later =
                  run_rest-text p clock c names ns
                    (record { cache = next; text = output; text_mode = true }) (add m a) memory w z
                    refl in
                ground (arith, found, done, w, z, t, later)
          ]
    ]

routed_first-text :
    (p : Embedder) (text_handoff : Bool) (i : ℕ) (prompt : Text) (e : Expert) (k : ℕ)
    (memory : InMemoryMemory)
    → text_handoff ≡ true
    → i ≡ 0
    → routed_first p text_handoff i prompt e k memory ≡ (
      with_hand
          (invoke e (some prompt) none k)
          (record { cache = none; text = prompt; text_mode = true }),
      memory,
    )
unfolding routed_first first_text invoke_expert
routed_first-text p text_handoff i prompt e k memory t z = ground (arith, t, z)

run_rounds-text :
    (p : Embedder) (clock : ℕ → ℕ) (c : Settings) (text_handoff : Bool) (prompt : Text)
    (max_tokens : Option ℕ) (names ns : List String) (memory : InMemoryMemory)
    → c.write_intermediate_to_memory ≡ false
    → c.memory_retrieve_k ≡ 0
    → text_handoff ≡ true
    → (
      shown
          (run_rounds p clock c
            (routed_first p text_handoff c.memory_retrieve_k prompt)
            prompt
            max_tokens
            ns
            memory).0,
      (run_rounds p clock c
          (routed_first p text_handoff c.memory_retrieve_k prompt)
          prompt
          max_tokens
          ns
          memory).1,
    )
      ≡ run_loop p clock (cascade_of c names) ns max_tokens prompt (new_metrics c.cost) memory
unfolding run_rounds run_loop cascade_of with_hand written noted shown invoke_expert
run_rounds-text p clock c text_handoff prompt max_tokens names [] memory w z t = refl
run_rounds-text p clock c text_handoff prompt max_tokens names (n ∷ ns) memory w z t =
    let k = popped max_tokens c.max_tokens_per_expert in
    elim (Result-cases (get_expert n c.experts)) [
      | inr (x, unknown) ↦ ground (arith, unknown)
      | inl (e, found) ↦
          let first = routed_first-text p text_handoff c.memory_retrieve_k prompt e k memory t z in
          elim (Result-cases (invoke e (some prompt) none k)) [
            | inr (x, failed) ↦ ground (arith, found, failed, first, w, z)
            | inl ((output, next, m), done) ↦
                let later =
                  run_rest-text p clock c names ns
                    (record { cache = next; text = output; text_mode = true })
                    (add m (new_metrics c.cost)) memory w z refl in
                ground (arith, found, done, first, w, z, later)
          ]
    ]

-- The result without the flag that a routed run adds.
unfoldable pub plain_result :
    Result CoreError (PipelineResult × Bool) → Result CoreError PipelineResult
plain_result (raised x) = raised x
plain_result (ok (r, mode)) = ok r

-- With text handed over and no memory, which is how the server sets it up, a run of the third
-- phase is the run of the first phase on the experts that were selected, in its result, its
-- errors and the memory afterwards.
pub text_run_is_cascade :
    (p : Embedder) (clock : ℕ → ℕ) (prompt : Text) (max_tokens : Option ℕ) (c : RoutingPipeline)
    (memory : InMemoryMemory)
    → c.text_handoff ≡ true
    → c.settings.write_intermediate_to_memory ≡ false
    → c.settings.memory_retrieve_k ≡ 0
    → (
      plain_result (run p clock prompt max_tokens c memory).0,
      (run p clock prompt max_tokens c memory).1,
    )
      ≡ Cascade.run p clock prompt max_tokens
          (cascade_of c.settings
            (selected_names (c.router prompt c.settings.experts) c.settings.experts))
          memory
unfolding run run_pipeline Cascade.run cascade_of shown plain_result
text_run_is_cascade p clock prompt max_tokens c memory t w z =
    let s = c.settings in
    let names = selected_names (c.router prompt s.experts) s.experts in
    let start =
      noted p s.write_intermediate_to_memory (note (clock (length names)) prompt "user" "user" 10)
        memory in
    let first = routed_first p c.text_handoff s.memory_retrieve_k prompt in
    let same = run_rounds-text p clock s c.text_handoff prompt max_tokens names names start w z t in
    elim (Result-cases (run_rounds p clock s first prompt max_tokens names start).0) [
      | inr (x, failed) ↦ ground (arith, failed, same)
      | inl ((hand, a), done) ↦ ground (arith, done, same)
    ]
