-- ===== src/Core/Handoff/Rounds.antt =====
-- The rounds after the first (src/chen/phases/phase2_kv_pass.py, src/chen/phases/phase3_routing.py).
use chen.Common.{
  ℕ, Text, String, Bool, true, false, ◌≡◌, refl, sym, ap, ◌∙◌, inl, inr, Option, none, List, [],
  ◌∷◌, ◌++◌, append-nil, append_assoc, arith, length, map, text_key, Option-cases, Bool-cases,
}
use chen.Common.Result.{ok}
use chen.Memory.{Embedder, InMemoryMemory}
use chen.Core.Expert.{KvCache, Expert, ExpertMetrics}
use chen.Core.Expert.Invoke.{invoke_cache-answers}
use chen.Core.Metrics.{AggregateMetrics, new_metrics, add, finalize}
use chen.Core.Pipeline.{
  by_name, get_expert, missing, popped, noted, note, experts_of, PipelineResult,
}
use chen.Core.Pipeline.Serving.{
  IsServing, get_expert-found, get_expert-name, invoke_expert-answers, names_in, add-names,
}
use chen.Core.Handoff.{
  Settings, Hand, First, run_rounds, run_pipeline, by_text, after_transfer, hand_over, run_rest,
  written,
}

-- Besides generating a text, every expert that can be looked up decodes every cache.
pub record IsDecoding (es : List Expert) : Type 0 where
  pub serving : IsServing es
  pub decodes :
      (n : String) (e : Expert)
      → get_expert n es ≡ ok e
      → (c : KvCache) (k : ℕ) → (output : Text) × (e.backend.decode c k ≡ ok output)

by_text-answers :
    (p : Embedder) (es : List Expert) (n : String) (e : Expert) (text : Text) (max_tokens : ℕ)
    (mode : Bool) (memory : InMemoryMemory)
    → IsServing es
    → get_expert n es ≡ ok e
    → (output : Text) × (next : Option KvCache) × (m : ExpertMetrics) × (by_text p e text max_tokens
          mode memory
        ≡ ok (output, next, m, mode))
      × (m.expert_name ≡ e.name)
unfolding by_text
by_text-answers p es n e text max_tokens mode memory s found =
    let (output, next, m, done, named, moved) =
      invoke_expert-answers p es n e text max_tokens 0 memory s found in
    (output, next, m, ground (arith, done), named)

hand_over-answers :
    (p : Embedder) (es : List Expert) (n : String) (e : Expert) (hand : Hand) (max_tokens : ℕ)
    (memory : InMemoryMemory)
    → IsDecoding es
    → get_expert n es ≡ ok e
    → (output : Text) × (next : Option KvCache) × (m : ExpertMetrics) × (mode : Bool) × (hand_over p
          e hand max_tokens true memory
        ≡ ok (output, next, m, mode))
      × (m.expert_name ≡ e.name)
unfolding hand_over after_transfer
hand_over-answers p es n e hand max_tokens memory s found =
    let in_text =
      λ (mode : Bool). by_text-answers p es n e hand.text max_tokens mode memory s.serving found in
    elim (Bool-cases hand.text_mode) [
      | inl text ↦
          let (output, next, m, done, named) = in_text true in
          (output, next, m, true, ground (arith, text, done), named)
      | inr kv ↦ elim (Option-cases hand.cache) [
        | inl missing_cache ↦
            let (output, next, m, done, named) = in_text false in
            (output, next, m, false, ground (arith, kv, missing_cache, done), named)
        | inr (cache, held) ↦
            let (output, next, m, done, named) =
              invoke_cache-answers e cache max_tokens (λ t. s.serving.serves n e found t max_tokens)
                (λ d. s.decodes n e found d max_tokens) in
            elim (Bool-cases m.cache_transfer_succeeded) [
              | inl moved ↦ (output, next, m, false, ground (arith, kv, held, done, moved), named)
              | inr failed ↦
                  let (output', next', m', again, named') = in_text true in
                  (output', next', m', true, ground (arith, kv, held, done, failed, again), named')
            ]
      ]
    ]

pub run_rest-answers :
    (p : Embedder) (clock : ℕ → ℕ) (c : Settings) (ns : List String) (hand : Hand)
    (a : AggregateMetrics) (memory : InMemoryMemory)
    → IsDecoding c.experts
    → c.fallback_to_text ≡ true
    → missing ns (by_name c.experts []) ≡ false
    → (hand' : Hand) × (a' : AggregateMetrics) × ((run_rest p clock c ns hand a memory).0
        ≡ ok (hand', a'))
      × (names_in a' ≡ names_in a ++ ns)
unfolding run_rest
run_rest-answers p clock c [] hand a memory s fallback h =
    (hand, a, refl, sym (append-nil (names_in a)))
run_rest-answers p clock c (n ∷ ns) hand a memory s fallback h =
    let ((e, found), rest) = get_expert-found n ns c.experts h in
    let (output, next, m, mode, done, named) =
      hand_over-answers p c.experts n e hand c.max_tokens_per_expert memory s found in
    let (hand', a', ran, names) =
      run_rest-answers p clock c ns (record { cache = next; text = output; text_mode = mode })
        (add m a) (written p clock c e ns hand memory) s fallback rest in
    (
      hand',
      a',
      ground (arith, found, fallback, done, ran),
      names
          ∙ ap (λ ms. ms ++ ns) (add-names m a)
          ∙ append_assoc (names_in a) (m.expert_name ∷ []) ns
          ∙ ap (λ i. names_in a ++ i ∷ ns) (named ∙ get_expert-name n c.experts e found),
    )

-- A first round that answers under the expert's own name.
pub record IsAnswering (es : List Expert) (first : First) : Type 0 where
  pub answers :
      (n : String) (e : Expert) (k : ℕ) (memory : InMemoryMemory)
      → get_expert n es ≡ ok e
      → (output : Text) × (next : Option KvCache) × (m : ExpertMetrics) × (hand : Hand) × ((first e
            k memory).0
          ≡ ok (output, next, m, hand))
        × (m.expert_name ≡ e.name)

run_rounds-answers :
    (p : Embedder) (clock : ℕ → ℕ) (c : Settings) (first : First) (prompt : Text)
    (max_tokens : Option ℕ) (ns : List String) (memory : InMemoryMemory)
    → IsDecoding c.experts
    → IsAnswering c.experts first
    → c.fallback_to_text ≡ true
    → missing ns (by_name c.experts []) ≡ false
    → (hand : Hand) × (a : AggregateMetrics) × ((run_rounds p clock c first prompt max_tokens ns
          memory).0
        ≡ ok (hand, a))
      × (names_in a ≡ ns)
unfolding run_rounds new_metrics add
run_rounds-answers p clock c first prompt max_tokens [] memory s f fallback h =
    (record { cache = none; text = prompt; text_mode = false }, new_metrics c.cost, refl, refl)
run_rounds-answers p clock c first prompt max_tokens (n ∷ ns) memory s f fallback h =
    let ((e, found), rest) = get_expert-found n ns c.experts h in
    let k = popped max_tokens c.max_tokens_per_expert in
    let (output, next, m, hand, done, named) = f.answers n e k memory found in
    let (hand', a', ran, names) =
      run_rest-answers p clock c ns
        (record { cache = next; text = output; text_mode = hand.text_mode })
        (add m (new_metrics c.cost)) (written p clock c e ns hand (first e k memory).1) s fallback
        rest in
    (
      hand',
      a',
      ground (arith, found, done, ran),
      names ∙ ap (λ i. i ∷ ns) (named ∙ get_expert-name n c.experts e found),
    )

pub run_pipeline-answers :
    (p : Embedder) (clock : ℕ → ℕ) (c : Settings) (first : First) (prompt : Text)
    (max_tokens : Option ℕ) (ns : List String) (memory : InMemoryMemory)
    → IsDecoding c.experts
    → IsAnswering c.experts first
    → c.fallback_to_text ≡ true
    → missing ns (by_name c.experts []) ≡ false
    → (r : PipelineResult) × (mode : Bool) × ((run_pipeline p clock c first prompt max_tokens ns
          memory).0
        ≡ ok (r, mode))
      × (map (λ (m : ExpertMetrics). m.expert_name) r.per_expert ≡ ns)
      × (r.selected_experts ≡ ns)
unfolding run_pipeline
run_pipeline-answers p clock c first prompt max_tokens ns memory s f fallback h =
    let start =
      noted p c.write_intermediate_to_memory (note (clock (length ns)) prompt "user" "user" 10)
        memory in
    let (hand, a, ran, names) =
      run_rounds-answers p clock c first prompt max_tokens ns start s f fallback h in
    (
      record {
        output = hand.text;
        metrics = finalize (experts_of c.experts ns) a;
        per_expert = a.expert_metrics;
        selected_experts = ns;
      },
      hand.text_mode,
      ground (arith, ran),
      names,
      refl,
    )
