-- ===== src/Core/Handoff/Transfers.antt =====
-- What becomes of a failed transfer (src/chen/phases/phase2_kv_pass.py).
use chen.Common.{
  ℕ, Text, String, Bool, true, false, ◌≡◌, refl, ap, inl, inr, Option, none, some, List, [], ◌∷◌,
  ◌++◌, arith, length, All, Option-cases, Bool-cases,
}
use chen.Common.Result.{ok, Result-cases}
use chen.Memory.{Embedder, InMemoryMemory}
use chen.Core.Expert.{KvCache, Expert, ExpertMetrics, invoke}
use chen.Core.Expert.Invoke.{text_succeeded}
use chen.Core.Metrics.{CostModel, AggregateMetrics, new_metrics, add}
use chen.Core.Pipeline.{get_expert, invoke_expert, popped, noted, note, PipelineResult}
use chen.Core.Handoff.{
  Settings, Hand, First, by_text, after_transfer, hand_over, run_rest, written, run_rounds,
  run_pipeline,
}
use chen.Core.Handoff.KvPass.{KvPassPipeline, kv_first, run}

by_text-succeeded :
    (p : Embedder) (e : Expert) (text : Text) (k : ℕ) (mode : Bool) (memory : InMemoryMemory)
    (output : Text) (next : Option KvCache) (m : ExpertMetrics) (mode' : Bool)
    → by_text p e text k mode memory ≡ ok (output, next, m, mode')
    → m.cache_transfer_succeeded ≡ true
unfolding by_text invoke_expert
by_text-succeeded p e text k mode memory output next m mode' h =
    elim (Result-cases (invoke e (some text) none k)) [
      | inr (x, failed) ↦ absurd (ground (arith, failed, h))
      | inl ((o, n, m'), done) ↦ ground (arith, done, h, text_succeeded e text k o n m' done)
    ]

after_transfer-succeeded :
    (p : Embedder) (e : Expert) (text : Text) (k : ℕ) (fallback : Bool) (memory : InMemoryMemory)
    (turn : Text × Option KvCache × ExpertMetrics) (output : Text) (next : Option KvCache)
    (m : ExpertMetrics) (mode : Bool)
    → after_transfer p e text k fallback memory turn ≡ ok (output, next, m, mode)
    → m.cache_transfer_succeeded ≡ true
unfolding after_transfer
after_transfer-succeeded p e text k fallback memory (o, n, m') output next m mode h =
    ground (arith, h, by_text-succeeded p e text k true memory output next m mode)

hand_over-succeeded :
    (p : Embedder) (e : Expert) (hand : Hand) (k : ℕ) (fallback : Bool) (memory : InMemoryMemory)
    (output : Text) (next : Option KvCache) (m : ExpertMetrics) (mode : Bool)
    → hand_over p e hand k fallback memory ≡ ok (output, next, m, mode)
    → m.cache_transfer_succeeded ≡ true
unfolding hand_over
hand_over-succeeded p e hand k fallback memory output next m mode h =
    elim (Bool-cases hand.text_mode) [
      | inl text ↦
          by_text-succeeded p e hand.text k true memory output next m mode (ground (arith, text, h))
      | inr kv ↦ elim (Option-cases hand.cache) [
        | inl missing_cache ↦
            by_text-succeeded p e hand.text k false memory output next m mode
              (ground (arith, kv, missing_cache, h))
        | inr (cache, held) ↦ elim (Result-cases (invoke e none (some cache) k)) [
          | inr (x, failed) ↦ absurd (ground (arith, kv, held, failed, h))
          | inl (turn, done) ↦
              after_transfer-succeeded p e hand.text k fallback memory turn output next m mode
                (ground (arith, kv, held, done, h))
        ]
      ]
    ]

All-snoc {ℓ κ} :
    {A : Type ℓ} (P : A → Type κ) (xs : List A) (x : A) → All P xs → P x → All P (xs ++ x ∷ [])
All-snoc P [] x a h = (h, tt)
All-snoc P (y ∷ ys) x a h = (a.0, All-snoc P ys x a.1 h)

run_rest-succeeded :
    (p : Embedder) (clock : ℕ → ℕ) (c : Settings) (ns : List String) (hand : Hand)
    (a : AggregateMetrics) (memory : InMemoryMemory) (hand' : Hand) (a' : AggregateMetrics)
    (m : ExpertMetrics) (ms : List ExpertMetrics)
    → (run_rest p clock c ns hand a memory).0 ≡ ok (hand', a')
    → a.expert_metrics ≡ m ∷ ms
    → All (λ k. k.cache_transfer_succeeded ≡ true) ms
    → (ms' : List ExpertMetrics) × (a'.expert_metrics ≡ m ∷ ms')
      × All (λ k. k.cache_transfer_succeeded ≡ true) ms'
unfolding run_rest
run_rest-succeeded p clock c [] hand a memory hand' a' m ms h e good =
    (ms, ground (arith, h, e), good)
run_rest-succeeded p clock c (n ∷ ns) hand a memory hand' a' m ms h e good =
    elim (Result-cases (get_expert n c.experts)) [
      | inr (x, unknown) ↦ absurd (ground (arith, unknown, h))
      | inl (x, found) ↦
          elim (Result-cases
            (hand_over p x hand c.max_tokens_per_expert c.fallback_to_text memory)) [
              | inr (y, failed) ↦ absurd (ground (arith, found, failed, h))
              | inl ((output, next, k, mode), done) ↦
                  let good_k =
                    hand_over-succeeded p x hand c.max_tokens_per_expert c.fallback_to_text memory
                      output next k mode done in
                  run_rest-succeeded p clock c ns
                    (record { cache = next; text = output; text_mode = mode }) (add k a)
                    (written p clock c x ns hand memory) hand' a' m (ms ++ k ∷ [])
                    (ground (arith, found, done, h)) (unfold add in ap (λ xs. xs ++ k ∷ []) e)
                    (All-snoc _ ms k good good_k)
            ]
    ]

fresh-metrics :
    (m : ExpertMetrics) (c : CostModel) → (add m (new_metrics c)).expert_metrics ≡ m ∷ []
unfolding add new_metrics
fresh-metrics m c = refl

run_rounds-succeeded :
    (p : Embedder) (clock : ℕ → ℕ) (c : Settings) (first : First) (prompt : Text)
    (max_tokens : Option ℕ) (n : String) (ns : List String) (memory : InMemoryMemory) (hand : Hand)
    (a : AggregateMetrics)
    → (run_rounds p clock c first prompt max_tokens (n ∷ ns) memory).0 ≡ ok (hand, a)
    → (m : ExpertMetrics) × (ms : List ExpertMetrics) × (a.expert_metrics ≡ m ∷ ms)
      × All (λ k. k.cache_transfer_succeeded ≡ true) ms
unfolding run_rounds
run_rounds-succeeded p clock c first prompt max_tokens n ns memory hand a h =
    elim (Result-cases (get_expert n c.experts)) [
      | inr (x, unknown) ↦ absurd (ground (arith, unknown, h))
      | inl (e, found) ↦
          let k = popped max_tokens c.max_tokens_per_expert in
          elim (Result-cases (first e k memory).0) [
            | inr (x, failed) ↦ absurd (ground (arith, found, failed, h))
            | inl ((output, next, m, held), done) ↦
                let (ms, e', good) =
                  run_rest-succeeded p clock c ns
                    (record { cache = next; text = output; text_mode = held.text_mode })
                    (add m (new_metrics c.cost)) (written p clock c e ns held (first e k memory).1)
                    hand a m [] (ground (arith, found, done, h)) (fresh-metrics m c.cost) tt in
                (m, ms, e', good)
          ]
    ]

run_pipeline-succeeded :
    (p : Embedder) (clock : ℕ → ℕ) (c : Settings) (first : First) (prompt : Text)
    (max_tokens : Option ℕ) (names : List String) (n : String) (ns : List String)
    (memory : InMemoryMemory) (r : PipelineResult) (mode : Bool)
    → names ≡ n ∷ ns
    → (run_pipeline p clock c first prompt max_tokens names memory).0 ≡ ok (r, mode)
    → (m : ExpertMetrics) × (ms : List ExpertMetrics) × (r.per_expert ≡ m ∷ ms)
      × All (λ k. k.cache_transfer_succeeded ≡ true) ms
unfolding run_pipeline
run_pipeline-succeeded p clock c first prompt max_tokens [] n ns memory r mode e h = absurd (cc)
run_pipeline-succeeded p clock c first prompt max_tokens (i ∷ is) n ns memory r mode e h =
    let start =
      noted p c.write_intermediate_to_memory
        (note (clock (length (i ∷ is))) prompt "user" "user" 10) memory in
    elim (Result-cases (run_rounds p clock c first prompt max_tokens (i ∷ is) start).0) [
      | inr (x, failed) ↦ absurd (ground (arith, failed, h))
      | inl ((hand, a), done) ↦
          let (m, ms, e', good) =
            run_rounds-succeeded p clock c first prompt max_tokens i is start hand a done in
          (m, ms, ground (arith, done, h, e'), good)
    ]

-- A run of the second phase that returns has not recorded a failed transfer of any expert after
-- the first: the metrics of the second invocation, with the text, replace those that report it.
pub failed_transfers_unrecorded :
    (p : Embedder) (clock : ℕ → ℕ) (prompt : Text) (max_tokens : Option ℕ) (c : KvPassPipeline)
    (memory : InMemoryMemory) (n : String) (ns : List String) (r : PipelineResult) (mode : Bool)
    → c.sequence ≡ n ∷ ns
    → (run p clock prompt max_tokens c memory).0 ≡ ok (r, mode)
    → (m : ExpertMetrics) × (ms : List ExpertMetrics) × (r.per_expert ≡ m ∷ ms)
      × All (λ k. k.cache_transfer_succeeded ≡ true) ms
unfolding run
failed_transfers_unrecorded p clock prompt max_tokens c memory n ns r mode sequence h =
    run_pipeline-succeeded p clock c.settings (kv_first p c.settings.memory_retrieve_k prompt)
      prompt max_tokens c.sequence n ns memory r mode sequence h
