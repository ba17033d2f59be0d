-- ===== src/Core/Pipeline/Serving.antt =====
-- Looking experts up and invoking them (src/chen/core/pipeline.py).
use chen.Common.{
  ℕ, Text, String, true, false, ◌≡◌, refl, ap, inl, inr, Option, none, some, List, [], ◌∷◌, ◌++◌,
  arith, ltb, map, text_key, All, ◌==◌, Option-cases, Bool-cases,
}
use mathlib.Core.Path.{subst}
use chen.Common.Result.{ok}
use chen.Common.Dict.{Dict, lookup, insert, lookup-insert}
use chen.Memory.{MemoryEntry, Embedder, InMemoryMemory}
use chen.Memory
use chen.Core.Expert.{KvCache, Expert, ExpertMetrics}
use chen.Core.Expert.Invoke.{invoke-answers, invoke-budget}
use chen.Core.Metrics.{AggregateMetrics, add}
use chen.Core.Pipeline.{by_name, get_expert, missing, invoke_expert, augment}

-- The experts that can be looked up always generate a text.
pub record IsServing (es : List Expert) : Type 0 where
  pub serves :
      (n : String) (e : Expert)
      → get_expert n es ≡ ok e
      → (text : Text) (k : ℕ) → (output : Text) × (e.backend.generate text k ≡ ok output)

pub by_name-name :
    (es : List Expert) (d : Dict String Expert)
    → ((n : String) (e : Expert) → lookup n d ≡ some e → e.name ≡ n)
    → (n : String) (e : Expert) → lookup n (by_name es d) ≡ some e
    → e.name ≡ n
unfolding by_name
by_name-name [] d named = named
by_name-name (f ∷ es) d named =
    by_name-name es (insert f.name f d)
      (λ n e h. ground (arith, lookup-insert f.name n f d, named n e, text_key.same_iff f.name n))

pub get_expert-name :
    (n : String) (es : List Expert) (e : Expert) → get_expert n es ≡ ok e → e.name ≡ n
unfolding get_expert
get_expert-name n es e h =
    by_name-name es [] (λ m f none_there. absurd (unfold lookup in cc)) n e (ground arith)

module _ (P : Expert → Type 0) where
  by_name-All :
      (es : List Expert) (d : Dict String Expert)
      → All P es
      → ((n : String) (e : Expert) → lookup n d ≡ some e → P e)
      → (n : String) (e : Expert) → lookup n (by_name es d) ≡ some e
      → P e
  unfolding by_name
  by_name-All [] d all known = known
  by_name-All (f ∷ es) d all known = by_name-All es (insert f.name f d) all.1 (λ n e found.
      elim (Bool-cases (f.name == n)) [
        | inl here ↦
            let same : f ≡ e = ground (arith, lookup-insert f.name n f d, here, found) in
            subst P same all.0
        | inr there ↦ known n e (ground (arith, lookup-insert f.name n f d, there, found))
      ])

  -- What holds of all experts holds of the one that is found.
  pub get_expert-All :
      (es : List Expert) (n : String) (e : Expert) → All P es → get_expert n es ≡ ok e → P e
  unfolding get_expert
  get_expert-All es n e all found =
      by_name-All es [] all (λ m f none_there. absurd (unfold lookup in cc)) n e (ground arith)

pub get_expert-found :
    (n : String) (ns : List String) (es : List Expert)
    → missing (n ∷ ns) (by_name es []) ≡ false
    → ((e : Expert) × (get_expert n es ≡ ok e)) × (missing ns (by_name es []) ≡ false)
unfolding get_expert missing
get_expert-found n ns es h = elim (Option-cases (lookup n (by_name es []))) [
  | inl absent ↦ absurd (ground arith)
  | inr (e, found) ↦ ((e, ground (arith, found)), ground (arith, found))
]

pub invoke_expert-answers :
    (p : Embedder) (es : List Expert) (n : String) (e : Expert) (prompt : Text) (max_tokens k : ℕ)
    (memory : InMemoryMemory)
    → IsServing es
    → get_expert n es ≡ ok e
    → (output : Text) × (next : Option KvCache) × (m : ExpertMetrics) × ((invoke_expert p e prompt
          max_tokens k memory).0
        ≡ ok (output, next, m))
      × (m.expert_name ≡ e.name)
      × (m.cache_transfer_succeeded ≡ true)
unfolding invoke_expert
invoke_expert-answers p es n e prompt max_tokens k memory s found = elim (Bool-cases (ltb 0 k)) [
  | inl reads ↦
      let augmented = augment (Memory.retrieve p prompt k none 0 memory).0 prompt in
      let (output, h) = s.serves n e found augmented max_tokens in
      let (next, m, done, named, moved) = invoke-answers e augmented max_tokens output h in
      (output, next, m, ground (arith, reads, done), named, moved)
  | inr plain ↦
      let (output, h) = s.serves n e found prompt max_tokens in
      let (next, m, done, named, moved) = invoke-answers e prompt max_tokens output h in
      (output, next, m, ground (arith, plain, done), named, moved)
]

pub map-append {ℓ κ} :
    {A : Type ℓ} {B : Type κ} (f : A → B) (xs ys : List A) → map f (xs ++ ys) ≡ map f xs ++ map f ys
map-append f [] ys = refl
map-append f (x ∷ xs) ys = ap (λ zs. f x ∷ zs) (map-append f xs ys)

abbrev pub names_in : AggregateMetrics → List String
names_in a = map (λ (m : ExpertMetrics). m.expert_name) a.expert_metrics

pub add-names :
    (m : ExpertMetrics) (a : AggregateMetrics)
    → names_in (add m a) ≡ names_in a ++ m.expert_name ∷ []
unfolding add
add-names m a = map-append (λ (k : ExpertMetrics). k.expert_name) a.expert_metrics (m ∷ [])

pub invoke_expert-budget :
    (p : Embedder) (e : Expert) (prompt : Text) (i j k : ℕ) (memory : InMemoryMemory)
    → ((text : Text) (i j : ℕ) → e.backend.generate text i ≡ e.backend.generate text j)
    → invoke_expert p e prompt i k memory ≡ invoke_expert p e prompt j k memory
unfolding invoke_expert
invoke_expert-budget p e prompt i j k memory same =
    let augmented = augment (Memory.retrieve p prompt k none 0 memory).0 prompt in
    ground (
      arith,
      invoke-budget e augmented i j (same augmented i j),
      invoke-budget e prompt i j (same prompt i j),
    )
