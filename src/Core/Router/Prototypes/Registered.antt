-- ===== src/Core/Router/Prototypes/Registered.antt =====
-- What calls of `CosineRouter` do to the prototypes (src/chen/core/router.py).
use chen.Common.{
  ℕ, Text, String, ◌≡◌, refl, sym, ap, ◌∙◌, inl, inr, none, some, List, [], ◌∷◌, arith, ◌==◌,
  text_key, Option-cases, Bool-cases,
}
use mathlib.Core.Path.{subst}
use chen.Common.Dict.{lookup, insert, lookup-insert, lookup-insert_self}
use chen.Common.Result.{Result, ok, raised, Result-cases, ◌>>=◌}
use chen.Core.Expert.{CoreError, Expert}
use chen.Core.Router.{Limits, route_scored}
use chen.Core.Router.Prototypes.{
  Arrays, CosineRouter, normalize, embed_all, register_expert, default_samples, prototype_of,
  score_experts, route_embedded, route, embed,
}

-- The settings are the same, and every prototype that was there is there unchanged.
pub record IsKept {F V : Type 0} (r s : CosineRouter F V) : Type 0 where
  pub limits : s.limits ≡ r.limits
  pub threshold : s.threshold ≡ r.threshold
  pub embed_dim : s.embed_dim ≡ r.embed_dim
  pub prototypes :
      (name : String) (v : V)
      → lookup name r.prototypes ≡ some v
      → lookup name s.prototypes ≡ some v

module _ {F V : Type 0} (a : Arrays F V) where
  IsKept-refl : (r : CosineRouter F V) → IsKept r r
  IsKept-refl r = record {
    limits = refl;
    threshold = refl;
    embed_dim = refl;
    prototypes = λ name v found. found;
  }

  IsKept-trans : (r s t : CosineRouter F V) → IsKept r s → IsKept s t → IsKept r t
  IsKept-trans r s t k l = record {
    limits = l.limits ∙ k.limits;
    threshold = l.threshold ∙ k.threshold;
    embed_dim = l.embed_dim ∙ k.embed_dim;
    prototypes = λ name v found. l.prototypes name v (k.prototypes name v found);
  }

  inserted_IsKept :
      (r : CosineRouter F V) (n : String) (w : V)
      → lookup n r.prototypes ≡ none
      → IsKept r (record r { prototypes = insert n w r.prototypes })
  inserted_IsKept r n w absent = record {
    limits = refl;
    threshold = refl;
    embed_dim = refl;
    prototypes = λ name v found. elim (Bool-cases (n == name)) [
      | inl same ↦
          let e = (text_key.same_iff n name).0 same in
          absurd (ground (arith, ap (λ (k : String). lookup k r.prototypes) e, absent, found))
      | inr differs ↦ ground (arith, lookup-insert n name w r.prototypes, differs, found)
    ];
  }

  -- What a call that looks a prototype up may do.
  abbrev Finds : Expert → CosineRouter F V → Result CoreError V × CosineRouter F V → Type 0
  Finds e r p = IsKept r p.1 × ((v : V) → p.0 ≡ ok v → lookup e.name p.1.prototypes ≡ some v)

  prototype_of-Finds : (e : Expert) (r : CosineRouter F V) → Finds e r (prototype_of a e r)
  unfolding prototype_of register_expert default_samples
  prototype_of-Finds e r = elim (Option-cases (lookup e.name r.prototypes)) [
    | inr (w, found) ↦
        let same : (ok w, r) ≡ prototype_of a e r = ground (arith, found) in
        subst (Finds e r) (same) (IsKept-refl r, λ v done. ground (arith, found, done))
    | inl absent ↦ elim (Result-cases (embed_all a r.embed_dim (default_samples a e) >>= a.mean)) [
      | inl (proto, made) ↦
          let w = normalize a proto in
          let next : CosineRouter F V = record r { prototypes = insert e.name w r.prototypes } in
          let self = lookup-insert_self e.name w r.prototypes in
          let same : (ok w, next) ≡ prototype_of a e r = ground (arith, absent, made, self) in
          subst (Finds e r) (same)
            (inserted_IsKept r e.name w absent, λ v done. ground (arith, self, done))
      | inr (x, failed) ↦
          let same : (raised x, r) ≡ prototype_of a e r = ground (arith, absent, failed) in
          subst (Finds e r) (same) (IsKept-refl r, λ v done. ground (arith, done))
    ]
  ]

  -- The scores are the products of the prompt's embedding with the prototypes that are registered.
  abbrev pub IsScored : V → CosineRouter F V → List Expert → List (F × Expert) → Type 0
  IsScored q s [] [] = Unit
  IsScored q s (e ∷ es) ((sim, f) ∷ scored) =
      (v : V) × (lookup e.name s.prototypes ≡ some v)
      × (a.dot q v ≡ ok sim)
      × (f ≡ e)
      × IsScored q s es scored
  IsScored q s [] (x ∷ scored) = ⊥
  IsScored q s (e ∷ es) [] = ⊥

  abbrev Scores :
      V
      → List Expert
      → CosineRouter F V
      → Result CoreError (List (F × Expert)) × CosineRouter F V
      → Type 0
  Scores q es r p =
      IsKept r p.1 × ((scored : List (F × Expert)) → p.0 ≡ ok scored → IsScored q p.1 es scored)

  score_experts-Scores :
      (q : V) (es : List Expert) (r : CosineRouter F V) → Scores q es r (score_experts a q es r)
  unfolding score_experts
  score_experts-Scores q [] r =
      (IsKept-refl r, λ scored done. subst (IsScored q r []) {x = []} (ground (arith, done)) tt)
  score_experts-Scores q (e ∷ es) r =
      let next = (prototype_of a e r).1 in
      let (kept, finds) = prototype_of-Finds e r in
      let (kept', scores) = score_experts-Scores q es next in
      let last = (score_experts a q es next).1 in
      elim (Result-cases (prototype_of a e r).0) [
        | inr (x, failed) ↦
            let same : (raised x, next) ≡ score_experts a q (e ∷ es) r = ground (arith, failed) in
            subst (Scores q (e ∷ es) r) (same) (kept, λ scored done. absurd (ground (arith, done)))
        | inl (v, found) ↦ elim (Result-cases (a.dot q v)) [
          | inr (x, failed) ↦
              let same : (raised x, next) ≡ score_experts a q (e ∷ es) r =
                ground (arith, found, failed) in
              subst (Scores q (e ∷ es) r) (same)
                (kept, λ scored done. absurd (ground (arith, done)))
          | inl (sim, product) ↦ elim (Result-cases (score_experts a q es next).0) [
            | inr (x, failed) ↦
                let same : (raised x, last) ≡ score_experts a q (e ∷ es) r =
                  ground (arith, found, product, failed) in
                subst (Scores q (e ∷ es) r) (same) (
                  IsKept-trans r next last kept kept',
                  λ scored done. absurd (ground (arith, done)),
                )
            | inl (rest, done) ↦
                let same : (ok ((sim, e) ∷ rest), last) ≡ score_experts a q (e ∷ es) r =
                  ground (arith, found, product, done) in
                let here = kept'.prototypes e.name v (finds v found) in
                let all : IsScored q last (e ∷ es) ((sim, e) ∷ rest) =
                  (v, here, product, refl, scores rest done) in
                subst (Scores q (e ∷ es) r) (same) (
                  IsKept-trans r next last kept kept',
                  λ scored eq.
                      let one : ((sim, e) ∷ rest) ≡ scored = ground (arith, eq) in
                      subst (IsScored q last (e ∷ es)) (one) all,
                )
          ]
        ]
      ]

  -- Where all are scored by what is registered, scoring again gives the same and registers nothing.
  score_again :
      (q : V) (es : List Expert) (s : CosineRouter F V) (scored : List (F × Expert))
      → IsScored q s es scored
      → score_experts a q es s ≡ (ok scored, s)
  unfolding score_experts prototype_of
  score_again q [] s [] all = refl
  score_again q [] s (x ∷ scored) all = absurd all
  score_again q (e ∷ es) s [] all = absurd all
  score_again q (e ∷ es) s ((sim, f) ∷ scored) (v, found, product, same, rest) =
      let again = score_again q es s scored rest in ground (arith, found, product, same, again)

  -- `route_embedded` where the experts are scored.
  embedded_lem :
      (q : V) (es : List Expert) (r s : CosineRouter F V) (scored : List (F × Expert))
      → score_experts a q es r ≡ (ok scored, s)
      → route_embedded a q es r
        ≡ (ok (route_scored a.more r.limits (λ x. a.at_least x r.threshold) scored es), s)
  unfolding route_embedded
  embedded_lem q es r s scored run = rw run refl

  -- A route that returns keeps the settings and every prototype that was registered before; with
  -- what it has registered, the same prompt is routed alike, and nothing is registered any more.
  pub route_again :
      (prompt : Text) (es : List Expert) (r s : CosineRouter F V) (names : List String)
      → route a prompt es r ≡ (ok names, s)
      → IsKept r s × (route a prompt es s ≡ (ok names, s))
  unfolding route
  route_again prompt [] r s names done =
      let moved : r ≡ s =
        ap (λ (p : Result CoreError (List String) × CosineRouter F V). p.1) done in
      let named = ap (λ (p : Result CoreError (List String) × CosineRouter F V). p.0) done in
      (
        subst (IsKept r) (moved) (IsKept-refl r),
        ap (λ (x : Result CoreError (List String)). (x, s)) named,
      )
  route_again prompt (e ∷ es) r s names done = elim (Result-cases (embed a r.embed_dim prompt)) [
    | inr (x, failed) ↦ absurd (ground (arith, failed, done))
    | inl (q, embedded) ↦
        let goes : route_embedded a q (e ∷ es) r ≡ (ok names, s) = ground (arith, embedded, done) in
        elim (Result-cases (score_experts a q (e ∷ es) r).0) [
          | inr (x, failed) ↦ absurd (unfold route_embedded in ground (arith, failed, goes))
          | inl (scored, ran) ↦
              let last = (score_experts a q (e ∷ es) r).1 in
              let (kept, scores) = score_experts-Scores q (e ∷ es) r in
              let pair : score_experts a q (e ∷ es) r ≡ (ok scored, last) = ground (arith, ran) in
              let out = sym (embedded_lem q (e ∷ es) r last scored pair) ∙ goes in
              let moved : last ≡ s = ground (arith, out) in
              let k = subst (IsKept r) (moved) kept in
              let all = subst (λ x. IsScored q x (e ∷ es) scored) (moved) (scores scored ran) in
              let again =
                embedded_lem q (e ∷ es) s s scored (score_again q (e ∷ es) s scored all) in
              let f : Limits → F → List String =
                λ l t. route_scored a.more l (λ x. a.at_least x t) scored (e ∷ es) in
              let first : f r.limits r.threshold ≡ names = ground (arith, out) in
              let second : f s.limits s.threshold ≡ names =
                ap (λ l. f l s.threshold) k.limits ∙ ap (λ t. f r.limits t) k.threshold ∙ first in
              let whole : route_embedded a q (e ∷ es) s ≡ (ok names, s) =
                again ∙ ap (λ (ns : List String). (ok ns, s)) second in
              let dim : embed a s.embed_dim prompt ≡ ok q =
                ap (λ (d : ℕ). embed a d prompt) k.embed_dim ∙ embedded in
              (k, ground (arith, dim, whole))
        ]
  ]
