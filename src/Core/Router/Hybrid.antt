-- ===== src/Core/Router/Hybrid.antt =====
-- `HybridRouter` of src/chen/core/router.py with the two routers that it holds.
use chen.Common.{Text, String, List, [], ◌≡◌, refl, ap, ◌∙◌, arith, inl, inr}
use mathlib.Core.Path.{subst}
use chen.Common.Result.{Result, ok, ◌>>=◌, Result-cases}
use chen.Core.Expert.{CoreError, synthesizer, Expert}
use chen.Core.Router.{Limits, hybrid_route}
use chen.Core.Router.Scores.{Floats, Prompts, LogisticRouter, new_logistic}
use chen.Core.Router.Scores
use chen.Core.Router.Prototypes.{Arrays, CosineRouter, from_experts}
use chen.Core.Router.Prototypes
use chen.Core.Router.Prototypes.Registered.{route_again}

pub record HybridRouter (F V : Type 0) : Type 0 where
  pub logistic : LogisticRouter F
  pub cosine : CosineRouter F V
  pub limits : Limits

-- The defaults of all three routers
abbrev pub default_limits : Limits
default_limits = record { min_activation = 1; max_activation = 3; force_last_role = synthesizer }

module _ {F V : Type 0} (f : Floats F) (a : Arrays F V) where
  -- `from_experts`; keywords other than `alpha` are dropped.
  unfoldable pub hybrid_from_experts : List Expert → Result CoreError (HybridRouter F V)
  unfolding new_logistic from_experts
  hybrid_from_experts es = do
    let logistic =
        new_logistic f
          (record { limits = default_limits; threshold = f.decimal 15 2; weights = [] })
    cosine ← from_experts a [] es (record {
      limits = default_limits;
      threshold = f.decimal 1 1;
      embed_dim = 64;
      prototypes = [];
    })
    ok (record { logistic = logistic; cosine = cosine; limits = default_limits })

  -- `route`; `listed` is the order in which Python goes through a set of names.
  unfoldable pub route :
      Prompts
      → (List String → List String)
      → Text
      → List Expert
      → HybridRouter F V
      → Result CoreError (List String) × HybridRouter F V
  unfolding hybrid_route
  route p listed prompt es r =
      let by_logistic = Scores.route f r.logistic p prompt es in
      let by_cosine = Prototypes.route a prompt es r.cosine in
      (
        by_cosine.0 >>= (λ names. ok (hybrid_route r.limits listed by_logistic names es)),
        record r { cosine = by_cosine.1 },
      )

  -- A hybrid route that returns leaves a router that routes the same prompt alike and stays as it is,
  -- if the set of names is gone through in the same order.
  pub hybrid_again :
      (p : Prompts) (listed : List String → List String) (prompt : Text) (es : List Expert)
      (r s : HybridRouter F V) (names : List String)
      → route p listed prompt es r ≡ (ok names, s)
      → route p listed prompt es s ≡ (ok names, s)
  unfolding route
  hybrid_again p listed prompt es r s names done =
      elim (Result-cases (Prototypes.route a prompt es r.cosine).0) [
        | inr (x, failed) ↦ absurd (ground (arith, failed, done))
        | inl (by_cosine, ran) ↦
            let next = (Prototypes.route a prompt es r.cosine).1 in
            let pair : Prototypes.route a prompt es r.cosine ≡ (ok by_cosine, next) =
              ground (arith, ran) in
            let again = (route_again a prompt es r.cosine next by_cosine pair).1 in
            let chosen =
              hybrid_route r.limits listed (Scores.route f r.logistic p prompt es) by_cosine es in
            let settled : HybridRouter F V = record r { cosine = next } in
            let first : chosen ≡ names = ground (arith, ran, done) in
            let moved : settled ≡ s = ground (arith, done) in
            let second : route p listed prompt es settled ≡ (ok chosen, settled) = rw again refl in
            subst (λ x. route p listed prompt es x ≡ (ok names, x)) (moved)
              (second ∙ ap (λ (ns : List String). (ok ns, settled)) first)
      ]
