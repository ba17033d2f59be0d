-- ===== src/Core/Handoff/Routed/Routers.antt =====
-- The third phase with a logistic router (src/chen/phases/phase3_routing.py,
-- src/chen/core/router.py).
use chen.Common.{
  length-map, ℕ, ◌≤◌, Text, String, Bool, true, false, ◌≡◌, refl, sym, ap, ◌∙◌, inl, inr, Option,
  none, List, [], ◌∷◌, arith, length, map, All, ◌==◌, text_key, Option-cases, Bool-cases,
}
use chen.Common.Result.{ok}
use chen.Common.Dict.{Dict, lookup, insert, lookup-insert}
use chen.Memory.{Embedder, InMemoryMemory}
use chen.Core.Expert.{Expert, ExpertMetrics}
use chen.Core.Router.{Limits, contains, names_of, logistic_route}
use chen.Core.Router.Available.{IsNamed, routes-IsNamed}
use chen.Core.Router.Selection.{route_bounds}
use chen.Core.Pipeline.{by_name, missing, PipelineResult}
use chen.Core.Handoff.Rounds.{IsDecoding}
use chen.Core.Handoff.Routed.{RoutingPipeline, selected_names, run}
use chen.Core.Handoff.Routed.Runs.{routed_run-answers}

by_name-none :
    (n : String) (es : List Expert) (d : Dict String Expert)
    → lookup n (by_name es d) ≡ none
    → (contains n (names_of es) ≡ false) × (lookup n d ≡ none)
unfolding by_name contains names_of
by_name-none n [] d h = (refl, h)
by_name-none n (e ∷ es) d h =
    let rest = by_name-none n es (insert e.name e d) h in
    let put = lookup-insert e.name n e d in
    elim (Bool-cases (e.name == n)) [
      | inl here ↦ absurd (ground (arith, rest, put, here))
      | inr there ↦ ground (arith, rest, put, there)
    ]

pub named-missing :
    (es : List Expert) (names : List String)
    → All (IsNamed es) names
    → missing names (by_name es []) ≡ false
unfolding missing
named-missing es [] h = refl
named-missing es (n ∷ ns) h = elim (Option-cases (lookup n (by_name es []))) [
  | inl absent ↦ absurd (ground (arith, by_name-none n es [] absent, h.0))
  | inr (e, found) ↦ ground (arith, found, named-missing es ns h.1)
]

filled-selected :
    (names : List String) (es : List Expert) → 1 ≤ length names → selected_names names es ≡ names
unfolding selected_names
filled-selected [] es h = absurd (omega arith)
filled-selected (n ∷ ns) es h = refl

-- A pool of experts that always generate texts and decode caches, a logistic router with a limit
-- above 0 and permission to fall back to text: a run of the third phase returns, whatever the
-- scores are and whatever encodings and transfers of caches fail. It reports exactly the experts that the
-- router selects, in that order, at least one and at most `max_activation`.
pub logistic_run-answers :
    {S : Type 0} (more : S → S → Bool) (r : Limits) (score : Text → Expert → S) (passes : S → Bool)
    (p : Embedder) (clock : ℕ → ℕ) (prompt : Text) (max_tokens : Option ℕ) (c : RoutingPipeline)
    (e : Expert) (es : List Expert) (memory : InMemoryMemory)
    → 1 ≤ r.max_activation
    → c.settings.experts ≡ e ∷ es
    → c.router ≡ (λ text fs. logistic_route more r (score text) passes fs)
    → IsDecoding c.settings.experts
    → c.settings.fallback_to_text ≡ true
    → (result : PipelineResult) × (mode : Bool) × ((run p clock prompt max_tokens c memory).0
        ≡ ok (result, mode))
      × (map (λ (m : ExpertMetrics). m.expert_name) result.per_expert
          ≡ logistic_route more r (score prompt) passes (e ∷ es))
      × (result.selected_experts ≡ logistic_route more r (score prompt) passes (e ∷ es))
      × (1 ≤ length result.per_expert)
      × (length result.per_expert ≤ r.max_activation)
logistic_run-answers more r score passes p clock prompt max_tokens c e es memory limited pool routed
      s fallback =
    let names = logistic_route more r (score prompt) passes (e ∷ es) in
    let bounds = route_bounds more r (score prompt) passes e es limited in
    let selected : selected_names (c.router prompt c.settings.experts) c.settings.experts ≡ names =
      rw (routed, pool) (filled-selected names (e ∷ es) bounds.0) in
    let known : missing names (by_name c.settings.experts []) ≡ false =
      rw pool
        (named-missing (e ∷ es) names (routes-IsNamed more r (score prompt) passes (e ∷ es)).0) in
    let (result, mode, ran, ordered, listed) =
      routed_run-answers p clock prompt max_tokens c memory s fallback (rw selected known) in
    let in_order = ordered ∙ selected in
    let size =
      sym (length-map (λ (m : ExpertMetrics). m.expert_name) result.per_expert)
      ∙ ap length in_order in
    (
      result,
      mode,
      ran,
      in_order,
      listed ∙ selected,
      ground (arith, size, bounds),
      ground (arith, size, bounds),
    )
