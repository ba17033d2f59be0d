-- ===== src/Core/Router.antt =====
-- src/chen/core/router.py: the choice of the experts for a prompt. The scores are a parameter: any
-- type with a test for a higher score, any score of an expert and any threshold. A limit that is
-- not positive is 0, and the order in which Python goes through a set is a parameter.
pub mod Scores
pub mod Prototypes
pub mod Keywords
pub mod Hybrid
pub mod Selection
pub mod Available
pub mod Names
pub mod Last
mod Examples
use chen.Common.{
  ℕ, String, Bool, true, false, not, Option, none, some, List, [], ◌∷◌, ◌++◌, map, ltb, length,
  take, keep, any, find, last?, if◌then◌else◌, ◌-◌, ◌==◌, text_key,
}
use chen.Common.Dict.{Dict, lookup, insert, values}
use chen.Common.Sort.{sort}
use chen.Core.Expert.{
  ExpertRole, analyst, reasoner, synthesizer, coder, router, translator, generalist, Expert,
}

-- What the routers have in common.
pub record Limits : Type 0 where
  pub min_activation : ℕ
  pub max_activation : ℕ
  pub force_last_role : ExpertRole

unfoldable pub value : ExpertRole → String
value analyst = "analyst"
value reasoner = "reasoner"
value synthesizer = "synthesizer"
value coder = "coder"
value router = "router"
value translator = "translator"
value generalist = "generalist"

unfoldable pub has_role : ExpertRole → Expert → Bool
unfolding value
has_role r e = value e.role == value r

-- `n in names`
unfoldable pub contains : String → List String → Bool
contains n names = any (λ m. m == n) names

unfoldable pub names_of : List Expert → List String
names_of es = map (λ (e : Expert). e.name) es

unfoldable pub last_role_names : Limits → List Expert → List String
unfolding names_of has_role
last_role_names r es = names_of (keep (has_role r.force_last_role) es)

-- `_expert_role_name`
unfoldable pub expert_role_name : String → List Expert → String
unfolding value
expert_role_name name [] = ""
expert_role_name name (e ∷ es) = if e.name == name then value e.role else expert_role_name name es

-- The minimum: the best expert alone, if too few were selected.
unfoldable pub at_least_min : Limits → List Expert → List String → List String
at_least_min r [] selected = selected
at_least_min r (e ∷ es) selected =
    if ltb (length selected) r.min_activation then e.name ∷ [] else selected

-- The absolute fallback: the first expert of the last role, else the first of all.
unfoldable pub fall_back : Limits → List Expert → List String → List String
unfolding has_role
fall_back r es (n ∷ ns) = n ∷ ns
fall_back r [] [] = []
fall_back r (e ∷ es) [] = elim (find (has_role r.force_last_role) (e ∷ es)) [
  | none ↦ e.name ∷ []
  | some f ↦ f.name ∷ []
]

-- Append an expert of the last role, unless `present` says that one is selected.
unfoldable pub append_last : Limits → List Expert → Bool → List String → List String
unfolding has_role contains
append_last r es true selected = selected
append_last r es false selected =
    elim (find
      (λ (e : Expert).
        if has_role r.force_last_role e then not (contains e.name selected) else false)
      es) [ none ↦ selected | some e ↦ selected ++ e.name ∷ [] ]

-- Move the selected expert of the last role to the end.
unfoldable pub move_last : List String → List String → List String
unfolding contains
move_last last_names selected = elim (last? (keep (λ n. contains n last_names) selected)) [
  | none ↦ selected
  | some last ↦ keep (λ n. not (n == last)) selected ++ last ∷ []
]

-- The cap on the number of experts, where 0 is none.
unfoldable pub cap : ℕ → List String → List String
cap max names = if ltb 0 max then take max names else names

module _ {S : Type 0} (more : S → S → Bool) where
  -- The best expert of each role.
  unfoldable pub best_of_roles :
      (Expert → S) → List Expert → Dict String (S × Expert) → Dict String (S × Expert)
  unfolding value
  best_of_roles score [] best = best
  best_of_roles score (e ∷ es) best = best_of_roles score es (elim (lookup (value e.role) best) [
    | none ↦ insert (value e.role) (score e, e) best
    | some (s, f) ↦ if more (score e) s then insert (value e.role) (score e, e) best else best
  ])

  -- Descending by score; experts with one score keep their order.
  unfoldable pub by_score : List (S × Expert) → List (S × Expert)
  by_score scored = sort (λ x y. more x.0 y.0) scored

  -- `ranked` of `LogisticRouter.route`
  unfoldable pub ranked : (Expert → S) → (S → Bool) → List Expert → List (S × Expert)
  unfolding best_of_roles by_score
  ranked score passes es = by_score (keep (λ x. passes x.0) (values (best_of_roles score es [])))

  pub experts_in : List (S × Expert) → List Expert
  experts_in xs = map (λ x. x.1) xs

  -- The selection of `LogisticRouter.route` before the last role is looked at.
  unfoldable pub logistic_selection : Limits → (Expert → S) → (S → Bool) → List Expert → List String
  unfolding experts_in ranked at_least_min fall_back names_of
  logistic_selection r score passes es =
      let found = experts_in (ranked score passes es) in
      fall_back r es (at_least_min r found (take r.max_activation (names_of found)))

  -- `LogisticRouter.route`: `score` is that of the expert's role with the bonus for a small expert.
  unfoldable pub logistic_route : Limits → (Expert → S) → (S → Bool) → List Expert → List String
  unfolding logistic_selection append_last move_last cap last_role_names expert_role_name value
  logistic_route r score passes [] = []
  logistic_route r score passes (e ∷ es) =
      let selected = logistic_selection r score passes (e ∷ es) in
      let present = any (λ n. expert_role_name n (e ∷ es) == value r.force_last_role) selected in
      cap r.max_activation
        (move_last (last_role_names r (e ∷ es)) (append_last r (e ∷ es) present selected))

  -- The selection of `CosineRouter.route` before the last role is looked at, from the scored experts.
  unfoldable pub scored_selection :
      Limits → (S → Bool) → List (S × Expert) → List Expert → List String
  unfolding experts_in by_score at_least_min fall_back names_of
  scored_selection r passes scored es =
      let found = by_score scored in
      let top = keep (λ x. passes x.0) (take r.max_activation found) in
      fall_back r es (at_least_min r (experts_in found) (names_of (experts_in top)))

  -- `CosineRouter.route` from the scored experts on
  unfoldable pub route_scored : Limits → (S → Bool) → List (S × Expert) → List Expert → List String
  unfolding scored_selection append_last move_last cap last_role_names contains
  route_scored r passes scored [] = []
  route_scored r passes scored (e ∷ es) =
      let selected = scored_selection r passes scored (e ∷ es) in
      let present = any (λ n. contains n (last_role_names r (e ∷ es))) selected in
      cap r.max_activation
        (move_last (last_role_names r (e ∷ es)) (append_last r (e ∷ es) present selected))

  unfoldable pub cosine_selection : Limits → (Expert → S) → (S → Bool) → List Expert → List String
  unfolding scored_selection
  cosine_selection r sim passes es = scored_selection r passes (map (λ e. (sim e, e)) es) es

  -- `CosineRouter.route`: `sim` is the similarity of the prompt and the expert's prototype.
  unfoldable pub cosine_route : Limits → (Expert → S) → (S → Bool) → List Expert → List String
  unfolding route_scored
  cosine_route r sim passes es = route_scored r passes (map (λ e. (sim e, e)) es) es

-- The last expert of a hybrid selection: one that is selected, else the first of that role.
unfoldable pub choose_last : List String → List String → Option String
unfolding contains
choose_last ordered [] = none
choose_last ordered (m ∷ ms) = elim (find (λ n. contains n (m ∷ ms)) ordered) [
  | none ↦ some m
  | some n ↦ some n
]

reserve_last : ℕ → List String → Option String → List String
unfolding cap
reserve_last max ordered none = cap max ordered
reserve_last max ordered (some last) =
    let others = keep (λ n. not (n == last)) ordered in
    (if ltb 0 max then take (max - 1) others else others) ++ last ∷ []

-- `HybridRouter.route`: `listed` goes through the set of the names in a list, and the two lists are
-- the selections of the two routers.
unfoldable pub hybrid_route :
    Limits → (List String → List String) → List String → List String → List Expert → List String
unfolding reserve_last choose_last last_role_names contains
hybrid_route r listed by_logistic by_cosine es = elim (listed (by_logistic ++ by_cosine)) [
  | [] ↦ by_logistic
  | u ∷ us ↦
      let ordered =
        keep (λ n. contains n (u ∷ us)) by_logistic
        ++ keep (λ n. not (contains n by_logistic)) (u ∷ us) in
      reserve_last r.max_activation ordered (choose_last ordered (last_role_names r es))
]
