-- ===== src/Core/Router/Scores.antt =====
-- The features of a prompt and the scores of `LogisticRouter` in src/chen/core/router.py. Floats are
-- the parameter `Floats`, `str.lower` and the two regular expressions are `Prompts`.
use chen.Common.{
  starts_with, ℕ, zero, suc, ◌+◌, ◌-◌, max, Text, String, codes, Bool, false, none, some, List, [],
  ◌∷◌, ltb, leb, eqb, length, map, any, if◌then◌else◌, text_key,
}
use chen.Common.Dict.{Dict, lookup}
use chen.Core.Expert.{
  ExpertRole, analyst, reasoner, synthesizer, coder, translator, generalist, Expert,
}
use chen.Core.Router.{Limits, value, logistic_route}

-- `whole n` is the float of an integer, and `decimal n k` the literal `n / 10 ** k`.
pub record Floats (F : Type 0) : Type 0 where
  pub whole : ℕ → F
  pub decimal : ℕ → ℕ → F
  pub negate : F → F
  pub plus : F → F → F
  pub times : F → F → F
  pub over : F → F → F
  pub exp : F → F
  pub more : F → F → Bool
  pub at_least : F → F → Bool

pub record Prompts : Type 0 where
  pub lower : Text → Text
  pub has_code : Text → Bool
  pub has_math : Text → Bool

-- `_ROLE_KEYWORDS`
abbrev pub role_keywords : List (ExpertRole × List String)
role_keywords =
    (
      analyst,
      "extract" ∷ "entity" ∷ "parse" ∷ "summarize" ∷ "analyze" ∷ "identify" ∷ "list" ∷ "find"
          ∷ "what" ∷ "who" ∷ "where" ∷ "when" ∷ [],
    )
    ∷ (
      reasoner,
      "why" ∷ "how" ∷ "explain" ∷ "derive" ∷ "prove" ∷ "calculate" ∷ "solve" ∷ "math" ∷ "physics"
          ∷ "logic" ∷ "reason" ∷ "step" ∷ "equation" ∷ "formula" ∷ "reasoning" ∷ [],
    )
    ∷ (
      coder,
      "code" ∷ "python" ∷ "javascript" ∷ "java" ∷ "c++" ∷ "rust" ∷ "go" ∷ "sql" ∷ "function"
          ∷ "class" ∷ "bug" ∷ "debug" ∷ "compile" ∷ "runtime" ∷ "stack" ∷ "trace" ∷ "segfault"
          ∷ "allocator" ∷ "refactor" ∷ "implement" ∷ "algorithm" ∷ [],
    )
    ∷ (
      synthesizer,
      "write" ∷ "compose" ∷ "draft" ∷ "generate" ∷ "produce" ∷ "essay" ∷ "story" ∷ "poem" ∷ "haiku"
          ∷ "letter" ∷ "email" ∷ "report" ∷ "summary" ∷ [],
    )
    ∷ (
      translator,
      "translate" ∷ "translation" ∷ "in french" ∷ "in spanish" ∷ "in german" ∷ "in chinese"
          ∷ "in japanese" ∷ "translate to" ∷ [],
    )
    ∷ []

-- `text.count(keyword)` of a keyword that is not empty, after `skip` codes that a match has used.
unfoldable pub count_from : Text → ℕ → Text → ℕ
unfolding starts_with
count_from keyword skip [] = 0
count_from keyword (suc skip) (c ∷ text) = count_from keyword skip text
count_from keyword zero (c ∷ text) =
    let hit = starts_with keyword (c ∷ text) in
    (if hit then 1 else 0) + count_from keyword (if hit then length keyword - 1 else 0) text

unfoldable pub count_all : List String → Text → ℕ
unfolding count_from
count_all [] text = 0
count_all (k ∷ keywords) text = count_from (codes k) 0 text + count_all keywords text

-- `f"kw_{role.value}"`
unfoldable pub keyword_feature : ExpertRole → String
keyword_feature analyst = "kw_analyst"
keyword_feature reasoner = "kw_reasoner"
keyword_feature synthesizer = "kw_synthesizer"
keyword_feature coder = "kw_coder"
keyword_feature translator = "kw_translator"
keyword_feature ExpertRole.router = "kw_router"
keyword_feature generalist = "kw_generalist"

pub record LogisticRouter (F : Type 0) : Type 0 where
  pub limits : Limits
  pub threshold : F
  pub weights : Dict String (Dict String F)

module _ {F : Type 0} (f : Floats F) where
  flag : Bool → F
  flag b = if b then f.decimal 10 1 else f.decimal 0 1

  densities : ℕ → Text → List (ExpertRole × List String) → Dict String F
  unfolding keyword_feature count_all
  densities n text [] = []
  densities n text ((role, keywords) ∷ rest) =
      (
        keyword_feature role,
        f.over (f.whole (count_all keywords text)) (f.over (f.whole n) (f.decimal 1000 1)),
      )
      ∷ densities n text rest

  -- `_extract_features`
  unfoldable pub extract_features : Prompts → Text → Dict String F
  unfolding flag densities
  extract_features p prompt =
      let n = max 1 (length prompt) in
      ("length_short", flag (ltb n 100))
      ∷ ("length_medium", flag (if leb 100 n then ltb n 500 else false))
      ∷ ("length_long", flag (leb 500 n))
      ∷ ("has_code", flag (p.has_code prompt))
      ∷ ("has_math", flag (p.has_math prompt))
      ∷ ("has_question", flag (any (λ c. eqb c 63) prompt))
      ∷ densities n (p.lower prompt) role_keywords

  -- `d.get(name, 0.0)`
  unfoldable pub get_or_zero : Dict String F → String → F
  get_or_zero d name = elim (lookup name d) [ none ↦ f.decimal 0 1 | some x ↦ x ]

  -- The loop over the features
  unfoldable pub add_features : Dict String F → Dict String F → F → F
  unfolding get_or_zero
  add_features w [] logit = logit
  add_features w ((name, x) ∷ features) logit =
      add_features w features (f.plus logit (f.times (get_or_zero w name) x))

  -- `_score`
  unfoldable pub score_roles : Dict String F → Dict String (Dict String F) → Dict String F
  unfolding add_features
  score_roles features weights =
      map
        (λ e.
          let logit = add_features e.1 features (get_or_zero e.1 "bias") in
          (e.0, f.over (f.decimal 10 1) (f.plus (f.decimal 10 1) (f.exp (f.negate logit)))))
        weights

  -- `_default_weights`
  unfoldable pub default_weights : Dict String (Dict String F)
  unfolding value
  default_weights =
      (
        value analyst,
        ("kw_analyst", f.decimal 30 1)
            ∷ ("has_question", f.decimal 10 1)
            ∷ ("length_long", f.decimal 5 1)
            ∷ ("bias", f.negate (f.decimal 5 1))
            ∷ [],
      )
      ∷ (
        value reasoner,
        ("kw_reasoner", f.decimal 40 1)
            ∷ ("has_math", f.decimal 20 1)
            ∷ ("length_long", f.decimal 7 1)
            ∷ ("bias", f.negate (f.decimal 10 1))
            ∷ [],
      )
      ∷ (
        value coder,
        ("kw_coder", f.decimal 50 1)
            ∷ ("has_code", f.decimal 30 1)
            ∷ ("bias", f.negate (f.decimal 15 1))
            ∷ [],
      )
      ∷ (
        value synthesizer,
        ("kw_synthesizer", f.decimal 40 1)
            ∷ ("length_short", f.decimal 5 1)
            ∷ ("bias", f.decimal 0 1)
            ∷ [],
      )
      ∷ (
        value translator,
        ("kw_translator", f.decimal 60 1) ∷ ("bias", f.negate (f.decimal 20 1)) ∷ [],
      )
      ∷ (value generalist, ("bias", f.decimal 0 1) ∷ [])
      ∷ []

  -- `__post_init__`
  unfoldable pub new_logistic : LogisticRouter F → LogisticRouter F
  unfolding default_weights
  new_logistic r = elim r.weights [ [] ↦ record r { weights = default_weights } | w ∷ ws ↦ r ]

  -- The score of an expert: that of its role with the bonus for a small expert
  unfoldable pub expert_score : Dict String F → Expert → F
  unfolding get_or_zero value
  expert_score scores e =
      f.plus (get_or_zero scores (value e.role)) (
        f.times (f.negate (f.decimal 1 4))
          (f.over (f.whole e.backend.params_m) (f.decimal 10000 1)))

  -- `route`
  unfoldable pub route : LogisticRouter F → Prompts → Text → List Expert → List String
  unfolding score_roles extract_features expert_score
  route r p prompt es =
      let scores = score_roles (extract_features p prompt) r.weights in
      logistic_route f.more r.limits (expert_score scores) (λ s. f.at_least s r.threshold) es
