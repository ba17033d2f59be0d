-- ===== src/Core/Router/Examples.antt =====
-- The routers at concrete inputs, with numbers as scores.
use chen.Common.{ℕ, String, Bool, false, ◌≡◌, refl, List, [], ◌∷◌, ltb, none}
use chen.Common.Result.{ok, raised}
use chen.Common.Dict.{lookup, insert}
use chen.Common.Sort.{place, sort}
use chen.Core.Expert.{ExpertRole, analyst, coder, synthesizer, Backend, Expert, backend_failed}
use chen.Core.Router.{
  Limits, has_role, value, contains, last_role_names, names_of, expert_role_name,
  logistic_selection, logistic_route, ranked, best_of_roles, by_score, at_least_min, fall_back,
  append_last, move_last, cap,
}
use chen.Core.Router.Names.{EndsWithLast}
use chen.Core.Router.Last.{short-EndsWithLast}

abbrev quiet : ℕ → Backend
quiet n = record {
  params_m = n;
  supports_kv_cache = false;
  generate = λ text k. ok text;
  encode = λ text. raised backend_failed;
  decode = λ c k. ok c.source_text;
  transfer_cache = λ c. ok c;
  count_tokens = none;
}

abbrev expert : String → ExpertRole → ℕ → Expert
expert name role n = record { name = name; role = role; backend = quiet n; description = "" }

abbrev writer : Expert
writer = expert "w" synthesizer 1

abbrev pool : List Expert
pool = expert "c" coder 8 ∷ writer ∷ []

abbrev limits : ℕ → Limits
limits n = record { min_activation = 1; max_activation = n; force_last_role = synthesizer }

abbrev more : ℕ → ℕ → Bool
more m n = ltb n m

abbrev score : Expert → ℕ
score e = e.backend.params_m

abbrev passes : ℕ → Bool
passes n = ltb 2 n

abbrev analyst_first : Expert
analyst_first = expert "a" analyst 9

short_route :
    logistic_route more (limits 4) score passes (analyst_first ∷ pool) ≡ "a" ∷ "c" ∷ "w" ∷ []
unfolding logistic_route logistic_selection ranked best_of_roles by_score sort place lookup insert
    value at_least_min fall_back append_last move_last cap contains last_role_names names_of
    has_role expert_role_name
short_route = refl

short-EndsWithLast_example :
    EndsWithLast
      (limits 4)
      (analyst_first ∷ pool)
      (logistic_route more (limits 4) score passes (analyst_first ∷ pool))
unfolding has_role value
short-EndsWithLast_example =
    short-EndsWithLast more (limits 4) score passes analyst_first pool refl (rw short_route refl)
