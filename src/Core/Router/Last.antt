-- ===== src/Core/Router/Last.antt =====
-- The expert that the last role is reserved for (src/chen/core/router.py).
use mathlib.Core.Path.{subst}
use chen.Common.{
  ==-self, append-nil, take-append_of, String, Bool, true, false, not, ◌≡◌, refl, sym, inl, inr,
  none, some, List, [], ◌∷◌, ◌++◌, arith, ltb, length, keep, any, find, if◌then◌else◌, ◌==◌,
  text_key, Option-cases, take-length, any-append,
}
use chen.Core.Expert.{Expert}
use chen.Core.Router.{
  Limits, has_role, contains, last_role_names, expert_role_name, append_last, move_last, cap,
  logistic_selection, logistic_route, cosine_selection, cosine_route, value,
}
use chen.Core.Router.Names.{
  keep_every, EndsWithLast, move_last_lem, cap_short, find-none, find-some, any_member, any_mono,
  looked_up, found_IsLast,
}

abbrev wanted : Limits → List String → Expert → Bool
wanted r names e = if has_role r.force_last_role e then not (contains e.name names) else false

append_last-missing :
    (r : Limits) (es : List Expert) (names : List String)
    → find (wanted r names) es ≡ none
    → append_last r es false names ≡ names
unfolding append_last
append_last-missing r es names missing = ground (arith, missing)

append_last-found :
    (r : Limits) (es : List Expert) (names : List String) (e : Expert)
    → find (wanted r names) es ≡ some e
    → append_last r es false names ≡ names ++ e.name ∷ []
unfolding append_last
append_last-found r es names e found = ground (arith, found)

wanted_only :
    (r : Limits) (names : List String) (e : Expert)
    → wanted r names e ≡ true
    → (has_role r.force_last_role e ≡ true) × (contains e.name names ≡ false)
wanted_only r names e h = ground arith

already :
    (r : Limits) (es : List Expert) (names : List String) (e : Expert)
    → find (wanted r names) es ≡ none
    → find (has_role r.force_last_role) es ≡ some e
    → contains e.name names ≡ true
already r es names e missing found =
    let (h, any_of) = find-some (has_role r.force_last_role) es e found in
    let none_wanted = find-none (wanted r names) es missing in
    let here : wanted r names e ≡ false = ground (arith, any_of (wanted r names), none_wanted) in
    ground (arith, here, h)

append_last-present :
    (r : Limits) (es : List Expert) (present : Bool) (names : List String)
    → any (has_role r.force_last_role) es ≡ true
    → (present ≡ true → any (λ n. contains n (last_role_names r es)) names ≡ true)
    → any (λ n. contains n (last_role_names r es)) (append_last r es present names) ≡ true
append_last-present r es true names some_last present = unfold append_last in present refl
append_last-present r es false names some_last present =
    elim (Option-cases (find (wanted r names) es)) [
      | inl missing ↦ elim (Option-cases (find (has_role r.force_last_role) es)) [
        | inl nowhere ↦ absurd (ground (arith, find-none (has_role r.force_last_role) es nowhere))
        | inr (e, found) ↦ rw (append_last-missing r es names missing) (
            any_member (λ n. contains n (last_role_names r es)) e.name names
              (already r es names e missing found)
              (found_IsLast r es (has_role r.force_last_role) e found
                (find-some (has_role r.force_last_role) es e found).0))
      ]
      | inr (e, found) ↦
          let role = (wanted_only r names e (find-some (wanted r names) es e found).0).0 in
          let last = found_IsLast r es (wanted r names) e found role in
          rw (append_last-found r es names e found) (
            ground (
              arith,
              any-append (λ n. contains n (last_role_names r es)) names (e.name ∷ []),
              last,
            ))
    ]

-- What both routers do after their selection.
abbrev closed : Limits → List Expert → Bool → List String → List String
closed r es present names =
    cap r.max_activation (move_last (last_role_names r es) (append_last r es present names))

closed-ends :
    (r : Limits) (es : List Expert) (present : Bool) (names : List String)
    → any (has_role r.force_last_role) es ≡ true
    → (present ≡ true → any (λ n. contains n (last_role_names r es)) names ≡ true)
    → ltb (length (closed r es present names)) r.max_activation ≡ true
    → EndsWithLast r es (closed r es present names)
closed-ends r es present names some_last p short =
    let open_names = append_last r es present names in
    subst (EndsWithLast r es)
      (sym (cap_short r.max_activation (move_last (last_role_names r es) open_names) short))
      (move_last_lem r es open_names (append_last-present r es present names some_last p))

keep_none {ℓ} : {A : Type ℓ} (p : A → Bool) (xs : List A) → any p xs ≡ false → keep p xs ≡ []
keep_none p [] h = refl
keep_none p (x ∷ xs) h = ground (arith, keep_none p xs)

keep_append {ℓ} :
    {A : Type ℓ} (p : A → Bool) (xs ys : List A) → keep p (xs ++ ys) ≡ keep p xs ++ keep p ys
keep_append p [] ys = refl
keep_append p (x ∷ xs) ys = ground (arith, keep_append p xs ys)

keep_others :
    (x : String) (names : List String)
    → contains x names ≡ false
    → keep (λ n. not (n == x)) names ≡ names
unfolding contains
keep_others x [] h = refl
keep_others x (n ∷ names) h = ground (arith, keep_others x names)

move_last-appended :
    (last_names names : List String) (x : String)
    → any (λ n. contains n last_names) names ≡ false
    → contains x names ≡ false
    → contains x last_names ≡ true
    → move_last last_names (names ++ x ∷ []) ≡ names ++ x ∷ []
unfolding move_last
move_last-appended last_names names x h new last = ground (
  arith,
  keep_every (λ n. contains n last_names) names x h,
  last,
  ==-self x,
  keep_append (λ n. not (n == x)) names (x ∷ []),
  keep_others x names new,
  append-nil names,
)

move_last-absent :
    (last_names names : List String)
    → any (λ n. contains n last_names) names ≡ false
    → move_last last_names names ≡ names
unfolding move_last
move_last-absent last_names names h = ground (arith, keep_none (λ n. contains n last_names) names h)

closed-full :
    (r : Limits) (es : List Expert) (names : List String)
    → length names ≡ r.max_activation
    → ltb 0 r.max_activation ≡ true
    → any (λ n. contains n (last_role_names r es)) names ≡ false
    → closed r es false names ≡ names
unfolding cap
closed-full r es names full max absent = elim (Option-cases (find (wanted r names) es)) [
  | inl missing ↦
      rw
        (
          append_last-missing r es names missing,
          move_last-absent (last_role_names r es) names absent,
        )
        (ground (arith, take-length r.max_activation names, full))
  | inr (e, found) ↦
      let (role, new) = wanted_only r names e (find-some (wanted r names) es e found).0 in
      let last = found_IsLast r es (wanted r names) e found role in
      rw
        (
          append_last-found r es names e found,
          move_last-appended (last_role_names r es) names e.name absent new last,
        )
        (ground (arith, take-append_of r.max_activation names (e.name ∷ []) (sym full)))
]

-- If there are experts of the last role, a selection of the logistic router that has not reached
-- `max_activation` ends with one of them.
pub short-EndsWithLast :
    {S : Type 0} (more : S → S → Bool) (r : Limits) (score : Expert → S) (passes : S → Bool)
    (e : Expert) (es : List Expert)
    → any (has_role r.force_last_role) (e ∷ es) ≡ true
    → ltb (length (logistic_route more r score passes (e ∷ es))) r.max_activation ≡ true
    → EndsWithLast r (e ∷ es) (logistic_route more r score passes (e ∷ es))
unfolding logistic_route
short-EndsWithLast more r score passes e es some_last short =
    let selected = logistic_selection more r score passes (e ∷ es) in
    let role_is : String → Bool = λ n. expert_role_name n (e ∷ es) == value r.force_last_role in
    closed-ends r (e ∷ es) (any role_is selected) selected some_last
      (any_mono role_is (λ n. contains n (last_role_names r (e ∷ es))) selected
        (looked_up r (e ∷ es)))
      short

absent-role :
    (r : Limits) (es : List Expert) (names : List String)
    → any (λ n. contains n (last_role_names r es)) names ≡ false
    → any (λ n. expert_role_name n es == value r.force_last_role) names ≡ false
absent-role r es names h =
    let role_is : String → Bool = λ n. expert_role_name n es == value r.force_last_role in
    ground
      (arith, h, any_mono role_is (λ n. contains n (last_role_names r es)) names (looked_up r es))

-- If `max_activation` experts are selected by their scores and none of them has the last role, both
-- routers return exactly these: the expert of the last role that they append is cut off again.
pub full_selection_cuts_last :
    {S : Type 0} (more : S → S → Bool) (r : Limits) (score : Expert → S) (passes : S → Bool)
    (e : Expert) (es : List Expert)
    → ltb 0 r.max_activation ≡ true
    → length (logistic_selection more r score passes (e ∷ es)) ≡ r.max_activation
    → any
        (λ n. contains n (last_role_names r (e ∷ es)))
        (logistic_selection more r score passes (e ∷ es))
      ≡ false
    → length (cosine_selection more r score passes (e ∷ es)) ≡ r.max_activation
    → any
        (λ n. contains n (last_role_names r (e ∷ es)))
        (cosine_selection more r score passes (e ∷ es))
      ≡ false
    → (logistic_route more r score passes (e ∷ es)
        ≡ logistic_selection more r score passes (e ∷ es))
      × (cosine_route more r score passes (e ∷ es) ≡ cosine_selection more r score passes (e ∷ es))
unfolding logistic_route cosine_route cosine_selection
full_selection_cuts_last more r score passes e es max l_full l_absent c_full c_absent =
    let l = logistic_selection more r score passes (e ∷ es) in
    let c = cosine_selection more r score passes (e ∷ es) in
    (
      rw (absent-role r (e ∷ es) l l_absent) (closed-full r (e ∷ es) l l_full max l_absent),
      rw c_absent (closed-full r (e ∷ es) c c_full max c_absent),
    )
