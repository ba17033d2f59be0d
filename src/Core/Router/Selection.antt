-- ===== src/Core/Router/Selection.antt =====
-- How many experts a router selects, and which (src/chen/core/router.py).
use chen.Common.{
  ℕ, zero, suc, ◌-◌, ◌≤◌, String, Bool, true, false, not, ◌≡◌, refl, ap, ◌∙◌, inl, inr, some, List,
  [], ◌∷◌, ◌++◌, arith, ltb, length, take, keep, any, find, last?, if◌then◌else◌, ◌==◌, text_key,
  ==-self, length-append, Option-cases, length-take-le,
}
use chen.Core.Expert.{Expert}
use chen.Core.Router.{
  Limits, has_role, contains, last_role_names, append_last, move_last, cap, fall_back,
  logistic_selection, logistic_route, cosine_selection, cosine_route, choose_last, hybrid_route,
  reserve_last,
}
use chen.Core.Router.Names.{IsLast, EndsWithLast, last?-append, find-some, find-none, found_IsLast}

fall_back-filled :
    (r : Limits) (e : Expert) (es : List Expert) (names : List String)
    → ltb 0 (length (fall_back r (e ∷ es) names)) ≡ true
unfolding fall_back
fall_back-filled r e es [] = elim (Option-cases (find (has_role r.force_last_role) (e ∷ es))) [
  | inl missing ↦ ground (arith, missing)
  | inr (f, found) ↦ ground (arith, found)
]
fall_back-filled r e es (n ∷ ns) = ground arith

append_last-filled :
    (r : Limits) (es : List Expert) (present : Bool) (names : List String)
    → ltb 0 (length names) ≡ true
    → ltb 0 (length (append_last r es present names)) ≡ true
unfolding append_last
append_last-filled r es true names h = h
append_last-filled r es false names h =
    elim (Option-cases (
      find
        (λ (e : Expert).
          if has_role r.force_last_role e then not (contains e.name names) else false)
        es)) [
          | inl missing ↦ ground (arith, missing)
          | inr (e, found) ↦ ground (arith, found, length-append names (e.name ∷ []))
        ]

move_last-filled :
    (last_names names : List String)
    → ltb 0 (length names) ≡ true
    → ltb 0 (length (move_last last_names names)) ≡ true
unfolding move_last
move_last-filled last_names names h =
    elim (Option-cases (last? (keep (λ n. contains n last_names) names))) [
      | inl missing ↦ ground (arith, missing)
      | inr (n, found) ↦
          ground (arith, found, length-append (keep (λ m. not (m == n)) names) (n ∷ []))
    ]

cap-bounds :
    (max : ℕ) (names : List String)
    → 1 ≤ max
    → ltb 0 (length names) ≡ true
    → (1 ≤ length (cap max names)) × (length (cap max names) ≤ max)
unfolding cap
cap-bounds zero names m h = absurd (omega arith)
cap-bounds (suc max) [] m h = absurd (cc)
cap-bounds (suc max) (n ∷ names) m h = ground (arith, length-take-le max names)

closed-bounds :
    (r : Limits) (es : List Expert) (present : Bool) (names : List String)
    → 1 ≤ r.max_activation
    → ltb 0 (length names) ≡ true
    → (1
        ≤ length (
            cap r.max_activation
              (move_last (last_role_names r es) (append_last r es present names))))
      × (length (
            cap r.max_activation
              (move_last (last_role_names r es) (append_last r es present names)))
          ≤ r.max_activation)
closed-bounds r es present names m h =
    cap-bounds r.max_activation (move_last (last_role_names r es) (append_last r es present names))
      m
      (move_last-filled (last_role_names r es) (append_last r es present names)
        (append_last-filled r es present names h))

selections-filled :
    {S : Type 0} (more : S → S → Bool) (r : Limits) (score : Expert → S) (passes : S → Bool)
    (e : Expert) (es : List Expert)
    → (ltb 0 (length (logistic_selection more r score passes (e ∷ es))) ≡ true)
      × (ltb 0 (length (cosine_selection more r score passes (e ∷ es))) ≡ true)
unfolding logistic_selection cosine_selection
selections-filled more r score passes e es = (fall_back-filled r e es _, fall_back-filled r e es _)

-- With a limit above 0, the logistic and the cosine router select at least one of a pool of
-- experts, and at most `max_activation`; without experts they select none.
pub route_bounds :
    {S : Type 0} (more : S → S → Bool) (r : Limits) (score : Expert → S) (passes : S → Bool)
    (e : Expert) (es : List Expert)
    → 1 ≤ r.max_activation
    → (1 ≤ length (logistic_route more r score passes (e ∷ es)))
      × (length (logistic_route more r score passes (e ∷ es)) ≤ r.max_activation)
      × (1 ≤ length (cosine_route more r score passes (e ∷ es)))
      × (length (cosine_route more r score passes (e ∷ es)) ≤ r.max_activation)
      × (logistic_route more r score passes [] ≡ [])
      × (cosine_route more r score passes [] ≡ [])
unfolding logistic_route cosine_route cosine_selection
route_bounds more r score passes e es m =
    let (l, c) = selections-filled more r score passes e es in
    let l_bounds =
      closed-bounds r (e ∷ es) _ (logistic_selection more r score passes (e ∷ es)) m l in
    let c_bounds = closed-bounds r (e ∷ es) _ (cosine_selection more r score passes (e ∷ es)) m c in
    (l_bounds.0, l_bounds.1, c_bounds.0, c_bounds.1, refl, refl)

choose_last-contained :
    (ordered last_names : List String) (x : String)
    → contains x last_names ≡ true
    → (n : String) × (choose_last ordered last_names ≡ some n) × (contains n last_names ≡ true)
unfolding choose_last
choose_last-contained ordered [] x h = absurd (unfold contains in cc)
choose_last-contained ordered (m ∷ ms) x h =
    elim (Option-cases (find (λ n. contains n (m ∷ ms)) ordered)) [
      | inl missing ↦ (m, ground (arith, missing), unfold contains in ground (arith, ==-self m))
      | inr (n, found) ↦
          (n, ground (arith, found), (find-some (λ k. contains k (m ∷ ms)) ordered n found).0)
    ]

choose_last-IsLast :
    (r : Limits) (es : List Expert) (ordered : List String)
    → any (has_role r.force_last_role) es ≡ true
    → (n : String) × (choose_last ordered (last_role_names r es) ≡ some n) × IsLast r es n
choose_last-IsLast r es ordered some_last =
    elim (Option-cases (find (has_role r.force_last_role) es)) [
      | inl nowhere ↦ absurd (ground (arith, find-none (has_role r.force_last_role) es nowhere))
      | inr (e, found) ↦ choose_last-contained ordered (last_role_names r es) e.name (
          found_IsLast r es (has_role r.force_last_role) e found
            (find-some (has_role r.force_last_role) es e found).0)
    ]

reserve_last-ends :
    (max : ℕ) (ordered : List String) (n : String)
    → 1 ≤ max
    → (last? (reserve_last max ordered (some n)) ≡ some n)
      × (length (reserve_last max ordered (some n)) ≤ max)
unfolding reserve_last
reserve_last-ends max ordered n m =
    let others = keep (λ k. not (k == n)) ordered in
    let taken = if ltb 0 max then take (max - 1) others else others in
    (
      last?-append taken n,
      ground
          (arith, length-append (take (max - 1) others) (n ∷ []), length-take-le (max - 1) others),
    )

hybrid_route-union :
    (r : Limits) (listed : List String → List String) (by_logistic by_cosine : List String)
    (u : String) (us : List String) (es : List Expert)
    → listed (by_logistic ++ by_cosine) ≡ u ∷ us
    → hybrid_route r listed by_logistic by_cosine es
      ≡ reserve_last r.max_activation
          (keep (λ n. contains n (u ∷ us)) by_logistic
            ++ keep (λ n. not (contains n by_logistic)) (u ∷ us))
          (choose_last
            (keep (λ n. contains n (u ∷ us)) by_logistic
              ++ keep (λ n. not (contains n by_logistic)) (u ∷ us))
            (last_role_names r es))
unfolding hybrid_route
hybrid_route-union r listed by_logistic by_cosine u us es union = ground (arith, union)

-- If there are experts of the last role, the hybrid router ends with one of them and selects at
-- most `max_activation` experts, where that is above 0 and the union of what the two routers
-- selected is not empty, whatever the order of the union is.
pub hybrid-EndsWithLast :
    (r : Limits) (listed : List String → List String) (by_logistic by_cosine : List String)
    (u : String) (us : List String) (es : List Expert)
    → 1 ≤ r.max_activation
    → any (has_role r.force_last_role) es ≡ true
    → listed (by_logistic ++ by_cosine) ≡ u ∷ us
    → EndsWithLast r es (hybrid_route r listed by_logistic by_cosine es)
      × (length (hybrid_route r listed by_logistic by_cosine es) ≤ r.max_activation)
unfolding EndsWithLast
hybrid-EndsWithLast r listed by_logistic by_cosine u us es m some_last union =
    let ordered =
      keep (λ n. contains n (u ∷ us)) by_logistic
      ++ keep (λ n. not (contains n by_logistic)) (u ∷ us) in
    let (n, chosen, last) = choose_last-IsLast r es ordered some_last in
    let (ends, short) = reserve_last-ends r.max_activation ordered n m in
    let same : hybrid_route r listed by_logistic by_cosine es
        ≡ reserve_last r.max_activation ordered (some n) =
      hybrid_route-union r listed by_logistic by_cosine u us es union
      ∙ ap (reserve_last r.max_activation ordered) chosen in
    ((n, ap last? same ∙ ends, last), ground (arith, short, ap length same))
