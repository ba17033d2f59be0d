-- ===== src/Core/Router/Available.antt =====
-- Routers select experts that there are (src/chen/core/router.py).
use mathlib.Core.Path.{subst}
use chen.Common.{
  ℕ, String, Bool, true, false, not, ◌≡◌, inl, inr, some, List, [], ◌∷◌, ◌++◌, map, arith, ltb,
  length, keep, any, find, last?, All, All-append, All-take, All-keep, if◌then◌else◌, ◌==◌,
  text_key, ==-self, Bool-cases, Option-cases,
}
use chen.Common.Dict.{Dict, lookup, insert, values}
use chen.Common.Sort.Shuffle.{All-sort}
use chen.Core.Expert.{Expert}
use chen.Core.Router.{
  Limits, has_role, contains, names_of, last_role_names, append_last, move_last, cap, fall_back,
  at_least_min, logistic_selection, logistic_route, cosine_selection, cosine_route, best_of_roles,
  by_score, ranked, experts_in, value, expert_role_name,
}

-- A name of one of the experts.
abbrev pub IsNamed : List Expert → String → Type 0
IsNamed es n = contains n (names_of es) ≡ true

All-insert {ℓ} :
    {V : Type ℓ} (P : V → Type 0) (k : String) (v : V) (d : Dict String V)
    → P v
    → All P (values d)
    → All P (values (insert k v d))
unfolding insert
All-insert P k v [] h a = (h, tt)
All-insert P k v ((j, w) ∷ d) h a = elim (Bool-cases (j == k)) [
  | inl here ↦ rw here (h, a.1)
  | inr there ↦ rw there (a.0, All-insert P k v d h a.1)
]

best_of_roles-All :
    {S : Type 0} (more : S → S → Bool) (P : S × Expert → Type 0) (score : Expert → S)
    (es : List Expert) (best : Dict String (S × Expert))
    → All (λ e. P (score e, e)) es
    → All P (values best)
    → All P (values (best_of_roles more score es best))
unfolding best_of_roles
best_of_roles-All more P score [] best h a = a
best_of_roles-All more P score (e ∷ es) best h a =
    elim (Option-cases (lookup (value e.role) best)) [
      | inl new ↦ rw new (
          best_of_roles-All more P score es (insert (value e.role) (score e, e) best) h.1
            (All-insert P (value e.role) (score e, e) best h.0 a))
      | inr ((s, f), old) ↦ elim (Bool-cases (more (score e) s)) [
        | inl better ↦
            rw (old, better)
              (best_of_roles-All more P score es (insert (value e.role) (score e, e) best) h.1
                (All-insert P (value e.role) (score e, e) best h.0 a))
        | inr worse ↦ rw (old, worse) (best_of_roles-All more P score es best h.1 a)
      ]
    ]

all-IsNamed :
    (es fs : List Expert)
    → ((n : String) → IsNamed es n → IsNamed fs n)
    → All (λ (e : Expert). IsNamed fs e.name) es
unfolding contains names_of
all-IsNamed [] fs i = tt
all-IsNamed (e ∷ es) fs i =
    (i e.name (ground (arith, ==-self e.name)), all-IsNamed es fs (λ n h. i n (ground (arith, h))))

All-map {ℓ κ} :
    {A : Type ℓ} {B : Type κ} (f : A → B) (P : B → Type 0) (xs : List A)
    → All (λ x. P (f x)) xs
    → All P (map f xs)
All-map f P [] h = tt
All-map f P (x ∷ xs) h = (h.0, All-map f P xs h.1)

-- The predicate on what is scored.
abbrev Named : (S : Type 0) → List Expert → S × Expert → Type 0
Named S es x = IsNamed es x.1.name

names_in-All :
    {S : Type 0} (more : S → S → Bool) (es : List Expert) (xs : List (S × Expert))
    → All (Named S es) xs
    → All (λ (e : Expert). IsNamed es e.name) (experts_in more xs)
unfolding experts_in
names_in-All more es xs h = All-map (λ x. x.1) (λ (e : Expert). IsNamed es e.name) xs h

names_of-All :
    (es fs : List Expert)
    → All (λ (e : Expert). IsNamed es e.name) fs
    → All (IsNamed es) (names_of fs)
unfolding names_of
names_of-All es fs h = All-map (λ (e : Expert). e.name) (IsNamed es) fs h

at_least_min-All :
    (r : Limits) (es fs : List Expert) (names : List String)
    → All (λ (e : Expert). IsNamed es e.name) fs
    → All (IsNamed es) names
    → All (IsNamed es) (at_least_min r fs names)
unfolding at_least_min
at_least_min-All r es [] names f h = h
at_least_min-All r es (e ∷ fs) names f h = elim (Bool-cases (ltb (length names) r.min_activation)) [
  | inl few ↦ rw few (f.0, tt)
  | inr enough ↦ rw enough h
]

by_path {ℓ κ} : {A : Type ℓ} (P : A → Type κ) {xs ys : List A} → xs ≡ ys → All P ys → All P xs
by_path P e h = rw e h

found-All {ℓ} :
    {A : Type ℓ} (P : A → Type 0) (p : A → Bool) (xs : List A) (y : A)
    → All P xs
    → find p xs ≡ some y
    → P y
found-All P p [] y a h = absurd (cc)
found-All P p (x ∷ xs) y a h = elim (Bool-cases (p x)) [
  | inl here ↦ let same : x ≡ y = ground arith in subst P same a.0
  | inr there ↦ found-All P p xs y a.1 (ground arith)
]

fall_back-All :
    (r : Limits) (es fs : List Expert) (names : List String)
    → All (λ (e : Expert). IsNamed es e.name) fs
    → All (IsNamed es) names
    → All (IsNamed es) (fall_back r fs names)
unfolding fall_back
fall_back-All r es fs (n ∷ ns) f h = h
fall_back-All r es [] [] f h = tt
fall_back-All r es (e ∷ fs) [] f h =
    elim (Option-cases (find (has_role r.force_last_role) (e ∷ fs))) [
      | inl nowhere ↦ by_path (IsNamed es) {ys = e.name ∷ []} (ground (arith, nowhere)) (f.0, tt)
      | inr (g, found) ↦ by_path (IsNamed es) {ys = g.name ∷ []} (ground (arith, found)) (
        found-All (λ (e : Expert). IsNamed es e.name) (has_role r.force_last_role) (e ∷ fs) g f
            found,
        tt,
      )
    ]

append_last-All :
    (r : Limits) (es fs : List Expert) (present : Bool) (names : List String)
    → All (λ (e : Expert). IsNamed es e.name) fs
    → All (IsNamed es) names
    → All (IsNamed es) (append_last r fs present names)
unfolding append_last
append_last-All r es fs true names f h = h
append_last-All r es fs false names f h =
    let wanted : Expert → Bool =
      λ e. if has_role r.force_last_role e then not (contains e.name names) else false in
    elim (Option-cases (find wanted fs)) [
      | inl nowhere ↦ by_path (IsNamed es) {ys = names} (ground (arith, nowhere)) h
      | inr (g, found) ↦ by_path (IsNamed es) {ys = names ++ g.name ∷ []} (ground (arith, found)) (
          All-append (IsNamed es) names (g.name ∷ []) h
            (found-All (λ (e : Expert). IsNamed es e.name) wanted fs g f found, tt))
    ]

last-All {ℓ} :
    {A : Type ℓ} (P : A → Type 0) (xs : List A) (y : A) → All P xs → last? xs ≡ some y → P y
last-All P [] y a h = absurd (cc)
last-All P (x ∷ []) y a h = let same : x ≡ y = ground arith in subst P same a.0
last-All P (x ∷ z ∷ xs) y a h = last-All P (z ∷ xs) y a.1 h

move_last-All :
    (es : List Expert) (last_names names : List String)
    → All (IsNamed es) names
    → All (IsNamed es) (move_last last_names names)
unfolding move_last
move_last-All es last_names names h =
    let lasts = keep (λ n. contains n last_names) names in
    elim (Option-cases (last? lasts)) [
      | inl nowhere ↦ by_path (IsNamed es) {ys = names} (ground (arith, nowhere)) h
      | inr (n, found) ↦
          by_path (IsNamed es) {ys = keep (λ k. not (k == n)) names ++ n ∷ []}
            (ground (arith, found))
            (All-append (IsNamed es) (keep (λ k. not (k == n)) names) (n ∷ [])
              (All-keep (IsNamed es) (λ k. not (k == n)) names h)
              (
                last-All (IsNamed es) lasts n
                    (All-keep (IsNamed es) (λ k. contains k last_names) names h) found,
                tt,
              ))
    ]

cap-All :
    (es : List Expert) (max : ℕ) (names : List String)
    → All (IsNamed es) names
    → All (IsNamed es) (cap max names)
unfolding cap
cap-All es max names h = elim (Bool-cases (ltb 0 max)) [
  | inl limited ↦ rw limited (All-take (IsNamed es) max names h)
  | inr free ↦ rw free h
]

logistic_selection-All :
    {S : Type 0} (more : S → S → Bool) (r : Limits) (score : Expert → S) (passes : S → Bool)
    (es : List Expert)
    → All (IsNamed es) (logistic_selection more r score passes es)
unfolding logistic_selection ranked by_score
logistic_selection-All {S} more r score passes es =
    let every = all-IsNamed es es (λ n h. h) in
    let best = best_of_roles-All more (Named S es) score es [] every tt in
    let chosen = names_in-All more es (ranked more score passes es) (
      All-sort (Named S es) (λ x y. more x.0 y.0) _
        (All-keep (Named S es) (λ x. passes x.0) _ best)) in
    fall_back-All r es es _ every (
      at_least_min-All r es _ _ chosen
        (All-take (IsNamed es) r.max_activation _ (names_of-All es _ chosen)))

cosine_selection-All :
    {S : Type 0} (more : S → S → Bool) (r : Limits) (sim : Expert → S) (passes : S → Bool)
    (es : List Expert)
    → All (IsNamed es) (cosine_selection more r sim passes es)
unfolding cosine_selection by_score
cosine_selection-All {S} more r sim passes es =
    let every = all-IsNamed es es (λ n h. h) in
    let scored =
      All-sort (Named S es) (λ x y. more x.0 y.0) _
        (All-map (λ (e : Expert). (sim e, e)) (Named S es) es every) in
    fall_back-All r es es _ every (
      at_least_min-All r es _ _ (names_in-All more es _ scored) (
        names_of-All es _ (
          names_in-All more es _ (
            All-keep (Named S es) (λ x. passes x.0) _
              (All-take (Named S es) r.max_activation _ scored)))))

closed-All :
    (r : Limits) (es : List Expert) (present : Bool) (names : List String)
    → All (IsNamed es) names
    → All
        (IsNamed es)
        (cap r.max_activation (move_last (last_role_names r es) (append_last r es present names)))
closed-All r es present names h =
    cap-All es r.max_activation (move_last (last_role_names r es) (append_last r es present names))
      (move_last-All es (last_role_names r es) (append_last r es present names)
        (append_last-All r es es present names (all-IsNamed es es (λ n k. k)) h))

-- The logistic and the cosine router select names of experts only.
pub routes-IsNamed :
    {S : Type 0} (more : S → S → Bool) (r : Limits) (score : Expert → S) (passes : S → Bool)
    (es : List Expert)
    → All (IsNamed es) (logistic_route more r score passes es)
      × All (IsNamed es) (cosine_route more r score passes es)
unfolding logistic_route cosine_route cosine_selection
routes-IsNamed more r score passes [] = (tt, tt)
routes-IsNamed more r score passes (e ∷ es) =
    let l = logistic_selection more r score passes (e ∷ es) in
    let c = cosine_selection more r score passes (e ∷ es) in
    (
      closed-All r (e ∷ es) (any (λ n. expert_role_name n (e ∷ es) == value r.force_last_role) l) l
          (logistic_selection-All more r score passes (e ∷ es)),
      closed-All r (e ∷ es) (any (λ n. contains n (last_role_names r (e ∷ es))) c) c
          (cosine_selection-All more r score passes (e ∷ es)),
    )
