-- ===== src/Server/App/Bounded.antt =====
-- What the two middlewares together let through (src/chen/server/app.py).
use chen.Common.{
  ℕ, ◌≤◌, Bool, true, false, ◌≡◌, refl, inl, inr, ◌⊎◌, List, [], ◌∷◌, All, map, arith,
  if◌then◌else◌, ◌==◌, codes_key, text_key, Bool-cases,
}
use mathlib.Core.Path.{subst}
use chen.Common.Dict.{lookup, lookup-insert}
use chen.Server.Auth.{ApiKeyStore, Scope, Denial, Response, forward, deny}
use chen.Server.Auth
use chen.Server.RateLimit.{Requests, Answer, passed, too_many, key_id, limit_of, admit, deque_of}
use chen.Server.RateLimit
use chen.Server.RateLimit.Window.{count_from, IsMonotone, admitted, window_bound}
use chen.Server.App.{Outcome, refused, limited, routed, outcome, handle, handle_all}

Response-cases : (r : Response) → ((s : Scope) × (r ≡ forward s)) ⊎ ((d : Denial) × (r ≡ deny d))
Response-cases (forward s) = inl (s, refl)
Response-cases (deny d) = inr (d, refl)

-- A scope that the rate limit counts under `id`.
unfoldable pub counts_for : List ℕ → Scope → Bool
counts_for id s = if s.type == "http" then key_id s == id else false

-- The times at which requests that count under `id` got to the routes.
unfoldable pub routed_times : List ℕ → List (ℕ × Outcome) → List ℕ
unfolding counts_for
routed_times id [] = []
routed_times id ((now, routed s) ∷ os) =
    let rest = routed_times id os in if counts_for id s then now ∷ rest else rest
routed_times id ((now, refused d) ∷ os) = routed_times id os
routed_times id ((now, limited n) ∷ os) = routed_times id os

-- The times of the requests that come to the rate limit and count under `id`.
coming : ApiKeyStore → List ℕ → List (ℕ × Scope) → List ℕ
unfolding counts_for
coming store id [] = []
coming store id ((now, scope) ∷ rest) =
    let later = coming store id rest in
    elim (Auth.call store scope) [
      | deny d ↦ later
      | forward s ↦ if counts_for id s then now ∷ later else later
    ]

coming-IsMonotone :
    (store : ApiKeyStore) (id : List ℕ) (reqs : List (ℕ × Scope)) (last later : ℕ)
    → IsMonotone last (map (λ r. r.0) reqs)
    → later ≤ last
    → IsMonotone later (coming store id reqs)
unfolding coming
coming-IsMonotone store id [] last later m h = tt
coming-IsMonotone store id ((now, scope) ∷ rest) last later m h =
    let tail = coming store id rest in
    let all = coming store id ((now, scope) ∷ rest) in
    let kept = coming-IsMonotone store id rest now later m.1 (omega (arith, m.0)) in
    elim (Response-cases (Auth.call store scope)) [
      | inr (d, denied) ↦
          let same : tail ≡ all = ground (arith, denied) in subst (IsMonotone later) same kept
      | inl (s, passed_on) ↦ elim (Bool-cases (counts_for id s)) [
        | inl here ↦
            let same : now ∷ tail ≡ all = ground (arith, passed_on, here) in
            subst (IsMonotone later) same
              (omega (arith, m.0), coming-IsMonotone store id rest now now m.1 (omega arith))
        | inr there ↦
            let same : tail ≡ all = ground (arith, passed_on, there) in
            subst (IsMonotone later) same kept
      ]
    ]

-- Every request that counts under `id` is held to `limit`.
abbrev pub HasLimit : ApiKeyStore → ℕ → List ℕ → ℕ → ℕ × Scope → Type 0
HasLimit store default id limit r =
    (s : Scope)
    → Auth.call store r.1 ≡ forward s
    → counts_for id s ≡ true
    → limit_of default s.auth ≡ limit

routed_times-handle_all :
    (store : ApiKeyStore) (default : ℕ) (id : List ℕ) (limit : ℕ) (reqs : List (ℕ × Scope))
    (requests : Requests)
    → All (HasLimit store default id limit) reqs
    → routed_times id (handle_all store default reqs requests).0
      ≡ admitted limit (coming store id reqs) (deque_of id requests)
unfolding routed_times handle_all handle coming admitted outcome deque_of RateLimit.call counts_for
routed_times-handle_all store default id limit [] requests h = refl
routed_times-handle_all store default id limit ((now, scope) ∷ rest) requests h =
    let next =
      routed_times-handle_all store default id limit rest
        (handle store default now scope requests).1 h.1 in
    elim (Response-cases (Auth.call store scope)) [
      | inr (d, denied) ↦ ground (arith, denied, next)
      | inl (s, passed_on) ↦ elim (Bool-cases (s.type == "http")) [
        | inr other ↦ ground (arith, passed_on, other, next)
        | inl http ↦
            let put =
              lookup-insert (key_id s) id
                (admit (limit_of default s.auth) now (deque_of (key_id s) requests)).1 requests in
            elim (Bool-cases (key_id s == id)) [
              | inl here ↦
                  let bound = h.0 s passed_on (ground (arith, http, here)) in
                  let same : key_id s ≡ id =
                    ground (arith, here, codes_key.same_iff (key_id s) id) in
                  elim (Bool-cases (admit limit now (deque_of id requests)).0) [
                    | inl room ↦ ground (arith, passed_on, http, here, same, bound, room, put, next)
                    | inr full ↦ ground (arith, passed_on, http, here, same, bound, full, put, next)
                  ]
              | inr there ↦
                  elim (Bool-cases
                    (admit (limit_of default s.auth) now (deque_of (key_id s) requests)).0) [
                      | inl room ↦ ground (arith, passed_on, http, there, room, put, next)
                      | inr full ↦ ground (arith, passed_on, http, there, full, put, next)
                    ]
            ]
      ]
    ]

-- Whatever requests come, in whatever order, as long as the clock does not go back and every
-- request that counts under `id` is held to one limit: no minute sees more requests under `id` get
-- through both middlewares to the routes than the limit says. Requests under other keys, and those
-- that the authentication refuses, make no difference.
pub routed_bound :
    (store : ApiKeyStore) (default : ℕ) (id : List ℕ) (limit : ℕ) (reqs : List (ℕ × Scope)) (a : ℕ)
    → IsMonotone 0 (map (λ r. r.0) reqs)
    → All (HasLimit store default id limit) reqs
    → count_from a (routed_times id (handle_all store default reqs []).0) ≤ limit
unfolding deque_of lookup
routed_bound store default id limit reqs a m h =
    let same = routed_times-handle_all store default id limit reqs [] h in
    let bound =
      window_bound limit (coming store id reqs) a
        (coming-IsMonotone store id reqs 0 0 m (omega arith)) in
    rw same bound
