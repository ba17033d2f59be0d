-- ===== src/Server/RateLimit/Window.antt =====
-- The bound that `RateLimitMiddleware` (src/chen/server/auth.py) keeps.
use chen.Common.{
  ℕ, ◌+◌, ◌≤◌, ◌<◌, true, ◌≡◌, ◌≢◌, refl, ap, some, List, [], ◌∷◌, ◌++◌, arith, All, All-append,
  ltb, leb, ◌&&◌, ◌==◌, length, if◌then◌else◌, codes_key, text_key, Bool-cases, inl, inr,
}
use chen.Common.Dict.{insert, lookup-insert_ne}
use chen.Server.Auth.{ApiKey, Scope}
use chen.Server.RateLimit.{window, Requests, prune, key_id, admit, deque_of, too_many, call}

-- How many of the times lie in the minute that begins at `a`.
abbrev pub count_from : ℕ → List ℕ → ℕ
count_from a [] = 0
count_from a (t ∷ ts) = (if leb a t && leb t (a + window) then 1 else 0) + count_from a ts

count_from-append :
    (a : ℕ) (xs ys : List ℕ) → count_from a (xs ++ ys) ≡ count_from a xs + count_from a ys
count_from-append a [] ys = omega arith
count_from-append a (x ∷ xs) ys = omega (arith, count_from-append a xs ys)

count_from-le-length : (a : ℕ) (xs : List ℕ) → count_from a xs ≤ length xs
count_from-le-length a [] = omega arith
count_from-le-length a (x ∷ xs) = ground (arith, count_from-le-length a xs)

-- The clock never goes back, from `last` on.
abbrev pub IsMonotone : ℕ → List ℕ → Type 0
IsMonotone last [] = Unit
IsMonotone last (t ∷ ts) = (last ≤ t) × IsMonotone t ts

-- Requests of one key at the given times, each under its limit: the times of those let through.
unfoldable pub admitted : ℕ → List ℕ → List ℕ → List ℕ
admitted limit [] reqs = []
admitted limit (now ∷ ts) reqs =
    let (goes_on, reqs') = admit limit now reqs in
    let rest = admitted limit ts reqs' in if goes_on then now ∷ rest else rest

-- What is no longer in the deque is older than a minute.
abbrev IsOld : ℕ → List ℕ → Type 0
IsOld now = All (λ t. t + window < now)

IsOld-later : (now later : ℕ) (ts : List ℕ) → now ≤ later → IsOld now ts → IsOld later ts
IsOld-later now later [] h o = tt
IsOld-later now later (t ∷ ts) h o = (omega arith, IsOld-later now later ts h o.1)

count_from-old : (a now : ℕ) (ts : List ℕ) → IsOld now ts → now ≤ a + window → count_from a ts ≡ 0
count_from-old a now [] o h = refl
count_from-old a now (t ∷ ts) o h = ground (arith, count_from-old a now ts o.1 h)

-- `prune` splits off a front part that is old.
prune_splits :
    (now : ℕ) (ts : List ℕ)
    → (dropped : List ℕ) × IsOld now dropped × (dropped ++ prune now ts ≡ ts)
unfolding prune
prune_splits now [] = ([], tt, refl)
prune_splits now (t ∷ ts) = elim (Bool-cases (ltb (t + window) now)) [
  | inl old ↦ let (d, o, e) = prune_splits now ts in (t ∷ d, (ground arith, o), rw (old, e))
  | inr new ↦ ([], tt, rw new)
]

-- One more request keeps the bound where the deque has room.
room_for_one :
    (limit a now : ℕ) (old recent : List ℕ)
    → IsOld now old
    → length recent < limit
    → count_from a old + count_from a recent ≤ limit
    → count_from a old + count_from a (recent ++ now ∷ []) ≤ limit
room_for_one limit a now old recent o room h = elim (Bool-cases (leb now (a + window))) [
  | inl inside ↦ ground (
    arith,
    count_from-append a recent (now ∷ []),
    count_from-le-length a recent,
    count_from-old a now old o,
  )
  | inr outside ↦ ground (arith, count_from-append a recent (now ∷ []))
]

-- The times in the deque, those dropped before and those still to come, together.
admitted_bound :
    (limit : ℕ) (ts old reqs : List ℕ) (last : ℕ)
    → IsOld last old
    → IsMonotone last ts
    → ((a : ℕ) → count_from a old + count_from a reqs ≤ limit)
    → (a : ℕ) → count_from a old + count_from a reqs + count_from a (admitted limit ts reqs) ≤ limit
unfolding admitted admit
admitted_bound limit [] old reqs last o m h a = omega (arith, h a)
admitted_bound limit (now ∷ ts) old reqs last o m h a =
    let (dropped, od, e) = prune_splits now reqs in
    let old' : List ℕ = old ++ dropped in
    let o' : IsOld now old' = All-append _ old dropped (IsOld-later last now old m.0 o) od in
    let h' : (b : ℕ) → count_from b old' + count_from b (prune now reqs) ≤ limit = λ b. omega (
      arith,
      h b,
      count_from-append b old dropped,
      count_from-append b dropped (prune now reqs),
      ap (count_from b) e,
    ) in
    elim (Bool-cases (leb limit (length (prune now reqs)))) [
      | inl full ↦ rw full (
          omega (
            arith,
            admitted_bound limit ts old' (prune now reqs) now o' m.1 h' a,
            count_from-append a old dropped,
            count_from-append a dropped (prune now reqs),
            ap (count_from a) e,
          ))
      | inr room ↦ rw room (
          omega (
            arith,
            admitted_bound limit ts old' (prune now reqs ++ now ∷ []) now o' m.1
                (λ b. room_for_one limit b now old' (prune now reqs) o' (ground arith) (h' b)) a,
            count_from-append a old dropped,
            count_from-append a dropped (prune now reqs),
            count_from-append a (prune now reqs) (now ∷ []),
            ap (count_from a) e,
          ))
    ]

-- However many requests a key makes, at times that do not go back, at most `limit` of them are let
-- through in any one minute, its first and last instant included.
pub window_bound :
    (limit : ℕ) (ts : List ℕ) (a : ℕ)
    → IsMonotone 0 ts
    → count_from a (admitted limit ts []) ≤ limit
window_bound limit ts a m = omega (arith, admitted_bound limit ts [] [] 0 tt m (λ b. omega arith) a)

-- A request with a key whose own limit is 0 is held to the default limit: with that many requests
-- in the last minute it gets a 429 that names the default limit.
pub zero_is_default_limit :
    (default now : ℕ) (scope : Scope) (k : ApiKey) (requests : Requests)
    → (scope.type == "http") ≡ true
    → scope.auth ≡ some k
    → k.rate_limit_per_minute ≡ 0
    → default ≤ length (prune now (deque_of k.key requests))
    → (call default now scope requests).0 ≡ too_many default
unfolding call
zero_is_default_limit default now scope k requests http auth zero_limit full =
    rw (http, auth) (ground arith)

deque_of-insert :
    (key other reqs : List ℕ) (requests : Requests)
    → key ≢ other
    → deque_of other (insert key reqs requests) ≡ deque_of other requests
unfolding deque_of
deque_of-insert key other reqs requests ne =
    ground (arith, lookup-insert_ne key other reqs requests ne)

-- A request counts against its own key alone: the deque of every other key is as it was.
pub call_others :
    (default now : ℕ) (scope : Scope) (requests : Requests) (other : List ℕ)
    → key_id scope ≢ other
    → deque_of other (call default now scope requests).1 ≡ deque_of other requests
unfolding call
call_others default now scope requests other ne = elim (Bool-cases (scope.type == "http")) [
  | inl http ↦ rw http (deque_of-insert (key_id scope) other _ requests ne)
  | inr no_http ↦ rw no_http
]
