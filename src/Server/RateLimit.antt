-- ===== src/Server/RateLimit.antt =====
-- src/chen/server/auth.py: `RateLimitMiddleware`. Times are in microseconds; the deque of a key
-- holds the times of the requests that were let through.
pub mod Window
mod Examples
use chen.Common.{
  codes, ℕ, ◌+◌, String, Bool, true, false, Option, none, some, List, [], ◌∷◌, ◌++◌, ltb, leb, eqb,
  if◌then◌else◌, ◌==◌, text_key, codes_key, length,
}
use chen.Common.Dict.{Dict, lookup, insert}
use chen.Server.Auth.{ApiKey, Scope}

-- One minute.
abbrev pub window : ℕ
window = 60000000

abbrev pub Requests : Type 0
Requests = Dict (List ℕ) (List ℕ)

-- `while reqs and reqs[0] < now - window: reqs.popleft()`
unfoldable pub prune : ℕ → List ℕ → List ℕ
prune now [] = []
prune now (t ∷ ts) = let rest = prune now ts in if ltb (t + window) now then rest else t ∷ ts

client_ip : Option (List ℕ) → List ℕ
client_ip none = codes "unknown"
client_ip (some ip) = ip

-- `key_id`
unfoldable pub key_id : Scope → List ℕ
unfolding client_ip
key_id scope = elim scope.auth [ none ↦ codes "ip:" ++ client_ip scope.client | some k ↦ k.key ]

-- `auth.rate_limit_per_minute or self.default_limit`
unfoldable pub limit_of : ℕ → Option ApiKey → ℕ
limit_of default none = default
limit_of default (some k) =
    if eqb k.rate_limit_per_minute 0 then default else k.rate_limit_per_minute

-- The test and the `append` on the deque of one key: whether the request goes on.
unfoldable pub admit : ℕ → ℕ → List ℕ → Bool × List ℕ
unfolding prune
admit limit now reqs =
    let recent = prune now reqs in
    if leb limit (length recent) then (false, recent) else (true, recent ++ now ∷ [])

-- `self._requests[key_id]` of a `defaultdict(deque)`
unfoldable pub deque_of : List ℕ → Requests → List ℕ
deque_of key requests = elim (lookup key requests) [ none ↦ [] | some reqs ↦ reqs ]

pub data Answer : Type 0 where
  passed : Answer
  too_many : ℕ → Answer

-- `RateLimitMiddleware.__call__`: `too_many` is the 429 response, with the limit that it names.
unfoldable pub call : ℕ → ℕ → Scope → Requests → Answer × Requests
unfolding key_id limit_of admit deque_of
call default now scope requests =
    if scope.type == "http"
    then (let key = key_id scope in
        let limit = limit_of default scope.auth in
        let (goes_on, reqs) = admit limit now (deque_of key requests) in
        (if goes_on then passed else too_many limit, insert key reqs requests))
    else (passed, requests)
