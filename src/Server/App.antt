-- ===== src/Server/App.antt =====
-- src/chen/server/app.py: the two middlewares around the routes. Starlette puts the middleware that is
-- added last outside, so that the authentication comes before the rate limit.
pub mod Bounded
mod Examples
use chen.Common.{ℕ, Bool, true, false, List, [], ◌∷◌, if◌then◌else◌}
use chen.Server.Auth.{ApiKeyStore, Scope, Denial, Response, forward, deny}
use chen.Server.Auth
use chen.Server.RateLimit.{Requests, Answer, passed, too_many}
use chen.Server.RateLimit

-- `routed` holds the scope that the routes see.
pub data Outcome : Type 0 where
  refused : Denial → Outcome
  limited : ℕ → Outcome
  routed : Scope → Outcome

unfoldable pub outcome : Scope → Answer → Outcome
outcome scope passed = routed scope
outcome scope (too_many limit) = limited limit

-- A request at the time `now`.
unfoldable pub handle : ApiKeyStore → ℕ → ℕ → Scope → Requests → Outcome × Requests
unfolding outcome
handle store default now scope requests = elim (Auth.call store scope) [
  | deny d ↦ (refused d, requests)
  | forward scope' ↦
      let (answer, requests') = RateLimit.call default now scope' requests in
      (outcome scope' answer, requests')
]

-- The outcomes of requests, with their times.
unfoldable pub handle_all :
    ApiKeyStore → ℕ → List (ℕ × Scope) → Requests → List (ℕ × Outcome) × Requests
unfolding handle
handle_all store default [] requests = ([], requests)
handle_all store default ((now, scope) ∷ rest) requests =
    let (o, requests') = handle store default now scope requests in
    let (os, requests'') = handle_all store default rest requests' in ((now, o) ∷ os, requests'')
