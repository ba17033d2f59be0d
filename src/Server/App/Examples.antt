-- ===== src/Server/App/Examples.antt =====
-- Requests through both middlewares at concrete inputs.
use chen.Common.{ℕ, ◌≤◌, codes, true, ◌≡◌, none, some, List, [], ◌∷◌, arith, text_key, codes_key}
use chen.Server.Auth.{ApiKey, ApiKeyStore, Scope, forward}
use chen.Server.Auth
use chen.Server.RateLimit.{limit_of}
use chen.Server.RateLimit.Window.{count_from}
use chen.Server.App.{handle_all}
use chen.Server.App.Bounded.{counts_for, routed_times, routed_bound}

abbrev to_health : Scope
to_health = record {
  type = "http";
  path = "/v1/health";
  method = "GET";
  headers = [];
  client = some (codes "1");
  auth = none;
}

abbrev requests : List (ℕ × Scope)
requests = (1, to_health) ∷ (2, to_health) ∷ (3, to_health) ∷ []

no_key :
    (s : Scope)
    → Auth.call [] to_health ≡ forward s
    → counts_for (codes "ip:1") s ≡ true
    → limit_of 2 s.auth ≡ 2
unfolding Auth.call Auth.is_public limit_of
no_key s h c = ground (arith, h)

routed_bound_example :
    count_from 0 (routed_times (codes "ip:1") (handle_all [] 2 requests []).0) ≤ 2
routed_bound_example =
    routed_bound [] 2 (codes "ip:1") 2 requests 0 (omega arith, (omega arith, (omega arith, tt)))
      (no_key, (no_key, (no_key, tt)))
