-- ===== src/Server/RateLimit/Examples.antt =====
-- The rate limit at concrete inputs.
use chen.Common.{
  codes, ℕ, ◌≤◌, ◌≡◌, ◌≢◌, refl, none, some, List, [], ◌∷◌, arith, length, codes_key, text_key,
  ne_of_test,
}
use chen.Common.Dict.{lookup}
use chen.Server.Auth.{ApiKey, Scope}
use chen.Server.RateLimit.{Requests, key_id, admit, prune, deque_of}
use chen.Server.RateLimit.Window.{count_from, admitted, window_bound}

abbrev unlimited_key : ApiKey
unlimited_key = record {
  key = codes "chen_1";
  role = "user";
  tenant_id = none;
  name = "";
  created_at = 0;
  rate_limit_per_minute = 0;
}

abbrev request : Scope
request = record {
  type = "http";
  path = "/v1/run";
  method = "POST";
  headers = [];
  client = none;
  auth = some unlimited_key;
}

abbrev busy : Requests
busy = (codes "chen_1", 5 ∷ 6 ∷ []) ∷ (codes "chen_2", 7 ∷ []) ∷ []

abbrev times : List ℕ
times = 1 ∷ 2 ∷ 3 ∷ 60000002 ∷ 60000003 ∷ []

two_a_minute : admitted 2 times [] ≡ 1 ∷ 2 ∷ 60000002 ∷ 60000003 ∷ []
unfolding admitted admit
two_a_minute = refl

window_bound_example : count_from 2 (admitted 2 times []) ≤ 2
window_bound_example = window_bound 2 times 2 (omega arith)

busy_full : 2 ≤ length (prune 9 (deque_of (codes "chen_1") busy))
unfolding prune deque_of lookup
busy_full = omega arith

other_key : key_id request ≢ codes "chen_2"
unfolding key_id
other_key = ne_of_test (codes "chen_1") (codes "chen_2") refl
