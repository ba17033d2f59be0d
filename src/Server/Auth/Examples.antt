-- ===== src/Server/Auth/Examples.antt =====
-- Authentication at concrete inputs.
use chen.Common.{
  codes, ℕ, String, true, false, ◌≡◌, refl, none, some, List, [], ◌∷◌, ◌++◌, text_key, codes_key,
}
use chen.Common.Dict.{lookup, insert}
use chen.Server.Auth.{
  ApiKey, ApiKeyStore, get, has_keys, Scope, is_public, is_space, auth_header, bearer_token,
  check_permission, forbidden, forward, deny, call,
}
use chen.Server.Auth.Decision.{forwarded_authenticated}

abbrev reader : ApiKey
reader = record {
  key = codes "chen_ro";
  role = "read-only";
  tenant_id = none;
  name = "reader";
  created_at = 0;
  rate_limit_per_minute = 60;
}

abbrev store : ApiKeyStore
store = (codes "chen_ro", reader) ∷ []

abbrev scope_of : String → Scope
scope_of method = record {
  type = "http";
  path = "/v1/admin/keys";
  method = method;
  headers = (codes "authorization", codes "Bearer  chen_ro ") ∷ [];
  client = none;
  auth = none;
}

reads_admin : call store (scope_of "GET") ≡ forward (record (scope_of "GET") { auth = some reader })
unfolding call auth_header bearer_token check_permission lookup insert
reads_admin = refl

may_not_post : call store (scope_of "POST") ≡ deny (forbidden "read-only" "POST" "/v1/admin/keys")
unfolding call auth_header bearer_token check_permission lookup insert
may_not_post = refl

private : is_public "/v1/admin/keys" ≡ false
unfolding is_public
private = refl

has_reader : has_keys store ≡ true
unfolding has_keys
has_reader = refl

found : get (codes "chen_ro") store ≡ some reader
unfolding get lookup
found = refl

may_get : check_permission reader "/v1/admin/keys" "GET" ≡ true
unfolding check_permission
may_get = refl

header :
    auth_header (scope_of "GET") ≡ codes "Bearer " ++ (codes " " ++ (codes "chen_ro" ++ codes " "))
unfolding auth_header lookup insert
header = refl

forwarded_authenticated_example :
    (token : List ℕ) × (k : ApiKey) × (bearer_token (auth_header (scope_of "GET")) ≡ some token)
    × (get token store ≡ some k)
    × (check_permission k "/v1/admin/keys" "GET" ≡ true)
    × (record (scope_of "GET") { auth = some reader } ≡ record (scope_of "GET") { auth = some k })
forwarded_authenticated_example =
    forwarded_authenticated store (scope_of "GET") (record (scope_of "GET") { auth = some reader })
      refl private has_reader reads_admin

word : (is_space 99 ≡ false) × (is_space 104 ≡ false)
unfolding is_space
word = (refl, refl)
