-- ===== src/Server/Auth/Decision.antt =====
-- Whom `AuthMiddleware` (src/chen/server/auth.py) lets through.
use text.Mathlib.Text.{starts_with}
use chen.Common.{
  ℕ, String, true, false, ◌≡◌, ◌≢◌, Option, none, some, List, ◌∷◌, arith, text_key, codes_key, ◌==◌,
  ==-ne,
}
use chen.Server.Auth.{
  ApiKey, ApiKeyStore, not_json, entries, load, get, has_keys, Scope, is_public, auth_header,
  bearer_token, check_permission, forward, call,
}

-- With keys configured, an HTTP request to a path that is not public is forwarded only with the
-- stored key that its bearer token names, whose role allows the request; that key, and nothing
-- else, is attached to the scope.
pub forwarded_authenticated :
    (store : ApiKeyStore) (scope scope' : Scope)
    → (scope.type == "http") ≡ true
    → is_public scope.path ≡ false
    → has_keys store ≡ true
    → call store scope ≡ forward scope'
    → (token : List ℕ) × (k : ApiKey) × (bearer_token (auth_header scope) ≡ some token)
      × (get token store ≡ some k)
      × (check_permission k scope.path scope.method ≡ true)
      × (scope' ≡ record scope { auth = some k })
unfolding call
forwarded_authenticated store scope scope' http private keys fwd = ground arith

-- A keys file that is not JSON, or whose first item is bad, loads as no keys at all, and every
-- HTTP request is then forwarded with no key attached, whatever its headers.
pub corrupt_file_opens :
    (es : List (Option ApiKey)) (scope : Scope)
    → (scope.type == "http") ≡ true
    → is_public scope.path ≡ false
    → (call (load not_json) scope ≡ forward (record scope { auth = none }))
      × (call (load (entries (none ∷ es))) scope ≡ forward (record scope { auth = none }))
unfolding call load
corrupt_file_opens es scope http private = ground arith

-- What `_check_permission` allows: an admin everything, a user all but the paths under
-- "/v1/admin", a read-only key every GET, those under "/v1/admin" too, and any other role
-- nothing.
pub permission_table :
    (k : ApiKey) (path method : String)
    → (k.role ≡ "admin" → check_permission k path method ≡ true)
      × (k.role ≡ "user"
          → starts_with path "/v1/admin" ≡ true
          → check_permission k path method ≡ false)
      × (k.role ≡ "user"
          → starts_with path "/v1/admin" ≡ false
          → check_permission k path method ≡ true)
      × (k.role ≡ "read-only" → check_permission k path method ≡ (method == "GET"))
      × (k.role ≢ "admin"
          → k.role ≢ "user"
          → k.role ≢ "read-only"
          → check_permission k path method ≡ false)
unfolding check_permission
permission_table k path method = (
  λ r. rw r,
  λ r p. rw (r, p),
  λ r p. rw (r, p),
  λ r. rw r,
  λ a u g.
      ground (arith, ==-ne k.role "admin" a, ==-ne k.role "user" u, ==-ne k.role "read-only" g),
)
