-- ===== src/Server/Auth.antt =====
-- src/chen/server/auth.py: `APIKey`, `APIKeyStore` and `AuthMiddleware`. A request is the part of
-- the ASGI scope that the middleware reads; to await `self.app` is `forward`. Headers and key
-- strings are lists of codes, since the code cuts them up.
pub mod Decision
pub mod Token
mod Examples
use Prim.Native.String.{◌∷◌ as snoc}
use text.Mathlib.Text.{starts_with}
use mathlib.Core.List.{reverse}
use chen.Common.{
  codes, ℕ, zero, suc, ◌+◌, ◌-◌, String, Bool, true, false, not, ◌&&◌, ◌||◌, Option, none, some,
  List, [], ◌∷◌, ◌++◌, ltb, leb, if◌then◌else◌, ◌==◌, text_key, codes_key, drop, keep, take, length,
  any,
}
use chen.Common.Dict.{Dict, lookup, insert}

pub record ApiKey : Type 0 where
  pub key : List ℕ
  pub role : String
  pub tenant_id : Option String
  pub name : String
  pub created_at : ℕ
  pub rate_limit_per_minute : ℕ

abbrev pub ApiKeyStore : Type 0
ApiKeyStore = Dict (List ℕ) ApiKey

-- What `json.load` finds in the keys file. An item is `none` where `APIKey(**entry)` raises a
-- `TypeError`.
pub data KeysFile : Type 0 where
  missing : KeysFile
  not_json : KeysFile
  entries : List (Option ApiKey) → KeysFile

-- The loop of `_load`: the first bad item ends it, and what was read stays.
load_entries : List (Option ApiKey) → ApiKeyStore → ApiKeyStore
load_entries [] store = store
load_entries (none ∷ es) store = store
load_entries (some k ∷ es) store = load_entries es (insert k.key k store)

-- `_load`: every error is logged and swallowed.
unfoldable pub load : KeysFile → ApiKeyStore
unfolding load_entries
load missing = []
load not_json = []
load (entries es) = load_entries es []

-- `get`
unfoldable pub get : List ℕ → ApiKeyStore → Option ApiKey
get key store = lookup key store

-- `has_keys`
unfoldable pub has_keys : ApiKeyStore → Bool
has_keys store = ltb 0 (length store)

pub record Scope : Type 0 where
  pub type : String
  pub path : String
  pub method : String
  pub headers : List (List ℕ × List ℕ)
  pub client : Option (List ℕ)
  pub auth : Option ApiKey

abbrev public_paths : List String
public_paths = "/v1/health" ∷ "/v1/metrics" ∷ "/docs" ∷ "/redoc" ∷ "/openapi.json" ∷ []

-- `path in PUBLIC_PATHS`
unfoldable pub is_public : String → Bool
is_public path = any (λ p. p == path) public_paths

-- `str.isspace` on ASCII
unfoldable pub is_space : ℕ → Bool
is_space c = (leb 9 c && leb c 13) || (leb 28 c && leb c 32)

unfoldable pub strip_left : List ℕ → List ℕ
unfolding is_space
strip_left [] = []
strip_left (c ∷ cs) = let rest = strip_left cs in if is_space c then rest else c ∷ cs

-- `str.strip`
unfoldable pub strip : List ℕ → List ℕ
unfolding strip_left
strip cs = reverse (strip_left (reverse (strip_left cs)))

-- `bytes.decode("ascii", errors="ignore")`
unfoldable pub decode_ascii : List ℕ → List ℕ
decode_ascii cs = keep (λ c. ltb c 128) cs

-- `dict(pairs)`
unfoldable pub to_dict : List (List ℕ × List ℕ) → Dict (List ℕ) (List ℕ) → Dict (List ℕ) (List ℕ)
to_dict [] d = d
to_dict ((k, v) ∷ hs) d = to_dict hs (insert k v d)

or_empty : Option (List ℕ) → List ℕ
or_empty none = []
or_empty (some v) = v

-- `auth_header`
unfoldable pub auth_header : Scope → List ℕ
unfolding to_dict or_empty decode_ascii
auth_header scope =
    decode_ascii (or_empty (lookup (codes "authorization") (to_dict scope.headers [])))

-- `auth_header.startswith("Bearer ")` and `auth_header[7:].strip()`
unfoldable pub bearer_token : List ℕ → Option (List ℕ)
unfolding strip
bearer_token header =
    if take 7 header == codes "Bearer " then some (strip (drop 7 header)) else none

-- `_check_permission`
unfoldable pub check_permission : ApiKey → String → String → Bool
check_permission key path method =
    if key.role == "admin"
    then true
    else if key.role == "user"
    then not (starts_with path "/v1/admin")
    else if key.role == "read-only"
    then method == "GET"
    else false

-- The error responses, with what their texts are built from.
pub data Denial : Type 0 where
  missing_header invalid_key : Denial
  forbidden : String → String → String → Denial

-- The status that is passed to `_send_error`.
unfoldable pub status : Denial → ℕ
status missing_header = 401
status invalid_key = 401
status (forbidden role method path) = 403

pub data Response : Type 0 where
  forward : Scope → Response
  deny : Denial → Response

authorize : Option ApiKey → Scope → Response
unfolding check_permission
authorize none scope = deny invalid_key
authorize (some k) scope =
    if check_permission k scope.path scope.method
    then forward (record scope { auth = some k })
    else deny (forbidden k.role scope.method scope.path)

authenticate : Option (List ℕ) → ApiKeyStore → Scope → Response
unfolding authorize get
authenticate none store scope = deny missing_header
authenticate (some token) store scope = authorize (get token store) scope

-- `AuthMiddleware.__call__`
unfoldable pub call : ApiKeyStore → Scope → Response
unfolding authenticate is_public has_keys
call store scope =
    if scope.type == "http"
    then if is_public scope.path
      then forward scope
      else if has_keys store
      then authenticate (bearer_token (auth_header scope)) store scope
      else forward (record scope { auth = none })
    else forward scope
