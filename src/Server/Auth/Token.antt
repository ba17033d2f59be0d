-- ===== src/Server/Auth/Token.antt =====
-- The bearer token that src/chen/server/auth.py reads from a well-formed header.
use mathlib.Core.List.{reverse, reverse-append, reverse-reverse}
use chen.Common.{
  codes, ℕ, ◌==◌, text_key, true, false, ◌≡◌, refl, some, List, [], ◌∷◌, ◌++◌, arith, All,
  All-append, codes_key,
}
use chen.Server.Auth.{
  is_space, strip_left, strip, bearer_token, ApiKey, ApiKeyStore, Scope, is_public, has_keys,
  auth_header, get, check_permission, call, forward,
}

abbrev IsBlank : List ℕ → Type 0
IsBlank = All (λ c. is_space c ≡ true)

abbrev IsWord : List ℕ → Type 0
IsWord = All (λ c. is_space c ≡ false)

strip_left-blank : (ws cs : List ℕ) → IsBlank ws → strip_left (ws ++ cs) ≡ strip_left cs
unfolding strip_left
strip_left-blank [] cs h = refl
strip_left-blank (w ∷ ws) cs h = ground (arith, strip_left-blank ws cs h.1)

strip_left-word : (cs : List ℕ) → IsWord cs → strip_left cs ≡ cs
unfolding strip_left
strip_left-word [] h = refl
strip_left-word (c ∷ cs) h = ground (arith, h.0)

strip_left-append :
    (c : ℕ) (cs ds : List ℕ) → is_space c ≡ false → strip_left (c ∷ cs ++ ds) ≡ c ∷ cs ++ ds
unfolding strip_left
strip_left-append c cs ds h = rw h

All-reverse : (P : ℕ → Type 0) (cs : List ℕ) → All P cs → All P (reverse cs)
All-reverse P [] h = tt
All-reverse P (c ∷ cs) h =
    rw (reverse-append (c ∷ []) cs)
      (All-append P (reverse cs) (c ∷ []) (All-reverse P cs h.1) (h.0, tt))

strip_padded :
    (before after : List ℕ) (c : ℕ) (cs : List ℕ)
    → IsBlank before
    → IsBlank after
    → IsWord (c ∷ cs)
    → strip (before ++ (c ∷ cs ++ after)) ≡ c ∷ cs
unfolding strip
strip_padded before after c cs b a w = rw (strip_left-blank before (c ∷ cs ++ after) b) (
    rw (strip_left-append c cs after w.0) (
      rw (reverse-append (c ∷ cs) after) (
        rw (strip_left-blank (reverse after) (reverse (c ∷ cs)) (All-reverse _ after a)) (
          rw (strip_left-word (reverse (c ∷ cs)) (All-reverse _ (c ∷ cs) w))
            (reverse-reverse (c ∷ cs))))))

-- A request whose header is "Bearer ", a stored key without white space in it, and any white
-- space on either side of the key, is forwarded with that key when its role allows the request.
pub stored_key_admitted :
    (store : ApiKeyStore) (scope : Scope) (before after : List ℕ) (c : ℕ) (cs : List ℕ) (k : ApiKey)
    → (scope.type == "http") ≡ true
    → is_public scope.path ≡ false
    → has_keys store ≡ true
    → auth_header scope ≡ codes "Bearer " ++ (before ++ (c ∷ cs ++ after))
    → IsBlank before
    → IsBlank after
    → IsWord (c ∷ cs)
    → get (c ∷ cs) store ≡ some k
    → check_permission k scope.path scope.method ≡ true
    → call store scope ≡ forward (record scope { auth = some k })
unfolding call bearer_token
stored_key_admitted store scope before after c cs k http private keys header b a w found allowed =
    rw (http, private, keys, header, strip_padded before after c cs b a w, found, allowed)
