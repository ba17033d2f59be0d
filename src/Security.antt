-- ===== src/Security.antt =====
-- src/chen/security: encryption settings, blocks, streams and the keystore. What the package
-- `cryptography`, `base64` and the operating system do is the parameter `Primitives`.
pub mod Config
pub mod Crypto
pub mod Stream
pub mod Keys
pub mod Plain
pub mod Backends
mod Examples
use chen.Common.{ℕ, Text, ◌+◌, ◌≡◌, Option, some, List, ◌++◌, length}

pub data SecurityError : Type 0 where
  bad_master_key bad_block_size bad_base64 bad_nonce bad_tag key_id_too_long too_short
        too_short_for_key_id bad_text unknown_key decryption_failed length_overflow key_not_found :
      SecurityError

-- `hkdf salt master` is the derived key, `seal key nonce plaintext` the ciphertext with its tag at
-- the end, and `unseal` is `none` where it raises. `encode` and `decode` are those of UTF-8,
-- `b64encode` and `b64decode` those of `base64`; each pair is a round trip.
-- AES-GCM decrypts what it has encrypted under the same key and nonce, and its tag is 16 bytes long.
pub record Primitives : Type 0 where
  pub hkdf : List ℕ → List ℕ → List ℕ
  pub seal : List ℕ → List ℕ → List ℕ → List ℕ
  pub unseal : List ℕ → List ℕ → List ℕ → Option (List ℕ)
  pub encode : Text → List ℕ
  pub decode : List ℕ → Option Text
  pub b64encode : List ℕ → Text
  pub b64decode : Text → Option (List ℕ)
  pub unseal-seal : (key nonce text : List ℕ) → unseal key nonce (seal key nonce text) ≡ some text
  pub length-seal : (key nonce text : List ℕ) → length (seal key nonce text) ≡ length text + 16
  pub decode-encode : (s : Text) → decode (encode s) ≡ some s
  pub b64decode-b64encode : (bytes : List ℕ) → b64decode (b64encode bytes) ≡ some bytes
