-- ===== src/Security/Backends.antt =====
-- src/chen/security/backends.py: a backend behind the encryption layer. The inner backend is the
-- protocol of Core.Expert; an exception of the encryption counts as one of the backend.
pub mod Boundary
mod Examples
use chen.Common.{ℕ, ◌/◌, max, Text, Bool, false, Option, none, some, List, length, if◌then◌else◌}
use chen.Common.Result.{Result, ok, raised, ◌>>=◌}
use chen.Security.{Primitives, SecurityError}
use chen.Security.Config.{EncryptionConfig}
use chen.Security.Crypto.{
  EncryptedBlock, Encryptor, Decryptor, serialize, deserialize, encrypt_text, decrypt_text,
  new_encryptor, new_decryptor,
}
use chen.Core.Expert.{CoreError, backend_failed, KvCache, Backend}

pub record EncryptedBackend : Type 0 where
  pub inner : Backend
  pub encryptor : Encryptor
  pub decryptor : Decryptor
  pub session_id : List ℕ
  pub skip_encryption : Bool

encoded : Primitives → Result SecurityError EncryptedBlock → Result CoreError Text
encoded p (raised x) = raised backend_failed
encoded p (ok b) = elim (serialize p b) [
  | raised x ↦ raised backend_failed
  | ok bytes ↦ ok (p.b64encode bytes)
]

-- `_encrypt_text`
unfoldable pub encrypt_boundary :
    Primitives → List ℕ → Text → EncryptedBackend → Result CoreError Text × EncryptedBackend
unfolding encoded
encrypt_boundary p nonce text b =
    if b.skip_encryption
    then (ok text, b)
    else (let (block, e) = encrypt_text p nonce text b.session_id b.encryptor in
        (encoded p block, record b { encryptor = e }))

or_original : Text → Result SecurityError Text → Text
or_original text (raised x) = text
or_original text (ok s) = s

decrypt_bytes : Primitives → Text → Option (List ℕ) → EncryptedBackend → Text × EncryptedBackend
unfolding or_original
decrypt_bytes p text none b = (text, b)
decrypt_bytes p text (some raw) b = elim (deserialize p raw) [
  | raised x ↦ (text, b)
  | ok block ↦
      let (s, d) = decrypt_text p block b.session_id b.decryptor in
      (or_original text s, record b { decryptor = d })
]

-- `_decrypt_text`: what cannot be decrypted is returned as it is.
unfoldable pub decrypt_boundary : Primitives → Text → EncryptedBackend → Text × EncryptedBackend
unfolding decrypt_bytes
decrypt_boundary p text b =
    if b.skip_encryption then (text, b) else decrypt_bytes p text (p.b64decode text) b

-- `generate`
unfoldable pub generate_encrypted :
    Primitives → List ℕ → Text → ℕ → EncryptedBackend → Result CoreError Text × EncryptedBackend
unfolding encrypt_boundary decrypt_boundary
generate_encrypted p nonce prompt max_tokens b =
    let (sent, b₁) = encrypt_boundary p nonce prompt b in
    elim (do t ← sent; b.inner.generate t max_tokens) [
      | raised x ↦ (raised x, b₁)
      | ok raw ↦ (let (text, b₂) = decrypt_boundary p raw b₁ in (ok text, b₂))
    ]

-- `encode`
unfoldable pub encode_encrypted :
    Primitives → List ℕ → Text → EncryptedBackend → Result CoreError KvCache × EncryptedBackend
unfolding encrypt_boundary
encode_encrypted p nonce prompt b =
    let (sent, b₁) = encrypt_boundary p nonce prompt b in ((do t ← sent; b.inner.encode t), b₁)

-- `decode`
unfoldable pub decode_encrypted :
    Primitives → KvCache → ℕ → EncryptedBackend → Result CoreError Text × EncryptedBackend
unfolding decrypt_boundary
decode_encrypted p cache max_tokens b =
    let (plaintext, b₁) = decrypt_boundary p cache.source_text b in
    elim (b.inner.decode (record cache { source_text = plaintext }) max_tokens) [
      | raised x ↦ (raised x, b₁)
      | ok raw ↦ (let (text, b₂) = decrypt_boundary p raw b₁ in (ok text, b₂))
    ]

-- `count_tokens`
unfoldable pub count_plain : EncryptedBackend → Text → Result CoreError ℕ
count_plain b text = elim b.inner.count_tokens [
  | none ↦ ok (max 1 (length text / 4))
  | some count ↦ count text
]

-- `wrap_with_encryption` of a backend that is not trusted
unfoldable pub wrap_with_encryption :
    Primitives → Backend → EncryptionConfig → List ℕ → EncryptedBackend
wrap_with_encryption p backend config session_id = record {
  inner = backend;
  encryptor = new_encryptor config;
  decryptor = new_decryptor config;
  session_id = session_id;
  skip_encryption = false;
}
