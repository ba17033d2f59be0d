-- ===== src/Security/Crypto.antt =====
-- src/chen/security/crypto.py: encrypted blocks, the encryptor and the decryptor. The 12 bytes that
-- `os.urandom` gives an encryption are an argument. Bytes are numbers below 256.
pub mod Wire
pub mod RoundTrip
use chen.Common.{
  ℕ, zero, suc, ◌+◌, ◌-◌, Text, Bool, true, false, Option, none, some, List, [], ◌∷◌, ◌++◌, ltb,
  eqb, length, take, drop, if◌then◌else◌, ◌==◌, codes_key, pair_key,
}
use chen.Common.Result.{Result, ok, raised, ◌>>=◌}
use chen.Common.Dict.{Dict, lookup, insert}
use chen.Security.{
  Primitives, SecurityError, bad_nonce, bad_tag, key_id_too_long, too_short, too_short_for_key_id,
  bad_text, unknown_key, decryption_failed,
}
use chen.Security.Config.{EncryptionConfig, nonce_size_bytes, tag_size_bytes, derive_session_key}

pub record EncryptedBlock : Type 0 where
  pub key_id : Text
  pub nonce : List ℕ
  pub ciphertext : List ℕ
  pub tag : List ℕ

-- `EncryptedBlock(…)` with its `__post_init__`
unfoldable pub new_block : EncryptedBlock → Result SecurityError EncryptedBlock
new_block b =
    if eqb (length b.nonce) nonce_size_bytes
    then if eqb (length b.tag) tag_size_bytes then ok b else raised bad_tag
    else raised bad_nonce

pub record Encryptor : Type 0 where
  pub config : EncryptionConfig
  pub session_keys : Dict (List ℕ) (List ℕ)

pub record Decryptor : Type 0 where
  pub keys : Dict Text EncryptionConfig
  pub session_keys : Dict (Text × List ℕ) (List ℕ)

-- `Encryptor(config)` and `Decryptor(config)`
abbrev pub new_encryptor : EncryptionConfig → Encryptor
new_encryptor c = record { config = c; session_keys = [] }

abbrev pub new_decryptor : EncryptionConfig → Decryptor
new_decryptor c = record { keys = (c.key_id, c) ∷ []; session_keys = [] }

-- `add_key`
unfoldable pub add_key : EncryptionConfig → Decryptor → Decryptor
add_key c d = record d { keys = insert c.key_id c d.keys }

module _ (p : Primitives) where
  -- `serialize`
  unfoldable pub serialize : EncryptedBlock → Result SecurityError (List ℕ)
  serialize b =
      let key_id_bytes = p.encode b.key_id in
      if ltb 255 (length key_id_bytes)
      then raised key_id_too_long
      else ok (length key_id_bytes ∷ (key_id_bytes ++ (b.nonce ++ (b.ciphertext ++ b.tag))))

  -- From the bytes after the length byte on. `rest[n:tag_start]` is what stands between the nonce
  -- and the last 16 bytes.
  unfoldable pub block_of : Option Text → ℕ → List ℕ → Result SecurityError EncryptedBlock
  unfolding new_block
  block_of none key_id_len rest = raised bad_text
  block_of (some key_id) key_id_len rest =
      let after_key = drop key_id_len rest in
      let body = drop nonce_size_bytes after_key in
      let tag_start = length body - tag_size_bytes in
      new_block (record {
        key_id = key_id;
        nonce = take nonce_size_bytes after_key;
        ciphertext = take tag_start body;
        tag = drop tag_start body;
      })

  -- `deserialize`
  unfoldable pub deserialize : List ℕ → Result SecurityError EncryptedBlock
  deserialize [] = raised too_short
  deserialize (key_id_len ∷ rest) =
      if ltb (length rest) (nonce_size_bytes + tag_size_bytes)
      then raised too_short
      else if ltb (length rest) (key_id_len + nonce_size_bytes + tag_size_bytes)
      then raised too_short_for_key_id
      else block_of (p.decode (take key_id_len rest)) key_id_len rest

  -- `Encryptor._get_session_key`
  unfoldable pub encryptor_key : List ℕ → Encryptor → List ℕ × Encryptor
  unfolding derive_session_key
  encryptor_key session_id e = elim (lookup session_id e.session_keys) [
    | some key ↦ (key, e)
    | none ↦
        let key = derive_session_key p e.config session_id in
        (key, record e { session_keys = insert session_id key e.session_keys })
  ]

  -- `Encryptor.encrypt`
  unfoldable pub encrypt :
      List ℕ → List ℕ → List ℕ → Encryptor → Result SecurityError EncryptedBlock × Encryptor
  unfolding encryptor_key new_block
  encrypt nonce plaintext session_id e =
      let (key, e') = encryptor_key session_id e in
      let sealed = p.seal key nonce plaintext in
      let cut = length sealed - tag_size_bytes in
      (
        new_block (record {
          key_id = e.config.key_id;
          nonce = nonce;
          ciphertext = take cut sealed;
          tag = drop cut sealed;
        }),
        e',
      )

  -- `encrypt_text`
  unfoldable pub encrypt_text :
      List ℕ → Text → List ℕ → Encryptor → Result SecurityError EncryptedBlock × Encryptor
  encrypt_text nonce text session_id e = encrypt nonce (p.encode text) session_id e

  key_from :
      Option EncryptionConfig
      → Text × List ℕ
      → Decryptor
      → Result SecurityError (List ℕ) × Decryptor
  unfolding derive_session_key
  key_from none at d = (raised unknown_key, d)
  key_from (some c) at d =
      let key = derive_session_key p c at.1 in
      (ok key, record d { session_keys = insert at key d.session_keys })

  -- `Decryptor._get_session_key`
  unfoldable pub decryptor_key :
      Text → List ℕ → Decryptor → Result SecurityError (List ℕ) × Decryptor
  unfolding key_from
  decryptor_key key_id session_id d = elim (lookup (key_id, session_id) d.session_keys) [
    | some key ↦ (ok key, d)
    | none ↦ key_from (lookup key_id d.keys) (key_id, session_id) d
  ]

  opened : Option (List ℕ) → Result SecurityError (List ℕ)
  opened none = raised decryption_failed
  opened (some text) = ok text

  -- `Decryptor.decrypt`
  unfoldable pub decrypt :
      EncryptedBlock → List ℕ → Decryptor → Result SecurityError (List ℕ) × Decryptor
  unfolding decryptor_key opened
  decrypt b session_id d =
      let (found, d') = decryptor_key b.key_id session_id d in
      ((do key ← found; opened (p.unseal key b.nonce (b.ciphertext ++ b.tag))), d')

  -- `decrypt_text`
  unfoldable pub decrypt_text :
      EncryptedBlock → List ℕ → Decryptor → Result SecurityError Text × Decryptor
  decrypt_text b session_id d =
      let (bytes, d') = decrypt b session_id d in
      ((do text ← bytes; elim (p.decode text) [ none ↦ raised bad_text | some s ↦ ok s ]), d')

  -- `Decryptor.decrypt_stream`: the first block that fails ends it.
  unfoldable pub decrypt_blocks :
      List EncryptedBlock → List ℕ → Decryptor → Result SecurityError (List ℕ) × Decryptor
  decrypt_blocks [] session_id d = (ok [], d)
  decrypt_blocks (b ∷ bs) session_id d =
      let (text, d') = decrypt b session_id d in
      let (rest, d'') = decrypt_blocks bs session_id d' in
      elim text [ raised e ↦ (raised e, d') | ok t ↦ ((do r ← rest; ok (t ++ r)), d'') ]
