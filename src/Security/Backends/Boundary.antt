-- ===== src/Security/Backends/Boundary.antt =====
-- What crosses the boundary to the inner backend (src/chen/security/backends.py).
use chen.Common.{codes_key, ℕ, ◌≤◌, Text, false, ◌≡◌, ap, ◌∙◌, some, List, arith, length, inl, inr}
use chen.Common.Result.{ok, raised, Result-cases}
use chen.Common.Dict.{lookup}
use chen.Security.{Primitives}
use chen.Security.Config.{EncryptionConfig}
use chen.Security.Crypto.{
  EncryptedBlock, serialize, deserialize, encrypt, decrypt, encrypt_text, decrypt_text,
}
use chen.Security.Crypto.Wire.{wire_cases}
use chen.Security.Crypto.RoundTrip.{IsCoherentEncryptor, IsCoherent, encrypt_lem, decrypt_lem}
use chen.Core.Expert.{CoreError, KvCache}
use chen.Security.Backends.{EncryptedBackend, encrypt_boundary, decrypt_boundary, decode_encrypted}

serialized :
    (p : Primitives) (b : EncryptedBlock)
    → length b.nonce ≡ 12
    → length b.tag ≡ 16
    → length (p.encode b.key_id) ≤ 255
    → (bytes : List ℕ) × (serialize p b ≡ ok bytes) × (deserialize p bytes ≡ ok b)
serialized p b n t short =
    let round = (wire_cases p b n t).0 short in
    elim (Result-cases (serialize p b)) [
      | inl (bytes, done) ↦ (bytes, done, ground (arith, round, done))
      | inr (x, failed) ↦ absurd (ground (arith, round, failed))
    ]

decrypted :
    (p : Primitives) (text : Text) (b : EncryptedBlock) (bytes : List ℕ) (e : EncryptedBackend)
    → e.skip_encryption ≡ false
    → deserialize p bytes ≡ ok b
    → (decrypt p b e.session_id e.decryptor).0 ≡ ok (p.encode text)
    → (decrypt_boundary p (p.b64encode bytes) e).0 ≡ text
unfolding decrypt_boundary decrypt_text
decrypted p text b bytes e on read opened =
    ground (arith, on, p.b64decode-b64encode bytes, read, opened, p.decode-encode text)

sent_text :
    (p : Primitives) (nonce : List ℕ) (text : Text) (e : EncryptedBackend) (b : EncryptedBlock)
    (bytes : List ℕ)
    → e.skip_encryption ≡ false
    → (encrypt p nonce (p.encode text) e.session_id e.encryptor).0 ≡ ok b
    → serialize p b ≡ ok bytes
    → (encrypt_boundary p nonce text e).0 ≡ ok (p.b64encode bytes)
unfolding encrypt_boundary encrypt_text
sent_text p nonce text e b bytes on sealed done = ground (arith, on, sealed, done)

decode_plain :
    (p : Primitives) (cache : KvCache) (n : ℕ) (text : Text) (e : EncryptedBackend) (x : CoreError)
    → (decrypt_boundary p cache.source_text e).0 ≡ text
    → e.inner.decode (record cache { source_text = text }) n ≡ raised x
    → (decode_encrypted p cache n e).0 ≡ raised x
unfolding decode_encrypted
decode_plain p cache n text e x opened failed =
    let same : e.inner.decode
          (record cache { source_text = (decrypt_boundary p cache.source_text e).0 }) n
        ≡ raised x =
      ap (λ t. e.inner.decode (record cache { source_text = t }) n) opened ∙ failed in
    ground (arith, same)

-- With encryption on, a nonce of 12 bytes, a key id of at most 255 and a decryptor that holds the
-- encryptor's key, a text is sent across as a text that decrypts to it. But `decode` of a
-- cache with that encrypted text calls the inner backend with the plain text: if the inner backend
-- raises on that, `decode` raises just so.
pub boundary_lem :
    (p : Primitives) (nonce : List ℕ) (text : Text) (e : EncryptedBackend) (c : EncryptionConfig)
    (cache : KvCache) (n : ℕ) (x : CoreError)
    → e.skip_encryption ≡ false
    → IsCoherentEncryptor p e.encryptor
    → IsCoherent p e.decryptor
    → length nonce ≡ 12
    → length (p.encode e.encryptor.config.key_id) ≤ 255
    → lookup e.encryptor.config.key_id e.decryptor.keys ≡ some c
    → c.master_key ≡ e.encryptor.config.master_key
    → e.inner.decode (record cache { source_text = text }) n ≡ raised x
    → (sent : Text) × ((encrypt_boundary p nonce text e).0 ≡ ok sent)
      × ((decrypt_boundary p sent e).0 ≡ text)
      × ((decode_encrypted p (record cache { source_text = sent }) n e).0 ≡ raised x)
boundary_lem p nonce text e c cache n x on he hd size short known master failed =
    let (b, done, id, bn, sealed, sixteen, same, he') =
      encrypt_lem p nonce (p.encode text) e.session_id e.encryptor he size in
    let (read, keys, hd') =
      decrypt_lem p b nonce (p.encode text) e.session_id e.decryptor c hd (rw id known) bn
        (rw master sealed) in
    let (bytes, wrote, back) = serialized p b (rw bn size) sixteen (rw id short) in
    let opened = decrypted p text b bytes e on back read in
    (
      p.b64encode bytes,
      sent_text p nonce text e b bytes on done wrote,
      opened,
      decode_plain p (record cache { source_text = p.b64encode bytes }) n text e x opened failed,
    )
