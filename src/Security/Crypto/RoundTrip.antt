-- ===== src/Security/Crypto/RoundTrip.antt =====
-- Encryption against decryption (src/chen/security/crypto.py), with the caches of session keys.
use chen.Common.{
  ℕ, ◌-◌, Text, ◌≡◌, refl, none, some, List, ◌++◌, arith, length, take, drop, length-drop,
  take-append-drop, Option-cases, inl, inr, codes_key, pair_key,
}
use chen.Common.Result.{ok, raised}
use chen.Common.Dict.{lookup, lookup-insert, lookup-insert_inv}
use chen.Security.{Primitives, unknown_key}
use chen.Security.Config.{EncryptionConfig}
use chen.Security.Crypto.{
  EncryptedBlock, Encryptor, Decryptor, add_key, new_encryptor, new_decryptor, encryptor_key,
  encrypt, decryptor_key, decrypt,
}

module _ (p : Primitives) where
  -- Every cached session key is the one derived from the config.
  pub record IsCoherentEncryptor (e : Encryptor) : Type 0 where
    pub derived :
        (session_id key : List ℕ)
        → lookup session_id e.session_keys ≡ some key
        → key ≡ p.hkdf session_id e.config.master_key

  pub record IsCoherent (d : Decryptor) : Type 0 where
    pub derived :
        (key_id : Text) (session_id key : List ℕ)
        → lookup (key_id, session_id) d.session_keys ≡ some key
        → (c : EncryptionConfig) × (lookup key_id d.keys ≡ some c)
          × (key ≡ p.hkdf session_id c.master_key)

  encryptor_key_lem :
      (session_id : List ℕ) (e : Encryptor)
      → IsCoherentEncryptor e
      → let (key, e') = encryptor_key p session_id e in
        (key ≡ p.hkdf session_id e.config.master_key)
        × (e'.config ≡ e.config)
        × IsCoherentEncryptor e'
  unfolding encryptor_key
  encryptor_key_lem session_id e h = elim (Option-cases (lookup session_id e.session_keys)) [
    | inl new ↦ (
      ground arith,
      ground arith,
      record {
        derived = λ s k q.
            let derived_now = p.hkdf session_id e.config.master_key in
            ground (
              arith,
              h.derived s k,
              lookup-insert session_id s derived_now e.session_keys,
              codes_key.same_iff session_id s,
            );
      },
    )
    | inr (key, cached) ↦ (
      ground (arith, h.derived session_id key),
      ground arith,
      record { derived = λ s k q. ground (arith, h.derived s k) },
    )
  ]

  -- The key of a session, once its config is registered, with the cache still in step.
  decryptor_key_lem :
      (key_id : Text) (session_id : List ℕ) (d : Decryptor) {c : EncryptionConfig}
      → IsCoherent d
      → lookup key_id d.keys ≡ some c
      → let (key, d') = decryptor_key p key_id session_id d in
        (key ≡ ok (p.hkdf session_id c.master_key)) × (d'.keys ≡ d.keys) × IsCoherent d'
  unfolding decryptor_key
  decryptor_key_lem key_id session_id d {c} h known =
      elim (Option-cases (lookup (key_id, session_id) d.session_keys)) [
        | inl new ↦ (
          ground arith,
          ground arith,
          record {
            derived = λ i s k q.
                elim (lookup-insert_inv (key_id, session_id) (i, s) (p.hkdf session_id c.master_key)
                  k d.session_keys (ground arith)) [
                    | inl (same, now) ↦ (c, ground (arith, same), ground (arith, same, now))
                    | inr before ↦
                        let (c', found, same) = h.derived i s k before in (c', ground arith, same)
                  ];
          },
        )
        | inr (key, cached) ↦
            let (c', found, same) = h.derived key_id session_id key cached in
            (
              ground arith,
              ground arith,
              record {
                derived = λ i s k q.
                    let (c₁, f₁, s₁) = h.derived i s k (ground arith) in (c₁, ground arith, s₁);
              },
            )
      ]

  pub encrypt_lem :
      (nonce text session_id : List ℕ) (e : Encryptor)
      → IsCoherentEncryptor e
      → length nonce ≡ 12
      → let (r, e') = encrypt p nonce text session_id e in
        (b : EncryptedBlock) × (r ≡ ok b)
        × (b.key_id ≡ e.config.key_id)
        × (b.nonce ≡ nonce)
        × (b.ciphertext ++ b.tag ≡ p.seal (p.hkdf session_id e.config.master_key) nonce text)
        × (length b.tag ≡ 16)
        × (e'.config ≡ e.config)
        × IsCoherentEncryptor e'
  unfolding encrypt
  encrypt_lem nonce text session_id e h n =
      let (key, same, coherent) = encryptor_key_lem session_id e h in
      let sealed = p.seal (encryptor_key p session_id e).0 nonce text in
      let cut = length sealed - 16 in
      let sixteen : length (drop cut sealed) ≡ 16 = omega (
        arith,
        length-drop cut sealed,
        p.length-seal (encryptor_key p session_id e).0 nonce text,
      ) in
      (
        record {
          key_id = e.config.key_id;
          nonce = nonce;
          ciphertext = take cut sealed;
          tag = drop cut sealed;
        },
        ground (arith, sixteen),
        refl,
        refl,
        rw (take-append-drop cut sealed) (rw key),
        sixteen,
        same,
        coherent,
      )

  pub decrypt_lem :
      (b : EncryptedBlock) (nonce text session_id : List ℕ) (d : Decryptor) (c : EncryptionConfig)
      → IsCoherent d
      → lookup b.key_id d.keys ≡ some c
      → b.nonce ≡ nonce
      → b.ciphertext ++ b.tag ≡ p.seal (p.hkdf session_id c.master_key) nonce text
      → let (r, d') = decrypt p b session_id d in (r ≡ ok text) × (d'.keys ≡ d.keys) × IsCoherent d'
  unfolding decrypt
  decrypt_lem b nonce text session_id d c h known n sealed =
      let (key, same, coherent) = decryptor_key_lem b.key_id session_id d h known in
      (
        ground (arith, key, n, sealed, p.unseal-seal (p.hkdf session_id c.master_key) nonce text),
        same,
        coherent,
      )

  -- What an encryptor writes, any decryptor that holds a config with the same id and master key
  -- reads: with a nonce of 12 bytes the encryption succeeds, decryption in the same session gives
  -- the plaintext, whichever session keys either side has cached, and both caches stay in step.
  pub decrypt-encrypt :
      (nonce text session_id : List ℕ) (e : Encryptor) (d : Decryptor) (c : EncryptionConfig)
      → IsCoherentEncryptor e
      → IsCoherent d
      → length nonce ≡ 12
      → lookup e.config.key_id d.keys ≡ some c
      → c.master_key ≡ e.config.master_key
      → let (r, e') = encrypt p nonce text session_id e in
        (b : EncryptedBlock) × (r ≡ ok b)
        × ((decrypt p b session_id d).0 ≡ ok text)
        × IsCoherentEncryptor e'
        × IsCoherent (decrypt p b session_id d).1
  decrypt-encrypt nonce text session_id e d c he hd n known master =
      let (b, done, id, bn, sealed, sixteen, same, he') =
        encrypt_lem nonce text session_id e he n in
      let (read, keys, hd') =
        decrypt_lem b nonce text session_id d c hd (rw id known) bn (rw master sealed) in
      (b, done, read, he', hd')

  -- A block with a key id that the decryptor does not hold is refused, and nothing is cached.
  pub decrypt_unknown :
      (b : EncryptedBlock) (session_id : List ℕ) (d : Decryptor)
      → IsCoherent d
      → lookup b.key_id d.keys ≡ none
      → decrypt p b session_id d ≡ (raised unknown_key, d)
  unfolding decrypt decryptor_key
  decrypt_unknown b session_id d h absent =
      elim (Option-cases (lookup (b.key_id, session_id) d.session_keys)) [
        | inl new ↦ ground arith
        | inr (key, cached) ↦
            let (c, found, same) = h.derived b.key_id session_id key cached in absurd (ground arith)
      ]

  -- Registering a config under a new id keeps the cache in step.
  pub add_key-IsCoherent :
      (c : EncryptionConfig) (d : Decryptor)
      → IsCoherent d
      → lookup c.key_id d.keys ≡ none
      → IsCoherent (add_key c d)
  unfolding add_key
  add_key-IsCoherent c d h new = record {
    derived = λ i s k q.
        let (c', found, same) = h.derived i s k q in
        (
          c',
          ground (arith, lookup-insert c.key_id i c d.keys, codes_key.same_iff c.key_id i),
          same,
        );
  }

  -- Replacing the config of a key id leaves the session keys derived from the old one in use: a
  -- session that has been decrypted once still gets its cached key.
  pub add_key_stale :
      (c : EncryptionConfig) (session_id key : List ℕ) (d : Decryptor)
      → lookup (c.key_id, session_id) d.session_keys ≡ some key
      → (decryptor_key p c.key_id session_id (add_key c d)).0 ≡ ok key
  unfolding decryptor_key add_key
  add_key_stale c session_id key d cached = ground arith

  pub new_encryptor-IsCoherentEncryptor :
      (c : EncryptionConfig) → IsCoherentEncryptor (new_encryptor c)
  unfolding lookup
  new_encryptor-IsCoherentEncryptor c = record { derived = λ s k q. absurd (cc) }

  pub new_decryptor-IsCoherent : (c : EncryptionConfig) → IsCoherent (new_decryptor c)
  unfolding lookup
  new_decryptor-IsCoherent c = record { derived = λ i s k q. absurd (cc) }
