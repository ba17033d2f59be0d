-- ===== src/Security/Stream/RoundTrip.antt =====
-- Encrypting a stream and decrypting its blocks in any order (src/chen/security/stream.py).
use native.Mathlib.Nat.{zero-div}
use chen.Common.{
  ℕ, ◌<◌, true, ◌≡◌, ◌≢◌, refl, sym, ap, ◌∙◌, Option, none, some, List, [], ◌∷◌, arith, eqb, length,
  map, Bool-cases, inl, inr, codes_key,
}
use chen.Common.Result.{Result, ok}
use chen.Common.Dict.{lookup}
use chen.Common.Sort.Shuffle.{Shuffle, RisesFrom, RisesFrom-AllDiffer, sort-Shuffle, sort-rises}
use chen.Security.{Primitives, SecurityError}
use chen.Security.Crypto.{Encryptor, Decryptor, encrypt, decrypt_blocks}
use chen.Security.Crypto.RoundTrip.{IsCoherentEncryptor, IsCoherent, encrypt_lem, decrypt_lem}
use chen.Security.Stream.{
  StreamBlock, block_size_of, then_block, encrypt_to_stream, decrypt_stream, sorted_blocks,
}
use chen.Security.Stream.Loop.{IsMarked, length-zero, decrypt_blocks_cons, encrypt_loop-Encrypts}

-- What `encrypt_to_stream` gives: at least one block, numbered upwards, the last one marked, read
-- in this order as the data.
abbrev Streams :
    Primitives → List ℕ → List ℕ → Encryptor → Result SecurityError (List StreamBlock) → Type 0
Streams p session_id data_bytes e r =
    (blocks : List StreamBlock) × (r ≡ ok blocks)
    × RisesFrom (λ s. s.index) 0 blocks
    × IsMarked blocks
    × (blocks ≢ [])
    × ((d : Decryptor)
        → IsCoherent p d
        → lookup e.config.key_id d.keys ≡ some e.config
        → (decrypt_blocks p (map (λ s. s.block) blocks) session_id d).0 ≡ ok data_bytes)

block_size_pos :
    (size : Option ℕ) (e : Encryptor) → 0 < e.config.block_size → 0 < block_size_of size e
unfolding block_size_of
block_size_pos none e h = h
block_size_pos (some n) e h = ground arith

module _ (p : Primitives) (nonces : ℕ → List ℕ) (session_id data_bytes : List ℕ) (size : Option ℕ)
    (e : Encryptor) (coherent : IsCoherentEncryptor p e) (sized : 0 < e.config.block_size)
    (nonce_size : (n : ℕ) → length (nonces n) ≡ 12) where
  empty-Streams :
      data_bytes ≡ []
      → Streams p session_id data_bytes e
          (then_block p nonces session_id data_bytes
            (block_size_of size e)
            0
            true
            (encrypt p (nonces 0) [] session_id e)
            (ok [], (encrypt p (nonces 0) [] session_id e).1)).0
  unfolding then_block decrypt_blocks
  empty-Streams empty =
      let (b, made, id, bn, sealed, sixteen, same, he') =
        encrypt_lem p (nonces 0) [] session_id e coherent (nonce_size 0) in
      (
        record { index = 0; block = b; is_last = true } ∷ [],
        ground (arith, made),
        (omega arith, tt),
        refl,
        λ h. cc h,
        λ d hd known.
            decrypt_blocks_cons p b [] session_id [] [] d
              (decrypt_lem p b (nonces 0) [] session_id d e.config hd (rw id known) bn sealed).0
              refl
            ∙ ap ok (sym empty),
      )

  encrypt_to_stream-Streams :
      Streams p session_id data_bytes e (encrypt_to_stream p nonces session_id data_bytes size e).0
  unfolding encrypt_to_stream
  encrypt_to_stream-Streams = elim (Bool-cases (eqb (length data_bytes) 0)) [
    | inl empty ↦ rw empty (empty-Streams (length-zero data_bytes (ground arith)))
    | inr filled ↦
        let bs = block_size_of size e in
        let (blocks, done, rises, marked, ends, stops, reads) =
          encrypt_loop-Encrypts p nonces session_id data_bytes bs (block_size_pos size e sized)
            nonce_size (length data_bytes) 0 e coherent (omega arith) in
        (
          blocks,
          rw filled done,
          rw zero-div at rises,
          marked,
          λ h. absurd (ground (arith, ends h)),
          reads,
        )
  ]

  -- With a positive block size, nonces of 12 bytes and a cache in step, encrypting any data gives
  -- at least one block, and the last block, and no other, is marked as the last.
  pub encrypt_to_stream-IsMarked :
      (blocks : List StreamBlock) × ((encrypt_to_stream p nonces session_id data_bytes size e).0
        ≡ ok blocks)
      × (blocks ≢ [])
      × IsMarked blocks
  encrypt_to_stream-IsMarked =
      let (blocks, done, rises, marked, some_block, reads) = encrypt_to_stream-Streams in
      (blocks, done, some_block, marked)

  -- Whoever holds the key reads the blocks of such a stream as the data, in whatever order they
  -- arrive.
  pub decrypt_stream-encrypt_to_stream :
      (d : Decryptor) (blocks received : List StreamBlock)
      → IsCoherent p d
      → lookup e.config.key_id d.keys ≡ some e.config
      → (encrypt_to_stream p nonces session_id data_bytes size e).0 ≡ ok blocks
      → Shuffle blocks received
      → (decrypt_stream p received session_id d).0 ≡ ok data_bytes
  unfolding decrypt_stream
  decrypt_stream-encrypt_to_stream d blocks received hd known done shuffled =
      let (blocks', done', rises, marked, some_block, reads) = encrypt_to_stream-Streams in
      let same : blocks ≡ blocks' = ground (arith, done, done') in
      let sorted : sorted_blocks received ≡ blocks' =
        sym (
          sort-Shuffle (λ s. s.index) shuffled
            (RisesFrom-AllDiffer (λ s. s.index) 0 blocks (rw same rises)))
        ∙ ap sorted_blocks same
        ∙ sort-rises (λ s. s.index) 0 blocks' rises in
      rw sorted (reads d hd known)
