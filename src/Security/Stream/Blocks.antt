-- ===== src/Security/Stream/Blocks.antt =====
-- `Encryptor.encrypt_stream` of src/chen/security/crypto.py, beside `encrypt_to_stream` of
-- src/chen/security/stream.py. The nonce of the `n`-th block is `nonces n` in both.
use chen.Common.{
  ℕ, zero, suc, ◌+◌, ◌/◌, ◌≡◌, refl, sym, ap, ◌∙◌, Bool, true, false, Option, List, [], ◌∷◌, ltb,
  leb, eqb, length, take, drop, map, if◌then◌else◌, arith,
}
use chen.Common.Result.{Result, ok, raised, ◌>>=◌}
use chen.Security.{Primitives, SecurityError}
use chen.Security.Crypto.{EncryptedBlock, Encryptor, encrypt}
use chen.Security.Stream.{StreamBlock, block_size_of, then_block, encrypt_loop, encrypt_to_stream}

-- One block more
unfoldable pub then_encrypted :
    Result SecurityError EncryptedBlock × Encryptor
    → Result SecurityError (List EncryptedBlock) × Encryptor
    → Result SecurityError (List EncryptedBlock) × Encryptor
then_encrypted (raised x, e) rest = (raised x, e)
then_encrypted (ok b, e) (rest, e') = ((do blocks ← rest; ok (b ∷ blocks)), e')

module _ (p : Primitives) (nonces : ℕ → List ℕ) (session_id data_bytes : List ℕ) (bs : ℕ) where
  -- `for i in range(0, len(data), bs)` in `Encryptor.encrypt_stream`
  unfoldable pub blocks_loop :
      ℕ → ℕ → Encryptor → Result SecurityError (List EncryptedBlock) × Encryptor
  unfolding then_encrypted
  blocks_loop zero i e = (ok [], e)
  blocks_loop (suc fuel) i e =
      let first = encrypt p (nonces (i / bs)) (take bs (drop i data_bytes)) session_id e in
      let rest = blocks_loop fuel (i + bs) first.1 in
      if ltb i (length data_bytes) then then_encrypted first rest else (ok [], e)

-- `Encryptor.encrypt_stream`
unfoldable pub encrypt_blocks :
    Primitives
    → (ℕ → List ℕ)
    → List ℕ
    → List ℕ
    → Option ℕ
    → Encryptor
    → Result SecurityError (List EncryptedBlock) × Encryptor
unfolding block_size_of blocks_loop
encrypt_blocks p nonces session_id data_bytes size e =
    blocks_loop p nonces session_id data_bytes (block_size_of size e) (length data_bytes) 0 e

-- The encrypted blocks of a stream, without their numbers and flags.
abbrev pub bare :
    Result SecurityError (List StreamBlock) × Encryptor
    → Result SecurityError (List EncryptedBlock) × Encryptor
bare (raised x, e) = (raised x, e)
bare (ok sbs, e) = (ok (map (λ (sb : StreamBlock). sb.block) sbs), e)

bare-then_block :
    (p : Primitives) (nonces : ℕ → List ℕ) (session_id data_bytes : List ℕ) (bs index : ℕ)
    (is_last : Bool) (first : Result SecurityError EncryptedBlock × Encryptor)
    (rest : Result SecurityError (List StreamBlock) × Encryptor)
    → bare (then_block p nonces session_id data_bytes bs index is_last first rest)
      ≡ then_encrypted first (bare rest)
unfolding then_block then_encrypted
bare-then_block p nonces session_id data_bytes bs index is_last (raised x, e) rest = refl
bare-then_block p nonces session_id data_bytes bs index is_last (ok b, e) (raised x, e') = refl
bare-then_block p nonces session_id data_bytes bs index is_last (ok b, e) (ok sbs, e') = refl

bare-choice :
    (c : Bool) (e : Encryptor) (r : Result SecurityError (List StreamBlock) × Encryptor)
    (t : Result SecurityError (List EncryptedBlock) × Encryptor)
    → t ≡ bare r
    → (if c then t else (ok [], e)) ≡ bare (if c then r else (ok [], e))
bare-choice true e r t same = same
bare-choice false e r t same = refl

neither :
    (c : Bool) (t : Result SecurityError (List EncryptedBlock) × Encryptor)
    (r r' : Result SecurityError (List StreamBlock) × Encryptor)
    → c ≡ false
    → (if c then t else bare (if c then r else r')) ≡ bare r'
neither false t r r' skips = refl
neither true t r r' skips = absurd (cc)

module _ (p : Primitives) (nonces : ℕ → List ℕ) (session_id data_bytes : List ℕ) where
  blocks_loop-encrypt_loop :
      (bs fuel i : ℕ) (e : Encryptor)
      → blocks_loop p nonces session_id data_bytes bs fuel i e
        ≡ bare (encrypt_loop p nonces session_id data_bytes bs fuel i e)
  unfolding blocks_loop encrypt_loop
  blocks_loop-encrypt_loop bs zero i e = refl
  blocks_loop-encrypt_loop bs (suc fuel) i e =
      let first = encrypt p (nonces (i / bs)) (take bs (drop i data_bytes)) session_id e in
      let ih = blocks_loop-encrypt_loop bs fuel (i + bs) first.1 in
      let rest = encrypt_loop p nonces session_id data_bytes bs fuel (i + bs) first.1 in
      let joined =
        bare-then_block p nonces session_id data_bytes bs (i / bs)
          (leb (length data_bytes) (i + bs)) first rest in
      let joint =
        then_block p nonces session_id data_bytes bs (i / bs) (leb (length data_bytes) (i + bs))
          first rest in
      bare-choice (ltb i (length data_bytes)) e joint
        (then_encrypted first (blocks_loop p nonces session_id data_bytes bs fuel (i + bs) first.1))
        (ap (λ r. then_encrypted first r) ih ∙ sym joined)

-- `encrypt_stream` of an encryptor gives the encrypted blocks of `encrypt_to_stream`, or its error,
-- and leaves the encryptor the same, for data of a byte or more; for no data it gives no block and
-- leaves the encryptor as it was.
pub encrypt_blocks-encrypt_to_stream :
    (p : Primitives) (nonces : ℕ → List ℕ) (session_id data_bytes : List ℕ) (size : Option ℕ)
    (e : Encryptor)
    → encrypt_blocks p nonces session_id data_bytes size e ≡ (
        if eqb (length data_bytes) 0
        then (ok [], e)
        else bare (encrypt_to_stream p nonces session_id data_bytes size e))
unfolding encrypt_blocks encrypt_to_stream blocks_loop
encrypt_blocks-encrypt_to_stream p nonces session_id [] size e = refl
encrypt_blocks-encrypt_to_stream p nonces session_id (d ∷ ds) size e =
    let bs = block_size_of size e in
    let full : eqb (length (d ∷ ds)) 0 ≡ false = ground arith in
    blocks_loop-encrypt_loop p nonces session_id (d ∷ ds) bs (length (d ∷ ds)) 0 e
    ∙ sym (
        neither (eqb (length (d ∷ ds)) 0) (ok [], e)
          (then_block p nonces session_id (d ∷ ds) bs 0 true (encrypt p (nonces 0) [] session_id e)
            (ok [], (encrypt p (nonces 0) [] session_id e).1))
          (encrypt_loop p nonces session_id (d ∷ ds) bs (length (d ∷ ds)) 0 e) full)
