-- ===== src/Security/Crypto/Wire.antt =====
-- The wire format of src/chen/security/crypto.py.
use chen.Common.{
  leb, if◌then◌else◌, Bool-cases, inl, inr, ℕ, ◌+◌, ◌-◌, ◌≤◌, ◌≡◌, some, List, ◌++◌, arith, length,
  length-append, take-append, drop-append, sym, take-append_of, drop-append_of,
}
use chen.Common.Result.{ok, raised, ◌>>=◌}
use chen.Security.{Primitives, key_id_too_long}
use chen.Security.Crypto.{EncryptedBlock, serialize, deserialize, block_of}

module _ (p : Primitives) where
  -- The bytes behind the length byte.
  payload : EncryptedBlock → List ℕ
  payload b = p.encode b.key_id ++ (b.nonce ++ (b.ciphertext ++ b.tag))

  length-payload :
      (b : EncryptedBlock)
      → length (payload b)
        ≡ length (p.encode b.key_id) + (length b.nonce + (length b.ciphertext + length b.tag))
  unfolding payload
  length-payload b = omega (
    arith,
    length-append (p.encode b.key_id) (b.nonce ++ (b.ciphertext ++ b.tag)),
    length-append b.nonce (b.ciphertext ++ b.tag),
    length-append b.ciphertext b.tag,
  )

  block_of-payload :
      (b : EncryptedBlock)
      → length b.nonce ≡ 12
      → length b.tag ≡ 16
      → block_of p (some b.key_id) (length (p.encode b.key_id)) (payload b) ≡ ok b
  unfolding block_of payload
  block_of-payload b n t =
      let key = p.encode b.key_id in
      let body = b.ciphertext ++ b.tag in
      let cut : length body - 16 ≡ length b.ciphertext =
        omega (arith, length-append b.ciphertext b.tag) in
      rw (drop-append key (b.nonce ++ body)) (
        rw (take-append_of 12 b.nonce body (sym n)) (
          rw (drop-append_of 12 b.nonce body (sym n)) (
            rw (take-append_of (length body - 16) b.ciphertext b.tag cut)
              (rw (drop-append_of (length body - 16) b.ciphertext b.tag cut) (ground arith)))))

  pub wire_cases :
      (b : EncryptedBlock)
      → length b.nonce ≡ 12
      → length b.tag ≡ 16
      → (length (p.encode b.key_id) ≤ 255 → (serialize p b >>= deserialize p) ≡ ok b)
        × (256 ≤ length (p.encode b.key_id) → serialize p b ≡ raised key_id_too_long)
  unfolding serialize deserialize payload
  wire_cases b n t = (
    λ short. ground (
      arith,
      length-payload b,
      take-append (p.encode b.key_id) (b.nonce ++ (b.ciphertext ++ b.tag)),
      p.decode-encode b.key_id,
      block_of-payload b n t,
    ),
    λ long. ground arith,
  )

  -- A block with a nonce of 12 bytes and a tag of 16 reads back from its bytes as it was, if the
  -- bytes of its key id are at most 255; with a longer key id it is refused.
  pub deserialize-serialize :
      (b : EncryptedBlock)
      → length b.nonce ≡ 12
      → length b.tag ≡ 16
      → (serialize p b >>= deserialize p)
        ≡ (if leb (length (p.encode b.key_id)) 255 then ok b else raised key_id_too_long)
  deserialize-serialize b n t = elim (Bool-cases (leb (length (p.encode b.key_id)) 255)) [
    | inl short ↦ ground (arith, short, (wire_cases b n t).0)
    | inr long ↦ ground (arith, long, (wire_cases b n t).1)
  ]
