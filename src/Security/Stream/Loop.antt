-- ===== src/Security/Stream/Loop.antt =====
-- The loop of `encrypt_to_stream` (src/chen/security/stream.py): what a run from any place gives.
use native.Mathlib.Nat.{zero-add, suc-add, add-div_right}
use chen.Common.{
  ℕ, zero, suc, ◌+◌, ◌/◌, ◌≤◌, ◌<◌, true, false, ◌≡◌, refl, sym, ap, ◌∙◌, some, List, [], ◌∷◌, ◌++◌,
  arith, ltb, leb, length, take, drop, take-append-drop, map, Bool-cases, leb→le, le→leb, inl, inr,
  codes_key,
}
use chen.Common.Result.{Result, ok}
use chen.Common.Dict.{lookup}
use chen.Common.Sort.Shuffle.{RisesFrom}
use chen.Security.{Primitives, SecurityError}
use chen.Security.Config.{EncryptionConfig}
use chen.Security.Crypto.{EncryptedBlock, Encryptor, Decryptor, encrypt, decrypt, decrypt_blocks}
use chen.Security.Crypto.RoundTrip.{IsCoherentEncryptor, IsCoherent, encrypt_lem, decrypt_lem}
use chen.Security.Stream.{StreamBlock, then_block, encrypt_loop}

drop-nil {ℓ} : {A : Type ℓ} (m : ℕ) → drop {A = A} m [] ≡ []
drop-nil zero = refl
drop-nil (suc m) = refl

drop-drop {ℓ} : {A : Type ℓ} (m n : ℕ) (xs : List A) → drop m (drop n xs) ≡ drop (n + m) xs
drop-drop m zero xs = rw zero-add
drop-drop m (suc n) [] = drop-nil m ∙ sym (drop-nil (suc n + m))
drop-drop m (suc n) (x ∷ xs) = rw (drop-drop m n xs, suc-add)

drop-all {ℓ} : {A : Type ℓ} (n : ℕ) (xs : List A) → length xs ≤ n → drop n xs ≡ []
drop-all zero [] h = refl
drop-all zero (x ∷ xs) h = absurd (omega arith)
drop-all (suc n) [] h = refl
drop-all (suc n) (x ∷ xs) h = drop-all n xs (omega arith)

pub length-zero {ℓ} : {A : Type ℓ} (xs : List A) → length xs ≡ 0 → xs ≡ []
length-zero [] h = refl
length-zero (x ∷ xs) h = absurd (omega arith)

-- The last block, and no other, is marked.
abbrev pub IsMarked : List StreamBlock → Type 0
IsMarked [] = Unit
IsMarked (s ∷ []) = s.is_last ≡ true
IsMarked (s ∷ t ∷ ss) = (s.is_last ≡ false) × IsMarked (t ∷ ss)

div_step : (i bs : ℕ) → 0 < bs → (i + bs) / bs ≡ i / bs + 1
div_step i bs h = add-div_right i h

-- With a block in front, when what it holds is read as `text`.
pub decrypt_blocks_cons :
    (p : Primitives) (b : EncryptedBlock) (blocks : List EncryptedBlock)
    (session_id text rest : List ℕ) (d : Decryptor)
    → (decrypt p b session_id d).0 ≡ ok text
    → (decrypt_blocks p blocks session_id (decrypt p b session_id d).1).0 ≡ ok rest
    → (decrypt_blocks p (b ∷ blocks) session_id d).0 ≡ ok (text ++ rest)
unfolding decrypt_blocks
decrypt_blocks_cons p b blocks session_id text rest d h k = ground arith

module _ (p : Primitives) (nonces : ℕ → List ℕ) (session_id data_bytes : List ℕ) (bs : ℕ)
    (bs_pos : 0 < bs) (nonce_size : (n : ℕ) → length (nonces n) ≡ 12) where
  -- What a run of the loop from `i` on gives: blocks in order, the last one marked, which every
  -- decryptor with the key reads as the bytes from `i` on.
  abbrev pub Encrypts : EncryptionConfig → ℕ → Result SecurityError (List StreamBlock) → Type 0
  Encrypts c i r =
      (blocks : List StreamBlock) × (r ≡ ok blocks)
      × RisesFrom (λ s. s.index) (i / bs) blocks
      × IsMarked blocks
      × (blocks ≡ [] → length data_bytes ≤ i)
      × (length data_bytes ≤ i → blocks ≡ [])
      × ((d : Decryptor)
          → IsCoherent p d
          → lookup c.key_id d.keys ≡ some c
          → (decrypt_blocks p (map (λ s. s.block) blocks) session_id d).0 ≡ ok (drop i data_bytes))

  IsMarked-cons :
      (i : ℕ) (b : EncryptedBlock) (blocks : List StreamBlock)
      → IsMarked blocks
      → (blocks ≡ [] → length data_bytes ≤ i + bs)
      → (length data_bytes ≤ i + bs → blocks ≡ [])
      → IsMarked (
          record { index = i / bs; block = b; is_last = leb (length data_bytes) (i + bs) } ∷ blocks)
  IsMarked-cons i b [] m last other = le→leb (length data_bytes) (i + bs) (last refl)
  IsMarked-cons i b (s ∷ ss) m last other = (
    elim (Bool-cases (leb (length data_bytes) (i + bs))) [
      | inl yes_last ↦ absurd (cc (other (leb→le _ _ yes_last)))
      | inr not_last ↦ not_last
    ],
    m,
  )

  then_block-Encrypts :
      (i : ℕ) (e : Encryptor) (rest : Result SecurityError (List StreamBlock) × Encryptor)
      → IsCoherentEncryptor p e
      → i < length data_bytes
      → Encrypts e.config (i + bs) rest.0
      → Encrypts e.config i
          (then_block p nonces session_id data_bytes bs
            (i / bs)
            (leb (length data_bytes) (i + bs))
            (encrypt p (nonces (i / bs)) (take bs (drop i data_bytes)) session_id e)
            rest).0
  unfolding then_block
  then_block-Encrypts i e rest he inside (blocks, done, rises, marked, ends, stops, reads) =
      let chunk = take bs (drop i data_bytes) in
      let nonce = nonces (i / bs) in
      let (b, made, id, bn, sealed, sixteen, same, he') =
        encrypt_lem p nonce chunk session_id e he (nonce_size (i / bs)) in
      (
        record { index = i / bs; block = b; is_last = leb (length data_bytes) (i + bs) } ∷ blocks,
        ground (arith, made, done),
        (omega arith, rw (div_step i bs bs_pos) at rises),
        IsMarked-cons i b blocks marked ends stops,
        λ h. absurd (cc h),
        λ h. absurd (omega arith),
        λ d hd known.
            let (text, keys, hd') =
              decrypt_lem p b nonce chunk session_id d e.config hd (rw id known) bn sealed in
            decrypt_blocks_cons p b (map (λ s. s.block) blocks) session_id chunk
              (drop (i + bs) data_bytes) d text
              (reads (decrypt p b session_id d).1 hd' (rw keys known))
            ∙ ap ok (rw (← drop-drop bs i data_bytes) (take-append-drop bs (drop i data_bytes))),
      )

  nothing_left : (c : EncryptionConfig) (i : ℕ) → length data_bytes ≤ i → Encrypts c i (ok [])
  unfolding decrypt_blocks
  nothing_left c i h =
      ([], refl, tt, tt, λ _. h, λ _. refl, λ d hd known. ap ok (sym (drop-all i data_bytes h)))

  pub encrypt_loop-Encrypts :
      (fuel i : ℕ) (e : Encryptor)
      → IsCoherentEncryptor p e
      → length data_bytes ≤ i + fuel
      → Encrypts e.config i (encrypt_loop p nonces session_id data_bytes bs fuel i e).0
  unfolding encrypt_loop
  encrypt_loop-Encrypts zero i e he room = nothing_left e.config i (omega arith)
  encrypt_loop-Encrypts (suc fuel) i e he room = elim (Bool-cases (ltb i (length data_bytes))) [
    | inr done ↦ rw done (nothing_left e.config i (ground arith))
    | inl inside ↦
        let (b, made, id, bn, sealed, sixteen, same, he') =
          encrypt_lem p (nonces (i / bs)) (take bs (drop i data_bytes)) session_id e he
            (nonce_size (i / bs)) in
        rw inside (
          then_block-Encrypts i e _ he (ground arith) (
            rw same at (
              encrypt_loop-Encrypts fuel (i + bs)
                (encrypt p (nonces (i / bs)) (take bs (drop i data_bytes)) session_id e).1 he'
                (omega arith))))
  ]
