-- ===== src/Security/Stream.antt =====
-- src/chen/security/stream.py: data cut into blocks that are encrypted one by one, and the wire
-- format of such a stream. The nonce of the `n`-th block is `nonces n`. A loop over `range(0, n,
-- bs)` takes `n` as fuel, which is enough since `bs` is at least 1.
pub mod Loop
pub mod RoundTrip
pub mod Wire
pub mod Blocks
use chen.Common.{
  ℕ, zero, suc, ◌+◌, ◌-◌, ◌*◌, ◌/◌, ◌%◌, max, Bool, true, false, ◌&&◌, ◌||◌, Option, none, some,
  List, [], ◌∷◌, ◌++◌, ltb, leb, eqb, length, take, drop, map, if◌then◌else◌,
}
use chen.Common.Result.{Result, ok, raised, ◌>>=◌}
use chen.Common.Sort.{sort}
use chen.Security.{Primitives, SecurityError, length_overflow}
use chen.Security.Crypto.{
  EncryptedBlock, Encryptor, Decryptor, encrypt, decrypt_blocks, serialize, deserialize,
}

pub record StreamBlock : Type 0 where
  pub index : ℕ
  pub block : EncryptedBlock
  pub is_last : Bool

-- `block_size or encryptor.config.block_size`
unfoldable pub block_size_of : Option ℕ → Encryptor → ℕ
block_size_of none e = e.config.block_size
block_size_of (some n) e = if eqb n 0 then e.config.block_size else n

module _ (p : Primitives) (nonces : ℕ → List ℕ) (session_id data_bytes : List ℕ) (bs : ℕ) where
  -- One block more, and the rest of the loop from there.
  unfoldable pub then_block :
      ℕ
      → Bool
      → Result SecurityError EncryptedBlock × Encryptor
      → Result SecurityError (List StreamBlock) × Encryptor
      → Result SecurityError (List StreamBlock) × Encryptor
  then_block index is_last (raised x, e) rest = (raised x, e)
  then_block index is_last (ok b, e) (rest, e') =
      ((do blocks ← rest; ok (record { index = index; block = b; is_last = is_last } ∷ blocks)), e')

  -- `for i in range(0, len(data), bs)` in `encrypt_to_stream`
  unfoldable pub encrypt_loop :
      ℕ → ℕ → Encryptor → Result SecurityError (List StreamBlock) × Encryptor
  encrypt_loop zero i e = (ok [], e)
  encrypt_loop (suc fuel) i e =
      let first = encrypt p (nonces (i / bs)) (take bs (drop i data_bytes)) session_id e in
      let rest = encrypt_loop fuel (i + bs) first.1 in
      if ltb i (length data_bytes)
      then then_block (i / bs) (leb (length data_bytes) (i + bs)) first rest
      else (ok [], e)

  -- The generator loop of `stream_iter`, up to its `break`.
  unfoldable pub iter_loop : ℕ → ℕ → Encryptor → Result SecurityError (List StreamBlock) × Encryptor
  iter_loop zero i e = (ok [], e)
  iter_loop (suc fuel) i e =
      let total = length data_bytes in
      let chunk = if ltb i total then take bs (drop i data_bytes) else [] in
      let first = encrypt p (nonces (i / bs)) chunk session_id e in
      let is_last = leb total (i + bs) || (eqb i 0 && eqb total 0) in
      let rest = iter_loop fuel (i + bs) first.1 in
      if ltb i (max total 1)
      then then_block (i / bs) is_last first (if is_last then (ok [], first.1) else rest)
      else (ok [], e)

-- `encrypt_to_stream`
unfoldable pub encrypt_to_stream :
    Primitives
    → (ℕ → List ℕ)
    → List ℕ
    → List ℕ
    → Option ℕ
    → Encryptor
    → Result SecurityError (List StreamBlock) × Encryptor
unfolding block_size_of
encrypt_to_stream p nonces session_id data_bytes size e =
    let bs = block_size_of size e in
    if eqb (length data_bytes) 0
    then then_block p nonces session_id data_bytes bs 0 true (encrypt p (nonces 0) [] session_id e)
        (ok [], (encrypt p (nonces 0) [] session_id e).1)
    else encrypt_loop p nonces session_id data_bytes bs (length data_bytes) 0 e

-- `stream_iter`, read to its end
unfoldable pub stream_iter :
    Primitives
    → (ℕ → List ℕ)
    → List ℕ
    → List ℕ
    → Option ℕ
    → Encryptor
    → Result SecurityError (List StreamBlock) × Encryptor
unfolding block_size_of
stream_iter p nonces session_id data_bytes size e =
    iter_loop p nonces session_id data_bytes (block_size_of size e) (max (length data_bytes) 1) 0 e

abbrev pub sorted_blocks : List StreamBlock → List StreamBlock
sorted_blocks blocks = sort (λ a b. ltb a.index b.index) blocks

-- `decrypt_stream`
unfoldable pub decrypt_stream :
    Primitives → List StreamBlock → List ℕ → Decryptor → Result SecurityError (List ℕ) × Decryptor
decrypt_stream p blocks session_id d =
    decrypt_blocks p (map (λ s. s.block) (sorted_blocks blocks)) session_id d

-- `struct.pack(">I", n)`, which raises from 2 ^ 32 on, and `struct.unpack`
unfoldable pub pack_u32 : ℕ → Result SecurityError (List ℕ)
pack_u32 n =
    if ltb n 4294967296
    then ok (n / 16777216 ∷ n / 65536 % 256 ∷ n / 256 % 256 ∷ n % 256 ∷ [])
    else raised length_overflow

unfoldable pub unpack_u32 : List ℕ → ℕ
unpack_u32 (a ∷ b ∷ c ∷ d ∷ rest) = a * 16777216 + b * 65536 + c * 256 + d
unpack_u32 _ = 0

abbrev pub flag : Bool → ℕ
flag true = 1
flag false = 0

-- `serialize_stream`
unfoldable pub serialize_stream : Primitives → List StreamBlock → Result SecurityError (List ℕ)
unfolding pack_u32
serialize_stream p [] = ok []
serialize_stream p (s ∷ ss) = do
  bytes ← serialize p s.block
  header ← pack_u32 (length bytes)
  rest ← serialize_stream p ss
  ok (header ++ (bytes ++ (flag s.is_last ∷ rest)))

-- `struct.unpack("B", …)` of the first byte
unfoldable pub unpack_u8 : List ℕ → ℕ
unpack_u8 [] = 0
unpack_u8 (f ∷ rest) = f

-- The loop of `deserialize_stream`: `rest` is `data[offset:]`, and every round uses up at least
-- five bytes.
unfoldable pub deserialize_loop :
    Primitives → ℕ → ℕ → List ℕ → Result SecurityError (List StreamBlock)
deserialize_loop p zero idx rest = ok []
deserialize_loop p (suc fuel) idx rest =
    let block_len = unpack_u32 (take 4 rest) in
    let body = drop 4 rest in
    let tail = drop block_len body in
    let blocks = deserialize_loop p fuel (idx + 1) (drop 1 tail) in
    if eqb (length rest) 0
    then ok []
    else if ltb (length rest) 4
    then ok []
    else if ltb (length body) (block_len + 1)
    then ok []
    else (do
      b ← deserialize p (take block_len body)
      bs ← blocks
      ok (record { index = idx; block = b; is_last = ltb 0 (unpack_u8 tail) } ∷ bs))

-- `deserialize_stream`
unfoldable pub deserialize_stream : Primitives → List ℕ → Result SecurityError (List StreamBlock)
unfolding deserialize_loop
deserialize_stream p bytes = deserialize_loop p (length bytes) 0 bytes
