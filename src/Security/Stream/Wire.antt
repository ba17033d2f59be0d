-- ===== src/Security/Stream/Wire.antt =====
-- The wire format of a stream (src/chen/security/stream.py).
use chen.Common.{
  ℕ, zero, suc, ◌+◌, ◌/◌, ◌%◌, leb, ◌≤◌, ◌<◌, Bool, true, false, ◌≡◌, ◌⊎◌, refl, sym, ap, ◌∙◌, List,
  [], ◌∷◌, ◌++◌, arith, ltb, length, length-append, take, drop, take-append_of, drop-append_of,
  Bool-cases, inl, inr, All, append_assoc,
}
use chen.Common.Result.{ok, Result-cases}
use chen.Security.{Primitives}
use chen.Security.Crypto.{EncryptedBlock, serialize, deserialize}
use chen.Security.Crypto.Wire.{wire_cases}
use chen.Security.Stream.{
  StreamBlock, pack_u32, unpack_u32, unpack_u8, flag, serialize_stream, deserialize_loop,
  deserialize_stream,
}

-- The sizes that every `EncryptedBlock` has, since its constructor checks them.
abbrev pub IsSized : List StreamBlock → Type 0
IsSized = All (λ s. (length s.block.nonce ≡ 12) × (length s.block.tag ≡ 16))

-- The blocks with their indices counted up from `n`.
abbrev pub renumber : ℕ → List StreamBlock → List StreamBlock
renumber n [] = []
renumber n (s ∷ ss) = record s { index = n } ∷ renumber (n + 1) ss

-- What is left of a block that has not arrived in full: less than its length, or less than its
-- bytes and its flag.
abbrev pub IsIncomplete : List ℕ → Type 0
IsIncomplete tail = (length tail < 4) ⊎ (length (drop 4 tail) < unpack_u32 (take 4 tail) + 1)

incomplete_stops :
    (p : Primitives) (fuel n : ℕ) (tail : List ℕ)
    → IsIncomplete tail
    → deserialize_loop p fuel n tail ≡ ok []
unfolding deserialize_loop
incomplete_stops p zero n tail h = refl
incomplete_stops p (suc fuel) n tail h = ground arith

unpack-pack :
    (n : ℕ) (header rest : List ℕ)
    → pack_u32 n ≡ ok header
    → (length header ≡ 4) × (unpack_u32 (take 4 (header ++ rest)) ≡ n)
unfolding pack_u32 unpack_u32
unpack-pack n header rest h = elim (Bool-cases (ltb n 4294967296)) [
  | inl fits ↦
      let same : header ≡ n / 16777216 ∷ n / 65536 % 256 ∷ n / 256 % 256 ∷ n % 256 ∷ [] =
        ground arith in
      rw same (refl, omega arith)
  | inr big ↦ absurd (ground arith)
]

-- A serialized block reads back.
block_reads :
    (p : Primitives) (b : EncryptedBlock) {bytes : List ℕ}
    → length b.nonce ≡ 12
    → length b.tag ≡ 16
    → serialize p b ≡ ok bytes
    → deserialize p bytes ≡ ok b
block_reads p b n t h = elim (Bool-cases (leb (length (p.encode b.key_id)) 255)) [
  | inl short ↦ rw h at ((wire_cases p b n t).0 (ground arith))
  | inr long ↦
      let refused = (wire_cases p b n t).1 (ground arith) in absurd (ground (arith, refused))
]

serialize_stream_cons :
    (p : Primitives) (s : StreamBlock) (ss : List StreamBlock) {bytes : List ℕ}
    → serialize_stream p (s ∷ ss) ≡ ok bytes
    → (block_bytes header rest : List ℕ) × (serialize p s.block ≡ ok block_bytes)
      × (pack_u32 (length block_bytes) ≡ ok header)
      × (serialize_stream p ss ≡ ok rest)
      × (bytes ≡ header ++ (block_bytes ++ (flag s.is_last ∷ rest)))
unfolding serialize_stream
serialize_stream_cons p s ss h = elim (Result-cases (serialize p s.block)) [
  | inr (x, bad) ↦ absurd (ground arith)
  | inl (bb, good) ↦ elim (Result-cases (pack_u32 (length bb))) [
    | inr (x, bad) ↦ absurd (ground arith)
    | inl (header, packed) ↦ elim (Result-cases (serialize_stream p ss)) [
      | inr (x, bad) ↦ absurd (ground arith)
      | inl (rest, others) ↦ (bb, header, rest, good, packed, others, ground arith)
    ]
  ]
]

flag_reads : (b : Bool) → ltb 0 (flag b) ≡ b
flag_reads true = refl
flag_reads false = refl

-- One round of the loop, at a block that has arrived in full.
one_round :
    (p : Primitives) (fuel n : ℕ) (s : StreamBlock) (header bb more : List ℕ)
    (blocks : List StreamBlock)
    → pack_u32 (length bb) ≡ ok header
    → deserialize p bb ≡ ok s.block
    → deserialize_loop p fuel (n + 1) more ≡ ok blocks
    → deserialize_loop p (suc fuel) n (header ++ (bb ++ (flag s.is_last ∷ more)))
      ≡ ok (record s { index = n } ∷ blocks)
unfolding deserialize_loop unpack_u8
one_round p fuel n s header bb more blocks packed reads rest =
    let tail = flag s.is_last ∷ more in
    let (four, len) = unpack-pack (length bb) header (bb ++ tail) packed in
    rw len (
      rw (drop-append_of 4 header (bb ++ tail) (sym four)) (
        rw (take-append_of (length bb) bb tail refl) (
          rw (drop-append_of (length bb) bb tail refl) (
            ground (
              arith,
              length-append header (bb ++ tail),
              length-append bb tail,
              reads,
              rest,
              flag_reads s.is_last,
            )))))

loop_reads :
    (p : Primitives) (fuel n : ℕ) (blocks : List StreamBlock) (bytes tail : List ℕ)
    → IsSized blocks
    → serialize_stream p blocks ≡ ok bytes
    → IsIncomplete tail
    → length (bytes ++ tail) ≤ fuel
    → deserialize_loop p fuel n (bytes ++ tail) ≡ ok (renumber n blocks)
unfolding serialize_stream
loop_reads p fuel n [] bytes tail sized h cut room =
    let none_sent : [] ≡ bytes = ground arith in
    rw (← none_sent) (incomplete_stops p fuel n tail cut)
loop_reads p zero n (s ∷ ss) bytes tail sized h cut room =
    let (bb, header, rest, good, packed, others, same) = serialize_stream_cons p s ss h in
    absurd (
      omega (
        arith,
        (unpack-pack (length bb) header [] packed).0,
        length-append bytes tail,
        ap length same,
        length-append header (bb ++ (flag s.is_last ∷ rest)),
      ))
loop_reads p (suc fuel) n (s ∷ ss) bytes tail sized h cut room =
    let (bb, header, rest, good, packed, others, same) = serialize_stream_cons p s ss h in
    let after = flag s.is_last ∷ (rest ++ tail) in
    let whole : bytes ++ tail ≡ header ++ (bb ++ after) =
      ap (λ bs. bs ++ tail) same
      ∙ append_assoc header (bb ++ (flag s.is_last ∷ rest)) tail
      ∙ ap (λ bs. header ++ bs) (append_assoc bb (flag s.is_last ∷ rest) tail) in
    rw whole (
      one_round p fuel n s header bb (rest ++ tail) (renumber (n + 1) ss) packed
        (block_reads p s.block sized.0.0 sized.0.1 good)
        (loop_reads p fuel (n + 1) ss rest tail sized.1 others cut (
          omega
            (arith, ap length whole, length-append header (bb ++ after), length-append bb after))))

-- What `serialize_stream` writes reads back as the same blocks, flags and order, numbered from 0;
-- and a block at the end that has not arrived in full is dropped without an error.
pub deserialize_stream-serialize_stream :
    (p : Primitives) (blocks : List StreamBlock) (bytes tail : List ℕ)
    → IsSized blocks
    → serialize_stream p blocks ≡ ok bytes
    → IsIncomplete tail
    → deserialize_stream p (bytes ++ tail) ≡ ok (renumber 0 blocks)
unfolding deserialize_stream
deserialize_stream-serialize_stream p blocks bytes tail sized h cut =
    loop_reads p (length (bytes ++ tail)) 0 blocks bytes tail sized h cut (omega arith)
