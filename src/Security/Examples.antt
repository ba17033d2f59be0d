-- ===== src/Security/Examples.antt =====
-- The security layer at concrete inputs, with a cipher that appends a tag and hides nothing.
use chen.Common.{
  ℕ, codes, true, false, ◌≡◌, inr, refl, Option, none, some, List, [], ◌∷◌, ◌++◌, arith, codes_key,
  pair_key,
}
use chen.Common.Result.{Result, ok}
use chen.Common.Dict.{lookup, insert}
use chen.Common.Sort.Shuffle.{exchange}
use chen.Security.{SecurityError}
use chen.Security.Plain.{tag, plain}
use chen.Security.Config.{EncryptionConfig, validate}
use chen.Security.Crypto.{
  EncryptedBlock, Decryptor, new_encryptor, new_decryptor, serialize, encrypt, decrypt,
}
use chen.Security.Crypto.RoundTrip.{
  IsCoherentEncryptor, IsCoherent, decrypt-encrypt, new_encryptor-IsCoherentEncryptor,
  new_decryptor-IsCoherent,
}
use chen.Security.Stream.Blocks.{encrypt_blocks, bare, encrypt_blocks-encrypt_to_stream}
use chen.Security.Stream.{
  StreamBlock, encrypt_to_stream, then_block, encrypt_loop, decrypt_stream, unpack_u32,
  serialize_stream, deserialize_stream,
}
use chen.Security.Stream.RoundTrip.{decrypt_stream-encrypt_to_stream}
use chen.Security.Stream.Wire.{renumber, deserialize_stream-serialize_stream}

abbrev master : List ℕ
master = tag ++ tag

abbrev config : EncryptionConfig
config = record {
  master_key = master;
  key_id = codes "k1";
  block_size = 64;
  algorithm = "AES-256-GCM";
}

abbrev nonce : List ℕ
nonce = 1 ∷ 2 ∷ 3 ∷ 4 ∷ 5 ∷ 6 ∷ 7 ∷ 8 ∷ 9 ∷ 10 ∷ 11 ∷ 12 ∷ []

abbrev block : EncryptedBlock
block = record { key_id = codes "k1"; nonce = nonce; ciphertext = codes "hi"; tag = tag }

config-valid : validate config ≡ ok config
unfolding validate
config-valid = refl

known : lookup (codes "k1") (new_decryptor config).keys ≡ some config
unfolding lookup
known = refl

decrypt-encrypt_example :
    let (r, e) = encrypt plain nonce (codes "secret") (codes "s") (new_encryptor config) in
    (b : EncryptedBlock) × (r ≡ ok b)
    × ((decrypt plain b (codes "s") (new_decryptor config)).0 ≡ ok (codes "secret"))
    × IsCoherentEncryptor plain e
    × IsCoherent plain (decrypt plain b (codes "s") (new_decryptor config)).1
decrypt-encrypt_example =
    decrypt-encrypt plain nonce (codes "secret") (codes "s") (new_encryptor config)
      (new_decryptor config) config (new_encryptor-IsCoherentEncryptor plain config)
      (new_decryptor-IsCoherent plain config) refl known refl

unknown : lookup (codes "k2") (new_decryptor config).keys ≡ none
unfolding lookup
unknown = refl

-- A decryptor that has read a block of session "s".
abbrev used : Decryptor
used = record (new_decryptor config) { session_keys = ((codes "k1", codes "s"), codes "old") ∷ [] }

cached : lookup (codes "k1", codes "s") used.session_keys ≡ some (codes "old")
unfolding lookup
cached = refl

abbrev stream_of : List ℕ → Option ℕ → Result SecurityError (List StreamBlock)
stream_of data_bytes size =
    (encrypt_to_stream plain (λ _. nonce) (codes "s") data_bytes size (new_encryptor config)).0

abbrev first : StreamBlock
first = record { index = 0; block = record block { ciphertext = codes "ab" }; is_last = false }

abbrev second : StreamBlock
second = record { index = 1; block = record block { ciphertext = codes "c" }; is_last = true }

two_blocks : stream_of (codes "abc") (some 2) ≡ ok (first ∷ second ∷ [])
unfolding encrypt_to_stream encrypt_loop then_block encrypt lookup insert
two_blocks = refl

decrypt_stream-encrypt_to_stream_example :
    (decrypt_stream plain (second ∷ first ∷ []) (codes "s") (new_decryptor config)).0
    ≡ ok (codes "abc")
decrypt_stream-encrypt_to_stream_example =
    decrypt_stream-encrypt_to_stream plain (λ _. nonce) (codes "s") (codes "abc") (some 2)
      (new_encryptor config) (new_encryptor-IsCoherentEncryptor plain config) (omega arith)
      (λ _. refl) (new_decryptor config) (first ∷ second ∷ []) (second ∷ first ∷ [])
      (new_decryptor-IsCoherent plain config) known two_blocks (exchange first second [])

abbrev wire : List ℕ
wire = 0 ∷ 0 ∷ 0 ∷ 33 ∷ (2 ∷ (codes "k1" ++ (nonce ++ (codes "ab" ++ tag)))) ++ 0 ∷ []

wire_sent : serialize_stream plain (first ∷ []) ≡ ok wire
unfolding serialize_stream serialize
wire_sent = refl

deserialize_stream-serialize_stream_example :
    deserialize_stream plain (wire ++ 0 ∷ 0 ∷ 0 ∷ 33 ∷ 2 ∷ []) ≡ ok (renumber 0 (first ∷ []))
unfolding unpack_u32
deserialize_stream-serialize_stream_example =
    deserialize_stream-serialize_stream plain (first ∷ []) wire (0 ∷ 0 ∷ 0 ∷ 33 ∷ 2 ∷ [])
      ((refl, refl), tt) wire_sent (inr (omega arith))

encrypt_blocks-encrypt_to_stream_example :
    encrypt_blocks plain (λ _. nonce) (codes "s") (codes "abc") (some 2) (new_encryptor config)
    ≡ bare (
        encrypt_to_stream plain
          (λ _. nonce)
          (codes "s")
          (codes "abc")
          (some 2)
          (new_encryptor config))
encrypt_blocks-encrypt_to_stream_example =
    encrypt_blocks-encrypt_to_stream plain (λ _. nonce) (codes "s") (codes "abc") (some 2)
      (new_encryptor config)
