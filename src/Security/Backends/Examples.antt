-- ===== src/Security/Backends/Examples.antt =====
-- The encrypted backend at concrete inputs.
use chen.Common.{codes_key, true, ℕ, codes, Text, ◌≡◌, refl, none, List, [], ◌∷◌, ◌++◌, arith}
use chen.Common.Result.{ok, raised}
use chen.Common.Dict.{lookup}
use chen.Security.Plain.{tag, plain}
use chen.Security.Config.{EncryptionConfig}
use chen.Security.Crypto.RoundTrip.{new_encryptor-IsCoherentEncryptor, new_decryptor-IsCoherent}
use chen.Core.Expert.{backend_failed, KvCache, Backend}
use chen.Security.Backends.{
  EncryptedBackend, wrap_with_encryption, encrypt_boundary, decrypt_boundary, decode_encrypted,
}
use chen.Security.Backends.Boundary.{boundary_lem}

abbrev config : EncryptionConfig
config = record {
  master_key = tag ++ tag;
  key_id = codes "k1";
  block_size = 64;
  algorithm = "AES-256-GCM";
}

abbrev nonce : List ℕ
nonce = 1 ∷ 2 ∷ 3 ∷ 4 ∷ 5 ∷ 6 ∷ 7 ∷ 8 ∷ 9 ∷ 10 ∷ 11 ∷ 12 ∷ []

abbrev failing : Backend
failing = record {
  params_m = 7;
  supports_kv_cache = true;
  generate = λ text n. ok text;
  encode = λ text. raised backend_failed;
  decode = λ c n. raised backend_failed;
  transfer_cache = λ c. ok c;
  count_tokens = none;
}

wrapped : EncryptedBackend
unfolding wrap_with_encryption
wrapped = wrap_with_encryption plain failing config (codes "s")

abbrev cache : KvCache
cache = record {
  keys = [];
  values = [];
  source_model = codes "m";
  source_layer_count = 0;
  source_hidden_size = 0;
  source_n_heads = 0;
  source_text = [];
  last_token_id = 0;
  position = 0;
  layer_count_mismatch = none;
}

boundary_lem_example :
    (sent : Text) × ((encrypt_boundary plain nonce (codes "hi") wrapped).0 ≡ ok sent)
    × ((decrypt_boundary plain sent wrapped).0 ≡ codes "hi")
    × ((decode_encrypted plain (record cache { source_text = sent }) 8 wrapped).0
        ≡ raised backend_failed)
unfolding wrapped lookup
boundary_lem_example =
    boundary_lem plain nonce (codes "hi") wrapped config cache 8 backend_failed refl
      (new_encryptor-IsCoherentEncryptor plain config) (new_decryptor-IsCoherent plain config) refl
      (omega arith) refl refl refl
