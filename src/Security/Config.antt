-- ===== src/Security/Config.antt =====
-- src/chen/security/config.py: `EncryptionConfig` and `SecuritySettings`.
use chen.Common.{
  ℕ, String, Bool, true, false, ◌≡◌, Option, none, some, List, [], ◌∷◌, arith, ltb, eqb, length,
  any, if◌then◌else◌, ◌==◌, text_key, codes_key, Text, codes,
}
use chen.Common.Result.{Result, ok, raised}
use chen.Common.Dict.{Dict, lookup}
use chen.Security.{Primitives, SecurityError, bad_master_key, bad_block_size, bad_base64}

abbrev pub key_size_bytes : ℕ
key_size_bytes = 32

abbrev pub nonce_size_bytes : ℕ
nonce_size_bytes = 12

abbrev pub tag_size_bytes : ℕ
tag_size_bytes = 16

abbrev pub default_block_size : ℕ
default_block_size = 4096

pub record EncryptionConfig : Type 0 where
  pub master_key : List ℕ
  pub key_id : Text
  pub block_size : ℕ
  pub algorithm : String

-- `__post_init__`
unfoldable pub validate : EncryptionConfig → Result SecurityError EncryptionConfig
validate c =
    if eqb (length c.master_key) key_size_bytes
    then if ltb c.block_size 64 then raised bad_block_size else ok c
    else raised bad_master_key

-- `EncryptionConfig(master_key=…, key_id=…)`
unfoldable pub new_config : List ℕ → Text → Result SecurityError EncryptionConfig
unfolding validate
new_config master_key key_id = validate (record {
  master_key = master_key;
  key_id = key_id;
  block_size = default_block_size;
  algorithm = "AES-256-GCM";
})

-- `generate`: `os.urandom(32)` and `os.urandom(8).hex()` are the first two arguments.
unfoldable pub generate : List ℕ → Text → Option Text → Result SecurityError EncryptionConfig
unfolding new_config
generate random_key random_id none = new_config random_key random_id
generate random_key random_id (some key_id) =
    new_config random_key (if key_id == [] then random_id else key_id)

get_or : Text → Option Text → Text
get_or default none = default
get_or default (some s) = s

abbrev pub Environment : Type 0
Environment = Dict Text Text

from_key_b64 : Option (List ℕ) → Text → Result SecurityError EncryptionConfig
unfolding new_config
from_key_b64 none key_id = raised bad_base64
from_key_b64 (some key) key_id = new_config key key_id

-- `from_env`
unfoldable pub from_env :
    Primitives → List ℕ → Text → Environment → Result SecurityError EncryptionConfig
unfolding generate from_key_b64 get_or lookup
from_env p random_key random_id env =
    let key_b64 = get_or [] (lookup (codes "CHEN_MASTER_KEY") env) in
    if key_b64 == []
    then generate random_key random_id none
    else from_key_b64 (p.b64decode key_b64) (get_or [] (lookup (codes "CHEN_KEY_ID") env))

-- `to_env_dict`
unfoldable pub to_env_dict : Primitives → EncryptionConfig → Environment
to_env_dict p c =
    (codes "CHEN_MASTER_KEY", p.b64encode c.master_key) ∷ (codes "CHEN_KEY_ID", c.key_id) ∷ []

-- `derive_session_key`
unfoldable pub derive_session_key : Primitives → EncryptionConfig → List ℕ → List ℕ
derive_session_key p c session_id = p.hkdf session_id c.master_key

pub record SecuritySettings : Type 0 where
  pub enabled : Bool
  pub encrypt_prompts : Bool
  pub encrypt_responses : Bool
  pub encrypt_kv_cache : Bool
  pub encrypt_memory_entries : Bool
  pub zero_knowledge_routing : Bool
  pub trusted_backends : List String
  pub config : Option EncryptionConfig

-- `disabled`
unfoldable pub disabled : SecuritySettings
disabled = record {
  enabled = false;
  encrypt_prompts = true;
  encrypt_responses = true;
  encrypt_kv_cache = true;
  encrypt_memory_entries = true;
  zero_knowledge_routing = false;
  trusted_backends = "mock" ∷ [];
  config = none;
}

-- `is_trusted`
unfoldable pub is_trusted : SecuritySettings → String → Bool
is_trusted s backend = any (λ b. b == backend) s.trusted_backends

-- The environment that a valid config writes reads back as that config, whatever the random
-- values, with one exception: the block size comes back as the default.
pub from_env-to_env_dict :
    (p : Primitives) (c : EncryptionConfig) (random_key : List ℕ) (random_id : Text)
    → validate c ≡ ok c
    → c.algorithm ≡ "AES-256-GCM"
    → (p.b64encode c.master_key == []) ≡ false
    → from_env p random_key random_id (to_env_dict p c)
      ≡ ok (record c { block_size = default_block_size })
unfolding from_env to_env_dict validate
from_env-to_env_dict p c random_key random_id valid alg nonempty =
    rw nonempty (rw (p.b64decode-b64encode c.master_key) (ground arith))
