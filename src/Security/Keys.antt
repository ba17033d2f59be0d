-- ===== src/Security/Keys.antt =====
-- src/chen/security/keys.py: the keystore. Its directory is a dictionary from key ids to the
-- metadata in `key_<id>.json`, with the id in `active.json`; files that the store did not write
-- are left out, and so are permissions.
pub mod Activate
pub mod Rotate
mod Examples
use chen.Common.{
  ℕ, ◌+◌, Text, codes, Bool, true, false, not, ◌&&◌, ◌||◌, Option, none, some, List, [], ◌∷◌, ◌++◌,
  ltb, eqb, keep, map, if◌then◌else◌, ◌==◌, codes_key,
}
use chen.Common.Result.{Result, ok, raised, ◌>>=◌}
use chen.Common.Dict.{Dict, lookup, insert}
use chen.Common.Sort.{sort}
use chen.Security.{Primitives, SecurityError, key_not_found, bad_base64}
use chen.Security.Config.{EncryptionConfig, generate, new_config}

pub data KeyStatus : Type 0 where
  active retired revoked : KeyStatus

pub record KeyMetadata : Type 0 where
  pub key_id : Text
  pub created_at : Text
  pub status : KeyStatus
  pub master_key_b64 : Text
  pub rotation_of : Option Text

pub record KeyStore : Type 0 where
  pub files : Dict Text KeyMetadata
  pub active_file : Option Text

-- The order of file names.
unfoldable pub before : Text → Text → Bool
before [] [] = false
before [] (d ∷ ds) = true
before (c ∷ cs) [] = false
before (c ∷ cs) (d ∷ ds) = ltb c d || (eqb c d && before cs ds)

unfoldable pub is_revoked : KeyStatus → Bool
is_revoked revoked = true
is_revoked active = false
is_revoked retired = false

-- `to_config`
unfoldable pub to_config : Primitives → KeyMetadata → Result SecurityError EncryptionConfig
to_config p m = elim (p.b64decode m.master_key_b64) [
  | none ↦ raised bad_base64
  | some key ↦ new_config key m.key_id
]

-- `from_config`: `created_at` is the time of the call.
unfoldable pub from_config : Primitives → Text → EncryptionConfig → Option Text → KeyMetadata
from_config p created_at c rotation_of = record {
  key_id = c.key_id;
  created_at = created_at;
  status = active;
  master_key_b64 = p.b64encode c.master_key;
  rotation_of = rotation_of;
}

-- `_save`
unfoldable pub save : KeyMetadata → KeyStore → KeyStore
save m s = record s { files = insert m.key_id m s.files }

-- `load`
unfoldable pub load : Text → KeyStore → Option KeyMetadata
load key_id s = lookup key_id s.files

read_names : List Text → KeyStore → List KeyMetadata
read_names [] s = []
read_names (n ∷ ns) s = elim (load n s) [ none ↦ read_names ns s | some m ↦ m ∷ read_names ns s ]

unfoldable pub names : KeyStore → List Text
unfolding before
names s = sort before (map (λ e. e.0) s.files)

-- `list_keys`
unfoldable pub list_keys : KeyStore → List KeyMetadata
unfolding names read_names load
list_keys s = read_names (names s) s

-- `get_active`: an empty id counts as none.
unfoldable pub get_active : KeyStore → Option KeyMetadata
unfolding load
get_active s = elim s.active_file [
  | none ↦ none
  | some key_id ↦ if key_id == [] then none else load key_id s
]

-- What the loop of `activate` does to one key.
retire_if_active : KeyStatus → KeyMetadata → KeyStore → KeyStore
unfolding save
retire_if_active active m s = save (record m { status = retired }) s
retire_if_active retired m s = s
retire_if_active revoked m s = s

retire_one : Text → KeyMetadata → KeyStore → KeyStore
unfolding retire_if_active
retire_one key_id m s = if m.key_id == key_id then s else retire_if_active m.status m s

-- The loop of `activate`.
retire_others : Text → List KeyMetadata → KeyStore → KeyStore
retire_others key_id [] s = s
retire_others key_id (m ∷ ms) s = retire_others key_id ms (retire_one key_id m s)

activate_loaded : Text → Option KeyMetadata → KeyStore → Result SecurityError KeyStore
unfolding retire_one retire_others save
activate_loaded key_id none s = raised key_not_found
activate_loaded key_id (some m) s =
    let s' = save (record m { status = active }) (retire_others key_id (list_keys s) s) in
    ok (record s' { active_file = some key_id })

-- `activate`
unfoldable pub activate : Text → KeyStore → Result SecurityError KeyStore
unfolding activate_loaded load
activate key_id s = activate_loaded key_id (load key_id s) s

-- `generate_key`: the two random values and the time come first.
unfoldable pub generate_key :
    Primitives
    → List ℕ
    → Text
    → Text
    → Option Text
    → KeyStore
    → Result SecurityError (KeyMetadata × KeyStore)
unfolding from_config save
generate_key p random_key random_id now rotation_of s = do
  c ← generate random_key random_id none
  let m = from_config p now c rotation_of
  ok (m, save m s)

unfoldable pub id_of : Option KeyMetadata → Option Text
id_of none = none
id_of (some m) = some m.key_id

-- `rotate`
unfoldable pub rotate :
    Primitives → List ℕ → Text → Text → KeyStore → Result SecurityError (KeyMetadata × KeyStore)
unfolding generate_key id_of get_active
rotate p random_key random_id now s = do
  (m, s') ← generate_key p random_key random_id now (id_of (get_active s)) s
  s'' ← activate m.key_id s'
  ok (m, s'')

-- `revoke`
unfoldable pub revoke : Text → KeyStore → Result SecurityError KeyStore
unfolding load save
revoke key_id s = elim (load key_id s) [
  | none ↦ raised key_not_found
  | some m ↦ ok (save (record m { status = revoked }) s)
]

-- `get_active_config`
unfoldable pub get_active_config :
    Primitives
    → List ℕ
    → Text
    → Text
    → KeyStore
    → Result SecurityError (EncryptionConfig × KeyStore)
unfolding generate_key get_active to_config
get_active_config p random_key random_id now s = elim (get_active s) [
  | some m ↦ (do c ← to_config p m; ok (c, s))
  | none ↦ (do
    (m, s') ← generate_key p random_key random_id now none s
    s'' ← activate m.key_id s'
    c ← to_config p m
    ok (c, s''))
]

to_configs : Primitives → List KeyMetadata → Result SecurityError (List EncryptionConfig)
unfolding to_config
to_configs p [] = ok []
to_configs p (m ∷ ms) = do c ← to_config p m; cs ← to_configs p ms; ok (c ∷ cs)

-- The keys that `get_decryptor_keys` converts.
unfoldable pub decryptor_metadata : KeyStore → List KeyMetadata
unfolding is_revoked list_keys
decryptor_metadata s = keep (λ m. not (is_revoked m.status)) (list_keys s)

-- `get_decryptor_keys`
unfoldable pub get_decryptor_keys :
    Primitives → KeyStore → Result SecurityError (List EncryptionConfig)
unfolding decryptor_metadata to_configs
get_decryptor_keys p s = to_configs p (decryptor_metadata s)
