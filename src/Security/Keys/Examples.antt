-- ===== src/Security/Keys/Examples.antt =====
-- The keystore at concrete inputs.
use chen.Common.{codes, false, ◌≡◌, refl, none, some, [], ◌++◌, any, ◌==◌, codes_key, ne_of_test}
use chen.Common.Result.{ok}
use chen.Common.Dict.{lookup, insert}
use chen.Security.Plain.{tag, plain}
use chen.Security.Keys.{
  active, revoked, KeyMetadata, KeyStore, is_revoked, save, load, get_active, rotate, id_of, revoke,
  decryptor_metadata,
}
use chen.Security.Keys.Activate.{IsConsistent, retire}
use chen.Security.Keys.Rotate.{save-IsConsistent, rotate_keeps, revoke_active}

abbrev old : KeyMetadata
old = record {
  key_id = codes "a";
  created_at = codes "2025";
  status = active;
  master_key_b64 = codes "AAAA";
  rotation_of = none;
}

abbrev lost : KeyMetadata
lost = record {
  key_id = codes "b";
  created_at = codes "2024";
  status = revoked;
  master_key_b64 = codes "BBBB";
  rotation_of = none;
}

abbrev empty : KeyStore
empty = record { files = []; active_file = some (codes "a") }

store : KeyStore
store = save old (save lost empty)

abbrev active_again : KeyMetadata
active_again = record lost { status = active }

empty-IsConsistent : IsConsistent empty
unfolding load lookup
empty-IsConsistent = record { named = λ j m h. absurd (cc) }

store-IsConsistent : IsConsistent store
unfolding store
store-IsConsistent =
    save-IsConsistent old (save lost empty) (save-IsConsistent lost empty empty-IsConsistent)

rotate_keeps_example :
    (new : KeyMetadata) × (s' : KeyStore) × (rotate plain
        (tag ++ tag)
        (codes "c")
        (codes "2026")
        store
      ≡ ok (new, s'))
    × (get_active s' ≡ some new)
    × (new.key_id ≡ codes "c")
    × (new.rotation_of ≡ id_of (get_active store))
    × (load (codes "a") s' ≡ some (retire old))
    × (is_revoked (retire old).status ≡ is_revoked old.status)
unfolding store save load lookup insert
rotate_keeps_example =
    rotate_keeps plain (tag ++ tag) (codes "c") (codes "2026") (codes "a") store old
      store-IsConsistent refl (ne_of_test (codes "c") [] refl)
      (ne_of_test (codes "a") (codes "c") refl) refl

revoke_active_example :
    (s' : KeyStore) × (revoke (codes "a") store ≡ ok s')
    × (get_active s' ≡ some (record old { status = revoked }))
    × (any (λ k. k.key_id == codes "a") (decryptor_metadata s') ≡ false)
unfolding store save load lookup insert get_active
revoke_active_example = revoke_active store (codes "a") old store-IsConsistent refl refl
