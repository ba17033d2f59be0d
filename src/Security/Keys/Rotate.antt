-- ===== src/Security/Keys/Rotate.antt =====
-- What rotation and revocation do to the keys that there are (src/chen/security/keys.py).
use chen.Common.{
  ℕ, Text, false, not, ◌≡◌, ◌≢◌, inl, inr, refl, ap, ◌∙◌, some, List, [], ◌∷◌, arith, any, All,
  keep, length, ◌==◌, ==-self, codes_key, Bool-cases,
}
use chen.Common.Result.{ok}
use chen.Security.{Primitives}
use chen.Security.Config.{generate}
use chen.Security.Keys.{
  active, revoked, KeyMetadata, KeyStore, is_revoked, save, load, list_keys, get_active, revoke,
  decryptor_metadata, rotate, id_of,
}
use chen.Security.Keys.Activate.{IsConsistent, retire, load-save, listed, activate_lem}

pub save-IsConsistent : (m : KeyMetadata) (s : KeyStore) → IsConsistent s → IsConsistent (save m s)
save-IsConsistent m s c = record {
  named = λ j k h. ground (arith, load-save j m s, c.named j k, codes_key.same_iff m.key_id j);
}

retired_revoked : (m : KeyMetadata) → is_revoked (retire m).status ≡ is_revoked m.status
unfolding retire is_revoked
retired_revoked m = ground arith

-- With 32 random bytes and a new, non-empty random id, rotation succeeds. The new key is the
-- active one, and names the key that was active as the one that it replaces. Every key that was
-- there still is, with its key material; it is retired if it was active, and only a key that was
-- revoked is so afterwards.
pub rotate_keeps :
    (p : Primitives) (random_key : List ℕ) (random_id now j : Text) (s : KeyStore)
    (old : KeyMetadata)
    → IsConsistent s
    → length random_key ≡ 32
    → random_id ≢ []
    → j ≢ random_id
    → load j s ≡ some old
    → (new : KeyMetadata) × (s' : KeyStore) × (rotate p random_key random_id now s ≡ ok (new, s'))
      × (get_active s' ≡ some new)
      × (new.key_id ≡ random_id)
      × (new.rotation_of ≡ id_of (get_active s))
      × (load j s' ≡ some (retire old))
      × (is_revoked (retire old).status ≡ is_revoked old.status)
unfolding rotate generate
rotate_keeps p random_key random_id now j s old c size filled ne h =
    let new : KeyMetadata = record {
      key_id = random_id;
      created_at = now;
      status = active;
      master_key_b64 = p.b64encode random_key;
      rotation_of = id_of (get_active s);
    } in
    let here : load random_id (save new s) ≡ some new =
      ground (arith, load-save random_id new s, ==-self random_id) in
    let there : load j (save new s) ≡ some old =
      ground (arith, load-save j new s, codes_key.same_iff random_id j, h) in
    let (s', done, chosen, loaded, kept) =
      activate_lem random_id j (save new s) new old (save-IsConsistent new s c) filled ne here
        there in
    (new, s', ground (arith, done), chosen, refl, refl, kept, retired_revoked old)

none_kept :
    (j : Text) (x : KeyMetadata) (ks : List KeyMetadata)
    → x.status ≡ revoked
    → All (λ k. k.key_id ≡ j → k ≡ x) ks
    → any (λ k. k.key_id == j) (keep (λ k. not (is_revoked k.status)) ks) ≡ false
unfolding is_revoked
none_kept j x [] r a = refl
none_kept j x (k ∷ ks) r a = elim (Bool-cases (k.key_id == j)) [
  | inl here ↦
      let same : k ≡ x = a.0 ((codes_key.same_iff k.key_id j).0 here) in
      let out : k.status ≡ revoked = ap (λ (t : KeyMetadata). t.status) same ∙ r in
      ground (arith, out, none_kept j x ks r a.1)
  | inr there ↦ ground (arith, none_kept j x ks r a.1)
]

active_loaded :
    (s : KeyStore) (id : Text) (m : KeyMetadata)
    → s.active_file ≡ some id
    → get_active s ≡ some m
    → (load id s ≡ some m) × ((id == []) ≡ false)
unfolding get_active
active_loaded s id m at h = ground arith

revoke_loaded :
    (s : KeyStore) (id : Text) (m : KeyMetadata)
    → load id s ≡ some m
    → revoke id s ≡ ok (save (record m { status = revoked }) s)
unfolding revoke
revoke_loaded s id m h = ground arith

active_after :
    (s : KeyStore) (id : Text) (m : KeyMetadata)
    → s.active_file ≡ some id
    → (id == []) ≡ false
    → load id (save m s) ≡ some m
    → get_active (save m s) ≡ some m
unfolding get_active save
active_after s id m at filled h = ground arith

none_left :
    (id : Text) (m : KeyMetadata) (s : KeyStore)
    → All (λ k. k.key_id ≡ id → k ≡ record m { status = revoked }) (list_keys s)
    → any (λ k. k.key_id == id) (decryptor_metadata s) ≡ false
unfolding decryptor_metadata
none_left id m s a = none_kept id (record m { status = revoked }) (list_keys s) refl a

-- Revoking the active key leaves it the active one, so that it still encrypts; but it is no longer
-- among the keys that a decryptor is given.
pub revoke_active :
    (s : KeyStore) (id : Text) (m : KeyMetadata)
    → IsConsistent s
    → s.active_file ≡ some id
    → get_active s ≡ some m
    → (s' : KeyStore) × (revoke id s ≡ ok s')
      × (get_active s' ≡ some (record m { status = revoked }))
      × (any (λ k. k.key_id == id) (decryptor_metadata s') ≡ false)
revoke_active s id m c at h =
    let loaded : (load id s ≡ some m) × ((id == []) ≡ false) = active_loaded s id m at h in
    let gone = record m { status = revoked } in
    let s' = save gone s in
    let named = c.named id m loaded.0 in
    let here : load id s' ≡ some gone =
      ground (arith, load-save id gone s, codes_key.same_iff m.key_id id) in
    let (met, agree) = listed id gone s' (save-IsConsistent gone s c) here in
    (
      s',
      revoke_loaded s id m loaded.0,
      active_after s id gone at loaded.1 here,
      none_left id gone s' agree,
    )
