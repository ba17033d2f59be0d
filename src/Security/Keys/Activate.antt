-- ===== src/Security/Keys/Activate.antt =====
-- What activation, rotation and revocation do to every key (src/chen/security/keys.py).
use mathlib.Core.Path.{subst}
use chen.Common.{
  Text, Bool, true, false, ◌||◌, ◌≡◌, ◌≢◌, ◌⊎◌, inl, inr, refl, sym, ◌∙◌, some, List, [], ◌∷◌,
  arith, any, All, map, if◌then◌else◌, ◌==◌, ==-self, ==-ne, codes_key, Bool-cases, Option-cases,
}
use chen.Common.Result.{ok}
use chen.Common.Dict.{Dict, lookup, lookup-insert}
use chen.Common.Sort.{place, sort}
use chen.Security.Keys.{
  active, retired, revoked, KeyMetadata, KeyStore, before, save, load, read_names, names, list_keys,
  get_active, retire_one, retire_others, activate,
}

any-place {ℓ} :
    {A : Type ℓ} (lt : A → A → Bool) (p : A → Bool) (x : A) (ys : List A)
    → any p (place lt x ys) ≡ (p x || any p ys)
unfolding place
any-place lt p x [] = refl
any-place lt p x (y ∷ ys) = ground (arith, any-place lt p x ys)

any-sort {ℓ} :
    {A : Type ℓ} (lt : A → A → Bool) (p : A → Bool) (xs : List A) → any p (sort lt xs) ≡ any p xs
unfolding sort
any-sort lt p [] = refl
any-sort lt p (x ∷ xs) = ground (arith, any-place lt p x (sort lt xs), any-sort lt p xs)

-- Every file holds the metadata of the key that it is named after.
pub record IsConsistent (s : KeyStore) : Type 0 where
  pub named : (j : Text) (m : KeyMetadata) → load j s ≡ some m → m.key_id ≡ j

any-keys :
    (j : Text) (d : Dict Text KeyMetadata) (m : KeyMetadata)
    → lookup j d ≡ some m
    → any (λ n. n == j) (map (λ e. e.0) d) ≡ true
unfolding lookup
any-keys j [] m h = absurd (cc)
any-keys j ((i, v) ∷ d) m h = ground (arith, any-keys j d m)

-- A key that can be loaded is in `list_keys`.
any-read_names :
    (s : KeyStore) (j : Text) (m : KeyMetadata) (ns : List Text)
    → IsConsistent s
    → load j s ≡ some m
    → any (λ n. n == j) ns ≡ true
    → any (λ k. k.key_id == j) (read_names ns s) ≡ true
unfolding read_names
any-read_names s j m [] c h e = absurd (cc)
any-read_names s j m (n ∷ ns) c h e = elim (Bool-cases (n == j)) [
  | inl here ↦
      let same : n ≡ j = (codes_key.same_iff n j).0 here in
      let found : load n s ≡ some m = rw same h in
      ground (arith, found, ==-self j, c.named n m found, same)
  | inr there ↦ elim (Option-cases (load n s)) [
    | inl missing ↦ ground (arith, any-read_names s j m ns c h)
    | inr (k, found) ↦ ground (arith, any-read_names s j m ns c h)
  ]
]

-- What is listed under an id is what that id's file holds.
read_names-agree :
    (s : KeyStore) (j : Text) (m : KeyMetadata) (ns : List Text)
    → IsConsistent s
    → load j s ≡ some m
    → All (λ k. k.key_id ≡ j → k ≡ m) (read_names ns s)
unfolding read_names
read_names-agree s j m [] c h = tt
read_names-agree s j m (n ∷ ns) c h = elim (Option-cases (load n s)) [
  | inl missing ↦ rw (missing, read_names) (read_names-agree s j m ns c h)
  | inr (k, found) ↦
      rw (found, read_names)
        (
          λ q.
              let at_j : load j s ≡ some k =
                subst (λ t. load t s ≡ some k) (sym (c.named n k found) ∙ q) found in
              ground (arith, at_j, h),
          read_names-agree s j m ns c h,
        )
]

-- What `activate` leaves of a key that it does not activate.
unfoldable pub retire : KeyMetadata → KeyMetadata
retire m = elim m.status [ active ↦ record m { status = retired } | retired ↦ m | revoked ↦ m ]

retire_one_self :
    (key_id : Text) (m : KeyMetadata) (s : KeyStore)
    → load key_id (retire_one key_id m s) ≡ load key_id s
unfolding retire_one load
retire_one_self key_id m s =
    ground (arith, lookup-insert m.key_id key_id (record m { status = retired }) s.files)

retire_one-other :
    (key_id j : Text) (m : KeyMetadata) (s : KeyStore)
    → (m.key_id == j) ≡ false
    → load j (retire_one key_id m s) ≡ load j s
unfolding retire_one load
retire_one-other key_id j m s ne =
    ground (arith, lookup-insert m.key_id j (record m { status = retired }) s.files)

retire_one-here :
    (key_id j : Text) (m : KeyMetadata) (s : KeyStore)
    → (m.key_id == j) ≡ true
    → (j == key_id) ≡ false
    → (load j s ≡ some m) ⊎ (load j s ≡ some (retire m))
    → load j (retire_one key_id m s) ≡ some (retire m)
unfolding retire_one load retire
retire_one-here key_id j m s here ne h = ground (
  arith,
  lookup-insert m.key_id j (record m { status = retired }) s.files,
  codes_key.same_iff m.key_id j,
)

retire_others_self :
    (key_id : Text) (ms : List KeyMetadata) (s : KeyStore)
    → load key_id (retire_others key_id ms s) ≡ load key_id s
unfolding retire_others
retire_others_self key_id [] s = refl
retire_others_self key_id (m ∷ ms) s =
    retire_others_self key_id ms (retire_one key_id m s) ∙ retire_one_self key_id m s

-- A key that is not to be activated is retired by the time the loop has met it, and stays so.
retire_others-met :
    (key_id j : Text) (m : KeyMetadata) (ms : List KeyMetadata) (s : KeyStore)
    → (j == key_id) ≡ false
    → All (λ k. k.key_id ≡ j → k ≡ m) ms
    → ((load j s ≡ some m) × (any (λ k. k.key_id == j) ms ≡ true)) ⊎ (load j s ≡ some (retire m))
    → load j (retire_others key_id ms s) ≡ some (retire m)
unfolding retire_others
retire_others-met key_id j m [] s ne a (inl (h, met)) = absurd (cc)
retire_others-met key_id j m [] s ne a (inr h) = h
retire_others-met key_id j m (k ∷ ms) s ne a h = elim (Bool-cases (k.key_id == j)) [
  | inl here ↦
      let same : k ≡ m = a.0 ((codes_key.same_iff k.key_id j).0 here) in
      retire_others-met key_id j m ms (retire_one key_id k s) ne a.1 (
        inr (
          rw (← same) (
            retire_one-here key_id j k s here ne
              (rw same (elim h [ inl (l, met) ↦ inl l | inr l ↦ inr l ])))))
  | inr there ↦
      let kept = retire_one-other key_id j k s there in
      retire_others-met key_id j m ms (retire_one key_id k s) ne a.1
        (elim h [ inl (l, met) ↦ inl (kept ∙ l, ground arith) | inr l ↦ inr (kept ∙ l) ])
]

pub load-save :
    (j : Text) (m : KeyMetadata) (s : KeyStore)
    → load j (save m s) ≡ (if m.key_id == j then some m else load j s)
unfolding load save
load-save j m s = lookup-insert m.key_id j m s.files

pub listed :
    (j : Text) (m : KeyMetadata) (s : KeyStore)
    → IsConsistent s
    → load j s ≡ some m
    → (any (λ k. k.key_id == j) (list_keys s) ≡ true)
      × All (λ k. k.key_id ≡ j → k ≡ m) (list_keys s)
unfolding list_keys
listed j m s c h = (
  any-read_names s j m (names s) c h (
      any-sort before (λ n. n == j) (map (λ e. e.0) s.files)
      ∙ any-keys j s.files m (unfold load in h)),
  read_names-agree s j m (names s) c h,
)

-- Activating a key that can be loaded succeeds, whatever its status was. Afterwards it is the
-- active one, with the same key material; every other key is there as before, except that it is
-- retired if it was active.
pub activate_lem :
    (key_id j : Text) (s : KeyStore) (m m' : KeyMetadata)
    → IsConsistent s
    → key_id ≢ []
    → j ≢ key_id
    → load key_id s ≡ some m
    → load j s ≡ some m'
    → (s' : KeyStore) × (activate key_id s ≡ ok s')
      × (get_active s' ≡ some (record m { status = active }))
      × (load key_id s' ≡ some (record m { status = active }))
      × (load j s' ≡ some (retire m'))
unfolding activate get_active
activate_lem key_id j s m m' c filled ne h h' =
    let rest = retire_others key_id (list_keys s) s in
    let m₁ = record m { status = active } in
    let id = c.named key_id m h in
    let (met, agree) = listed j m' s c h' in
    let chosen : load key_id (save m₁ rest) ≡ some m₁ =
      ground (arith, load-save key_id m₁ rest, codes_key.same_iff m.key_id key_id, id) in
    let other : load j (save m₁ rest) ≡ some (retire m') = ground (
      arith,
      load-save j m₁ rest,
      codes_key.same_iff m.key_id j,
      id,
      retire_others-met key_id j m' (list_keys s) s (==-ne j key_id ne) agree (inl (h', met)),
    ) in
    (
      record (save m₁ rest) { active_file = some key_id },
      ground (arith, h),
      ground (arith, chosen, ==-ne key_id [] filled),
      chosen,
      other,
    )
