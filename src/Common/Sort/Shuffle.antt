-- ===== src/Common/Sort/Shuffle.antt =====
-- Sorting by keys that all differ forgets the order of the input.
use mathlib.Core.Path.{◌≡◌, refl, sym, ap, ◌∙◌}
use mathlib.Core.Bool.{Bool}
use mathlib.Core.Logic.{◌≢◌, inl, inr}
use mathlib.Core.List.{List, [], ◌∷◌}
use Prim.Native.Nat.{ℕ, ◌+◌, ◌<◌, ◌≤◌}
use native.Mathlib.Omega.{arith}
use chen.Common.Tests.{ltb, Bool-cases}
use chen.Common.Lists.{All}
use chen.Common.Sort.{place, sort}

-- The same items in another order.
pub data Shuffle {ℓ} {A : Type ℓ} : List A → List A → Type ℓ where
  same : (xs : List A) → Shuffle xs xs
  keep_head : (x : A) {xs ys : List A} → Shuffle xs ys → Shuffle (x ∷ xs) (x ∷ ys)
  exchange : (x y : A) (xs : List A) → Shuffle (x ∷ y ∷ xs) (y ∷ x ∷ xs)
  chain : {xs ys zs : List A} → Shuffle xs ys → Shuffle ys zs → Shuffle xs zs

pub All-Shuffle {ℓ κ} :
    {A : Type ℓ} (P : A → Type κ) {xs ys : List A} → Shuffle xs ys → All P xs → All P ys
All-Shuffle P (same xs) h = h
All-Shuffle P (keep_head x s) h = (h.0, All-Shuffle P s h.1)
All-Shuffle P (exchange x y xs) h = (h.1.0, (h.0, h.1.1))
All-Shuffle P (chain s t) h = All-Shuffle P t (All-Shuffle P s h)

module _ {ℓ} {A : Type ℓ} (key : A → ℕ) where
  abbrev pub earlier : A → A → Bool
  earlier a b = ltb (key a) (key b)

  abbrev pub AllDiffer : List A → Type 0
  AllDiffer [] = Unit
  AllDiffer (x ∷ xs) = All (λ y. key x ≢ key y) xs × AllDiffer xs

  -- Keys in strictly rising order, from `n` on.
  abbrev pub RisesFrom : ℕ → List A → Type 0
  RisesFrom n [] = Unit
  RisesFrom n (x ∷ xs) = (n ≤ key x) × RisesFrom (key x + 1) xs

  AllDiffer-Shuffle : {xs ys : List A} → Shuffle xs ys → AllDiffer xs → AllDiffer ys
  AllDiffer-Shuffle (same xs) h = h
  AllDiffer-Shuffle (keep_head x s) h =
      (All-Shuffle (λ y. key x ≢ key y) s h.0, AllDiffer-Shuffle s h.1)
  AllDiffer-Shuffle (exchange x y xs) h = ((λ e. h.0.0 (sym e), h.1.0), (h.0.1, h.1.1))
  AllDiffer-Shuffle (chain s t) h = AllDiffer-Shuffle t (AllDiffer-Shuffle s h)

  place-place :
      (x y : A) (zs : List A)
      → key x ≢ key y
      → place earlier x (place earlier y zs) ≡ place earlier y (place earlier x zs)
  unfolding place
  place-place x y [] h = ground arith
  place-place x y (z ∷ zs) h = ground (arith, place-place x y zs h)

  pub sort-Shuffle :
      {xs ys : List A} → Shuffle xs ys → AllDiffer xs → sort earlier xs ≡ sort earlier ys
  unfolding sort
  sort-Shuffle (same xs) h = refl
  sort-Shuffle (keep_head x s) h = ap (place earlier x) (sort-Shuffle s h.1)
  sort-Shuffle (exchange x y xs) h = place-place x y (sort earlier xs) h.0.0
  sort-Shuffle (chain s t) h = sort-Shuffle s h ∙ sort-Shuffle t (AllDiffer-Shuffle s h)

  All-rises :
      (n : ℕ) (xs : List A) (x : A) → key x < n → RisesFrom n xs → All (λ y. key x ≢ key y) xs
  All-rises n [] x h r = tt
  All-rises n (y ∷ ys) x h r = (omega arith, All-rises (key y + 1) ys x (omega arith) r.1)

  pub RisesFrom-AllDiffer : (n : ℕ) (xs : List A) → RisesFrom n xs → AllDiffer xs
  RisesFrom-AllDiffer n [] r = tt
  RisesFrom-AllDiffer n (x ∷ xs) r =
      (All-rises (key x + 1) xs x (omega arith) r.1, RisesFrom-AllDiffer (key x + 1) xs r.1)

  place-rises : (x : A) (xs : List A) → RisesFrom (key x + 1) xs → place earlier x xs ≡ x ∷ xs
  unfolding place
  place-rises x [] r = refl
  place-rises x (y ∷ ys) r = ground arith

  pub sort-rises : (n : ℕ) (xs : List A) → RisesFrom n xs → sort earlier xs ≡ xs
  unfolding sort
  sort-rises n [] r = refl
  sort-rises n (x ∷ xs) r =
      ap (place earlier x) (sort-rises (key x + 1) xs r.1) ∙ place-rises x xs r.1

All-place {ℓ κ} :
    {A : Type ℓ} (P : A → Type κ) (before : A → A → Bool) (x : A) (ys : List A)
    → P x
    → All P ys
    → All P (place before x ys)
unfolding place
All-place P before x [] h a = (h, tt)
All-place P before x (y ∷ ys) h a = elim (Bool-cases (before y x)) [
  | inl later ↦ rw later (a.0, All-place P before x ys h a.1)
  | inr here ↦ rw here (h, (a.0, a.1))
]

pub All-sort {ℓ κ} :
    {A : Type ℓ} (P : A → Type κ) (before : A → A → Bool) (xs : List A)
    → All P xs
    → All P (sort before xs)
unfolding sort
All-sort P before [] a = tt
All-sort P before (x ∷ xs) a = All-place P before x (sort before xs) a.0 (All-sort P before xs a.1)
