-- ===== src/Common/Classes.antt =====
-- The keys of dictionaries: types with a test for equality that is right.
use Prim.Native.Nat.{ℕ}
use Prim.Native.String.{String}
use mathlib.Core.Path.{◌≡◌, refl}
use mathlib.Core.Logic.{◌↔◌, ◌≢◌}
use mathlib.Core.Bool.{Bool, true, false, ◌&&◌}
use mathlib.Core.List.{List, [], ◌∷◌}
use native.Mathlib.Omega.{arith}
use text.Mathlib.Text
use text.Mathlib.TextEquality
use chen.Common.Tests.{eqb, eqb_iff}

-- Texts and byte strings that the code takes apart are lists of codes.
abbrev codes_eqb : List ℕ → List ℕ → Bool
codes_eqb [] [] = true
codes_eqb [] (y ∷ ys) = false
codes_eqb (x ∷ xs) [] = false
codes_eqb (x ∷ xs) (y ∷ ys) = eqb x y && codes_eqb xs ys

pub codes_eqb_iff : (xs ys : List ℕ) → (codes_eqb xs ys ≡ true) ↔ (xs ≡ ys)
codes_eqb_iff [] [] = (λ _. refl, λ _. refl)
codes_eqb_iff [] (y ∷ ys) = ground arith
codes_eqb_iff (x ∷ xs) [] = ground arith
codes_eqb_iff (x ∷ xs) (y ∷ ys) = ground (arith, codes_eqb_iff xs ys)

pub record Key {ℓ} (K : Type ℓ) : Type ℓ where
  pub same : K → K → Bool
  pub same_iff : (j k : K) → (same j k ≡ true) ↔ (j ≡ k)

instance abbrev pub codes_key : Key (List ℕ)
codes_key = record { same = codes_eqb; same_iff = codes_eqb_iff }

instance abbrev pub number_key : Key ℕ
number_key = record { same = eqb; same_iff = eqb_iff }

instance abbrev pub text_key : Key String
text_key = record { same = Text.◌==◌; same_iff = TextEquality.eq_iff }

module _ {ℓ} {K : Type ℓ} ⦃key : Key K⦄ where
  infix 50 ◌==◌
  abbrev pub ◌==◌ : K → K → Bool
  j == k = key.same j k

  pub ==-self : (k : K) → (k == k) ≡ true
  ==-self k = (key.same_iff k k).1 refl

  pub ==-ne : (j k : K) → j ≢ k → (j == k) ≡ false
  ==-ne j k ne = ground (arith, key.same_iff j k)

  -- At literals `refl` proves the premise.
  pub ne_of_test : (j k : K) → (j == k) ≡ false → j ≢ k
  ne_of_test j k differs = ground (arith, key.same_iff j k)

-- A pair of keys is a key.
module _ {ℓ κ} {J : Type ℓ} {K : Type κ} ⦃left : Key J⦄ ⦃right : Key K⦄ where
  abbrev pairs_eqb : J × K → J × K → Bool
  pairs_eqb (i, j) (k, l) = left.same i k && right.same j l

  pub pairs_eqb_iff : (p q : J × K) → (pairs_eqb p q ≡ true) ↔ (p ≡ q)
  pairs_eqb_iff (i, j) (k, l) = ground (arith, left.same_iff i k, right.same_iff j l)

  instance abbrev pub pair_key : Key (J × K)
  pair_key = record { same = pairs_eqb; same_iff = pairs_eqb_iff }
