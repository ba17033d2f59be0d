-- ===== src/Common/Access.antt =====
-- Where the items of lists joined and cut stand.
use Prim.Native.Nat.{ℕ, zero, suc, ◌+◌, ◌≤◌, ◌<◌}
use mathlib.Core.Path.{◌≡◌, refl, ap}
use mathlib.Core.List.{List, [], ◌∷◌, ◌++◌}
use native.Mathlib.Omega.{arith}
use chen.Common.Lists.{length, take, get_elem?}

pub get_elem?-append_left {ℓ} :
    {A : Type ℓ} (xs ys : List A) (i : ℕ) → i < length xs → get_elem? (xs ++ ys) i ≡ get_elem? xs i
get_elem?-append_left [] ys i less = absurd (omega arith)
get_elem?-append_left (x ∷ xs) ys zero less = refl
get_elem?-append_left (x ∷ xs) ys (suc i) less = get_elem?-append_left xs ys i (omega arith)

pub get_elem?-append_right {ℓ} :
    {A : Type ℓ} (xs ys : List A) (i n : ℕ)
    → n ≡ length xs + i
    → get_elem? (xs ++ ys) n ≡ get_elem? ys i
get_elem?-append_right [] ys i n same = ap (λ k. get_elem? ys k) (omega arith)
get_elem?-append_right (x ∷ xs) ys i zero same = absurd (omega arith)
get_elem?-append_right (x ∷ xs) ys i (suc n) same = get_elem?-append_right xs ys i n (omega arith)

pub get_elem?-take {ℓ} :
    {A : Type ℓ} (xs : List A) (i n : ℕ) → i < n → get_elem? (take n xs) i ≡ get_elem? xs i
get_elem?-take xs i zero less = absurd (omega arith)
get_elem?-take [] i (suc n) less = refl
get_elem?-take (x ∷ xs) zero (suc n) less = refl
get_elem?-take (x ∷ xs) (suc i) (suc n) less = get_elem?-take xs i n (omega arith)

pub length-take_of {ℓ} : {A : Type ℓ} (n : ℕ) (xs : List A) → n ≤ length xs → length (take n xs) ≡ n
length-take_of zero xs long = refl
length-take_of (suc n) [] long = absurd (omega arith)
length-take_of (suc n) (x ∷ xs) long = omega (arith, length-take_of n xs (omega arith))
