-- ===== src/Store/Order.antt =====
-- ORDER BY and LIMIT (src/chen/persistence/run_store.py).
use chen.Common.{
  ℕ, zero, suc, min, map, ap, ◌∙◌, Text, Bool, false, ◌≡◌, refl, Option, none, some, List, [], ◌∷◌,
  length, take, All, All-take, arith, codes_key,
}
use chen.Common.Sort.Shuffle.{Shuffle, same, keep_head, exchange, chain}
use chen.Store.{ℤ, pos, negsuc, RunRecord, Row, limited}

-- Every item is no later than those before it.
unfoldable pub IsNewestFirst {ℓ} :
    {A : Type ℓ} → (Text → Text → Bool) → (A → Text) → List A → Type 0
IsNewestFirst later time [] = Unit
IsNewestFirst later time (x ∷ xs) =
    All (λ y. later (time y) (time x) ≡ false) xs × IsNewestFirst later time xs

pub take-IsNewestFirst {ℓ} :
    {A : Type ℓ} (later : Text → Text → Bool) (time : A → Text) (n : ℕ) (xs : List A)
    → IsNewestFirst later time xs
    → IsNewestFirst later time (take n xs)
unfolding IsNewestFirst
take-IsNewestFirst later time zero xs h = tt
take-IsNewestFirst later time (suc n) [] h = tt
take-IsNewestFirst later time (suc n) (x ∷ xs) h =
    (All-take _ n xs h.0, take-IsNewestFirst later time n xs h.1)

-- ORDER BY timestamp DESC: the same rows, sorted; those of one time are in any order.
pub record Newest (F : Type 0) (J : Type 0) : Type 0 where
  pub later : Text → Text → Bool
  pub by_time : List (Row F J) → List (Row F J)
  pub shuffles : (rows : List (Row F J)) → Shuffle rows (by_time rows)
  pub sorts :
      (rows : List (Row F J))
      → IsNewestFirst later (λ (row : Row F J). row.timestamp) (by_time rows)

unfoldable pub IsOf : {F : Type 0} → Option ℕ → RunRecord F → Type 0
IsOf none r = Unit
IsOf (some i) r = r.phase ≡ i

-- How many of `total` rows a limit leaves.
unfoldable pub left : ℤ → ℕ → ℕ
left (pos n) total = min n total
left (negsuc n) total = total

pub All-map {ℓ κ μ} :
    {A : Type ℓ} {B : Type κ} (P : B → Type μ) (f : A → B) (xs : List A)
    → All P (map f xs)
    → All (λ x. P (f x)) xs
All-map P f [] h = tt
All-map P f (x ∷ xs) h = (h.0, All-map P f xs h.1)

-- The times of the records and of their rows are the same.
pub IsNewestFirst-map {ℓ κ} :
    {A : Type ℓ} {B : Type κ} (later : Text → Text → Bool) (time : B → Text) (f : A → B)
    (xs : List A)
    → IsNewestFirst later time (map f xs)
    → IsNewestFirst later (λ x. time (f x)) xs
unfolding IsNewestFirst
IsNewestFirst-map later time f [] h = tt
IsNewestFirst-map later time f (x ∷ xs) h =
    (All-map _ f xs h.0, IsNewestFirst-map later time f xs h.1)

pub length-limited {ℓ} :
    {A : Type ℓ} (limit : ℤ) (xs : List A) → length (limited limit xs) ≡ left limit (length xs)
unfolding limited left
length-limited (pos zero) xs = ground arith
length-limited (pos (suc n)) [] = ground arith
length-limited (pos (suc n)) (x ∷ xs) = ground (arith, length-limited (pos n) xs)
length-limited (negsuc n) xs = refl

pub length-Shuffle {ℓ} : {A : Type ℓ} {xs ys : List A} → Shuffle xs ys → length xs ≡ length ys
length-Shuffle (same xs) = refl
length-Shuffle (keep_head x s) = ap suc (length-Shuffle s)
length-Shuffle (exchange x y xs) = refl
length-Shuffle (chain s t) = length-Shuffle s ∙ length-Shuffle t

pub limited-IsNewestFirst {ℓ} :
    {A : Type ℓ} (later : Text → Text → Bool) (time : A → Text) (limit : ℤ) (xs : List A)
    → IsNewestFirst later time xs
    → IsNewestFirst later time (limited limit xs)
unfolding limited
limited-IsNewestFirst later time (pos n) xs h = take-IsNewestFirst later time n xs h
limited-IsNewestFirst later time (negsuc n) xs h = h
