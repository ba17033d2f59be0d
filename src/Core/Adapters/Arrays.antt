-- ===== src/Core/Adapters/Arrays.antt =====
-- Arrays in row-major order: cutting into rows, exchanging axes, and what undoes it.
use chen.Common.{
  ℕ, zero, suc, ◌+◌, ◌*◌, ◌≡◌, refl, sym, ap, ◌∙◌, List, [], ◌∷◌, ◌++◌, length, take, drop, All,
  arith, length-append, length-drop, take-append-drop, take-append_of, drop-append_of,
}

module _ {A : Type 0} where
  -- `reshape(m, n)`
  unfoldable pub chunk : ℕ → ℕ → List A → List (List A)
  chunk n zero xs = []
  chunk n (suc m) xs = take n xs ∷ chunk n m (drop n xs)

  unfoldable pub concat : List (List A) → List A
  concat [] = []
  concat (r ∷ rs) = r ++ concat rs

  unfoldable pub firsts : List (List A) → List A
  firsts [] = []
  firsts ([] ∷ rs) = firsts rs
  firsts ((x ∷ r) ∷ rs) = x ∷ firsts rs

  unfoldable pub rests : List (List A) → List (List A)
  rests [] = []
  rests ([] ∷ rs) = [] ∷ rests rs
  rests ((x ∷ r) ∷ rs) = r ∷ rests rs

  -- Rows of length `n` as columns.
  unfoldable pub columns : ℕ → List (List A) → List (List A)
  unfolding firsts rests
  columns zero rs = []
  columns (suc n) rs = firsts rs ∷ columns n (rests rs)

  abbrev pub HasWidth : ℕ → List (List A) → Type 0
  HasWidth n rs = All (λ r. length r ≡ n) rs

  -- `x` before each row.
  cons_each : List A → List (List A) → List (List A)
  cons_each [] rs = []
  cons_each (x ∷ xs) [] = []
  cons_each (x ∷ xs) (r ∷ rs) = (x ∷ r) ∷ cons_each xs rs

  columns-cons :
      (n : ℕ) (r : List A) (rs : List (List A))
      → length r ≡ n
      → columns n (r ∷ rs) ≡ cons_each r (columns n rs)
  unfolding columns cons_each
  columns-cons zero [] rs same = refl
  columns-cons zero (x ∷ r) rs same = absurd (omega arith)
  columns-cons (suc n) [] rs same = absurd (omega arith)
  columns-cons (suc n) (x ∷ r) rs same =
      ap (λ cs. (x ∷ firsts rs) ∷ cs) (columns-cons n r (rests rs) (omega arith))

  pub length-columns : (n : ℕ) (rs : List (List A)) → length (columns n rs) ≡ n
  unfolding columns
  length-columns zero rs = refl
  length-columns (suc n) rs = ap (λ k. suc k) (length-columns n (rests rs))

  firsts-cons_each :
      (r : List A) (cs : List (List A)) → length r ≡ length cs → firsts (cons_each r cs) ≡ r
  unfolding firsts cons_each
  firsts-cons_each [] cs same = refl
  firsts-cons_each (x ∷ r) [] same = absurd (omega arith)
  firsts-cons_each (x ∷ r) (c ∷ cs) same = ap (λ s. x ∷ s) (firsts-cons_each r cs (omega arith))

  rests-cons_each :
      (r : List A) (cs : List (List A)) → length r ≡ length cs → rests (cons_each r cs) ≡ cs
  unfolding rests cons_each
  rests-cons_each [] [] same = refl
  rests-cons_each [] (c ∷ cs) same = absurd (omega arith)
  rests-cons_each (x ∷ r) [] same = absurd (omega arith)
  rests-cons_each (x ∷ r) (c ∷ cs) same = ap (λ s. c ∷ s) (rests-cons_each r cs (omega arith))

  -- Exchanging rows and columns twice changes nothing.
  pub columns-columns :
      (n : ℕ) (rs : List (List A)) → HasWidth n rs → columns (length rs) (columns n rs) ≡ rs
  unfolding columns
  columns-columns n [] wide = refl
  columns-columns n (r ∷ rs) wide =
      let both = columns-cons n r rs wide.0 in
      let same : length r ≡ length (columns n rs) = wide.0 ∙ sym (length-columns n rs) in
      let first = firsts-cons_each r (columns n rs) same in
      let rest = rests-cons_each r (columns n rs) same in
      let ih = columns-columns n rs wide.1 in rw both (rw first (rw rest (ap (λ s. r ∷ s) ih)))

  length-take : (n k : ℕ) (xs : List A) → length xs ≡ n + k → length (take n xs) ≡ n
  length-take zero k xs long = refl
  length-take (suc n) k [] long = absurd (omega arith)
  length-take (suc n) k (x ∷ xs) long = omega (arith, length-take n k xs (omega arith))

  pub length-chunk : (n m : ℕ) (xs : List A) → length (chunk n m xs) ≡ m
  unfolding chunk
  length-chunk n zero xs = refl
  length-chunk n (suc m) xs = ap (λ k. suc k) (length-chunk n m (drop n xs))

  rest_length : (n m : ℕ) (xs : List A) → length xs ≡ suc m * n → length (drop n xs) ≡ m * n
  rest_length n m xs long = ground (arith, length-drop n xs)

  pub chunk-HasWidth : (n m : ℕ) (xs : List A) → length xs ≡ m * n → HasWidth n (chunk n m xs)
  unfolding chunk
  chunk-HasWidth n zero xs long = tt
  chunk-HasWidth n (suc m) xs long =
      let first : length (take n xs) ≡ n = length-take n (m * n) xs (ground arith) in
      (first, chunk-HasWidth n m (drop n xs) (rest_length n m xs long))

  pub concat-chunk : (n m : ℕ) (xs : List A) → length xs ≡ m * n → concat (chunk n m xs) ≡ xs
  unfolding concat chunk
  concat-chunk n zero [] long = refl
  concat-chunk n zero (x ∷ xs) long = absurd (ground arith)
  concat-chunk n (suc m) xs long =
      let ih = concat-chunk n m (drop n xs) (rest_length n m xs long) in
      ap (λ ys. take n xs ++ ys) ih ∙ take-append-drop n xs

  pub chunk-concat :
      (n : ℕ) (rs : List (List A)) → HasWidth n rs → chunk n (length rs) (concat rs) ≡ rs
  unfolding concat chunk
  chunk-concat n [] wide = refl
  chunk-concat n (r ∷ rs) wide =
      let first = take-append_of n r (concat rs) (sym wide.0) in
      let rest = drop-append_of n r (concat rs) (sym wide.0) in
      rw first (rw rest (ap (λ s. r ∷ s) (chunk-concat n rs wide.1)))

  pub length-concat :
      (n : ℕ) (rs : List (List A)) → HasWidth n rs → length (concat rs) ≡ length rs * n
  unfolding concat
  length-concat n [] wide = ground arith
  length-concat n (r ∷ rs) wide =
      ground (arith, length-append r (concat rs), length-concat n rs wide.1, wide.0)
