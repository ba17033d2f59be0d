-- ===== src/Core/Adapters/Axes.antt =====
-- The exchange of the first two axes of an array of three, twice.
use chen.Common.{
  ℕ, zero, suc, ◌*◌, ◌≡◌, refl, sym, ap, ◌∙◌, List, [], ◌∷◌, length, drop, All, All-append,
  All-take, arith,
}
use chen.Core.Adapters.Arrays.{
  chunk, concat, firsts, rests, columns, HasWidth, length-columns, columns-columns, length-chunk,
  chunk-HasWidth, concat-chunk, chunk-concat, length-concat,
}

-- The items of an array of shape `a`, `b`, `d` after `transpose(1, 0, 2)`
unfoldable pub swap_axes : ℕ → ℕ → ℕ → List ℕ → List ℕ
unfolding chunk concat columns
swap_axes a b d items = concat (concat (columns b (chunk b a (chunk d (a * b) items))))

module _ {A : Type 0} where
  module _ (P : A → Type 0) where
    All-drop : (n : ℕ) (xs : List A) → All P xs → All P (drop n xs)
    All-drop zero xs all = all
    All-drop (suc n) [] all = tt
    All-drop (suc n) (x ∷ xs) all = All-drop n xs all.1

    All-chunk : (n m : ℕ) (xs : List A) → All P xs → All (All P) (chunk n m xs)
    unfolding chunk
    All-chunk n zero xs all = tt
    All-chunk n (suc m) xs all =
        (All-take P n xs all, All-chunk n m (drop n xs) (All-drop n xs all))

    All-concat : (rs : List (List A)) → All (All P) rs → All P (concat rs)
    unfolding concat
    All-concat [] all = tt
    All-concat (r ∷ rs) all = All-append P r (concat rs) all.0 (All-concat rs all.1)

    All-firsts : (rs : List (List A)) → All (All P) rs → All P (firsts rs)
    unfolding firsts
    All-firsts [] all = tt
    All-firsts ([] ∷ rs) all = All-firsts rs all.1
    All-firsts ((x ∷ r) ∷ rs) all = (all.0.0, All-firsts rs all.1)

    All-rests : (rs : List (List A)) → All (All P) rs → All (All P) (rests rs)
    unfolding rests
    All-rests [] all = tt
    All-rests ([] ∷ rs) all = (tt, All-rests rs all.1)
    All-rests ((x ∷ r) ∷ rs) all = (all.0.1, All-rests rs all.1)

    All-columns : (n : ℕ) (rs : List (List A)) → All (All P) rs → All (All P) (columns n rs)
    unfolding columns
    All-columns zero rs all = tt
    All-columns (suc n) rs all = (All-firsts rs all, All-columns n (rests rs) (All-rests rs all))

  length-firsts :
      (n : ℕ) (rs : List (List A)) → HasWidth (suc n) rs → length (firsts rs) ≡ length rs
  unfolding firsts
  length-firsts n [] wide = refl
  length-firsts n ([] ∷ rs) wide = absurd (omega arith)
  length-firsts n ((x ∷ r) ∷ rs) wide = ap (λ k. suc k) (length-firsts n rs wide.1)

  length-rests : (rs : List (List A)) → length (rests rs) ≡ length rs
  unfolding rests
  length-rests [] = refl
  length-rests ([] ∷ rs) = ap (λ k. suc k) (length-rests rs)
  length-rests ((x ∷ r) ∷ rs) = ap (λ k. suc k) (length-rests rs)

  rests-HasWidth : (n : ℕ) (rs : List (List A)) → HasWidth (suc n) rs → HasWidth n (rests rs)
  unfolding rests
  rests-HasWidth n [] wide = tt
  rests-HasWidth n ([] ∷ rs) wide = absurd (omega arith)
  rests-HasWidth n ((x ∷ r) ∷ rs) wide = (omega arith, rests-HasWidth n rs wide.1)

  columns-HasWidth :
      (n k : ℕ) (rs : List (List A)) → HasWidth n rs → length rs ≡ k → HasWidth k (columns n rs)
  unfolding columns
  columns-HasWidth zero k rs wide same = tt
  columns-HasWidth (suc n) k rs wide same = (
    length-firsts n rs wide ∙ same,
    columns-HasWidth n k (rests rs) (rests-HasWidth n rs wide) (length-rests rs ∙ same),
  )

module _ (a b d : ℕ) (xs : List ℕ) (long : length xs ≡ a * b * d) where
  abbrev rows : List (List ℕ)
  rows = chunk d (a * b) xs

  abbrev turned : List (List (List ℕ))
  turned = columns b (chunk b a rows)

  matrix-HasWidth : HasWidth b (chunk b a rows)
  matrix-HasWidth = chunk-HasWidth b a rows (length-chunk d (a * b) xs)

  turned-HasWidth : HasWidth a turned
  turned-HasWidth = columns-HasWidth b a (chunk b a rows) matrix-HasWidth (length-chunk b a rows)

  wide : HasWidth d (concat turned)
  wide =
      let P : List ℕ → Type 0 = λ r. length r ≡ d in
      let cut = All-chunk P b a rows (chunk-HasWidth d (a * b) xs long) in
      All-concat P turned (All-columns P b (chunk b a rows) cut)

  length-turned : length (concat turned) ≡ b * a
  length-turned =
      length-concat a turned turned-HasWidth
      ∙ ap (λ (k : ℕ). k * a) (length-columns b (chunk b a rows))

  pub length-swap_axes : length (swap_axes a b d xs) ≡ b * a * d
  unfolding swap_axes
  length-swap_axes = length-concat d (concat turned) wide ∙ ap (λ (k : ℕ). k * d) length-turned

  -- Exchanging the axes back gives the items as they were.
  pub swap_axes-swap_axes : swap_axes b a d (swap_axes a b d xs) ≡ xs
  unfolding swap_axes
  swap_axes-swap_axes =
      let matrix = chunk b a rows in
      let flat = concat turned in
      let e1 : chunk d (b * a) (concat flat) ≡ flat =
        ap (λ k. chunk d k (concat flat)) (sym length-turned) ∙ chunk-concat d flat wide in
      let e2 : chunk a b flat ≡ turned =
        ap (λ k. chunk a k flat) (sym (length-columns b matrix))
        ∙ chunk-concat a turned turned-HasWidth in
      let e3 : columns a turned ≡ matrix =
        ap (λ k. columns k turned) (sym (length-chunk b a rows))
        ∙ columns-columns b matrix matrix-HasWidth in
      let e4 : concat matrix ≡ rows = concat-chunk b a rows (length-chunk d (a * b) xs) in
      let e5 : concat rows ≡ xs = concat-chunk d (a * b) xs long in
      ap (λ r. concat (concat (columns a (chunk a b r)))) e1
      ∙ ap (λ r. concat (concat (columns a r))) e2
      ∙ ap (λ r. concat (concat r)) e3
      ∙ ap (λ r. concat r) e4
      ∙ e5
