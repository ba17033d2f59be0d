-- ===== src/Core/Router/Keywords.antt =====
-- The counting of keywords by the routers of src/chen/core/router.py.
use chen.Common.{
  starts_with, ℕ, zero, suc, ◌+◌, ◌-◌, ◌*◌, ◌≤◌, ◌≡◌, inl, inr, Text, true, [], ◌∷◌, length, arith,
  Bool-cases,
}
use chen.Core.Router.Scores.{count_from}

starts_with-le : (k t : Text) → starts_with k t ≡ true → length k ≤ length t
unfolding starts_with
starts_with-le [] t hit = omega arith
starts_with-le (x ∷ k) [] hit = absurd (cc)
starts_with-le (x ∷ k) (y ∷ t) hit = elim (Bool-cases (starts_with k t)) [
  | inl rest ↦ omega (arith, starts_with-le k t rest)
  | inr miss ↦ absurd (ground (arith, miss, hit))
]

-- What is counted after `skip` codes takes up codes of its own.
count_bound :
    (keyword : Text) (skip : ℕ) (text : Text)
    → 1 ≤ length keyword
    → skip ≤ length text
    → count_from keyword skip text * length keyword + skip ≤ length text
unfolding count_from
count_bound keyword zero [] full h = ground arith
count_bound keyword (suc skip) [] full h = absurd (omega arith)
count_bound keyword (suc skip) (c ∷ text) full h =
    let ih = count_bound keyword skip text full (omega arith) in ground (arith, ih)
count_bound keyword zero (c ∷ text) full h = elim (Bool-cases (starts_with keyword (c ∷ text))) [
  | inl hit ↦
      let fits = starts_with-le keyword (c ∷ text) hit in
      let ih = count_bound keyword (length keyword - 1) text full (omega (arith, fits)) in
      let l = length keyword in
      let n = count_from keyword (l - 1) text in
      let sum : n * l + l ≤ suc (length text) = omega (arith, ih) in
      let e : (1 + n) * l ≡ n * l + l = ground arith in rw hit (omega (arith, sum, e))
  | inr miss ↦ let ih = count_bound keyword 0 text full (omega arith) in ground (arith, miss, ih)
]

-- The matches of a keyword that is not empty do not overlap: all of them together are no longer than
-- the text.
pub count_from_le :
    (keyword text : Text)
    → 1 ≤ length keyword
    → count_from keyword 0 text * length keyword ≤ length text
count_from_le keyword text full =
    let bound = count_bound keyword 0 text full (omega arith) in ground (arith, bound)
