-- ===== src/Core/Adapters/Layers.antt =====
-- The layers of a cache cut and padded to the number of a model's layers.
use chen.Common.{
  map, ℕ, zero, suc, ◌+◌, ◌-◌, ◌≤◌, ◌<◌, ◌≡◌, refl, sym, ap, Option, none, some, List, [], ◌∷◌,
  ◌++◌, length, take, get_elem?, get_elem?-take, length-take_of, tabulate, length-tabulate, arith,
  length-append, append-nil,
}
use chen.Common.Result.{ok}
use chen.Core.Expert.{Tensor}
use chen.Core.Adapters.{zeros_like, pad}

-- The layer at `i` that a model is given: the cache's, or zeros like its first.
abbrev pub layer_at : ℕ → List Tensor → Option Tensor
layer_at i ts = elim (get_elem? ts i) [
  | some t ↦ some t
  | none ↦ elim (get_elem? ts 0) [
    | none ↦ none
    | some t ↦ some (record t { items = map (λ x. 0) t.items })
  ]
]

pub get_elem?-within :
    (i : ℕ) (ts : List Tensor) → i < length ts → (t : Tensor) × (get_elem? ts i ≡ some t)
get_elem?-within i [] less = absurd (omega arith)
get_elem?-within zero (t ∷ ts) less = (t, refl)
get_elem?-within (suc i) (t ∷ ts) less = get_elem?-within i ts (omega arith)

get_elem?-same : (t : Tensor) (i lo n : ℕ) → i < n → get_elem? (tabulate (λ j. t) lo n) i ≡ some t
get_elem?-same t i lo zero less = absurd (omega arith)
get_elem?-same t zero lo (suc n) less = refl
get_elem?-same t (suc i) lo (suc n) less = get_elem?-same t i (lo + 1) n (omega arith)

-- A list followed by copies of one array.
get_elem?-padded :
    (z : Tensor) (ts : List Tensor) (n i : ℕ)
    → i < length ts + n
    → get_elem? (ts ++ tabulate (λ j. z) 0 n) i
      ≡ elim (get_elem? ts i) [ some t ↦ some t | none ↦ some z ]
get_elem?-padded z [] n i less = get_elem?-same z i 0 n (omega arith)
get_elem?-padded z (t ∷ ts) n zero less = refl
get_elem?-padded z (t ∷ ts) n (suc i) less = get_elem?-padded z ts n i (omega arith)

pub pad_lem :
    (t : Tensor) (ts : List Tensor) (n : ℕ)
    → pad (t ∷ ts) n ≡ ok ((t ∷ ts) ++ tabulate (λ i. zeros_like t) 0 n)
unfolding pad
pad_lem t ts zero = ap (λ us. ok us) (sym (append-nil (t ∷ ts)))
pad_lem t ts (suc n) = refl

-- What a list of layers becomes on a model of `n` layers.
abbrev pub IsFitted : ℕ → List Tensor → List Tensor → Type 0
IsFitted n ts us = (length us ≡ n) × ((i : ℕ) → i < n → get_elem? us i ≡ layer_at i ts)

pub take-IsFitted : (n : ℕ) (ts : List Tensor) → n ≤ length ts → IsFitted n ts (take n ts)
take-IsFitted n ts long = (
  length-take_of n ts long,
  λ i less.
      let (t, here) = get_elem?-within i ts (omega arith) in
      let same = get_elem?-take ts i n less in ground (arith, here, same),
)

pub pad-IsFitted :
    (n : ℕ) (ts : List Tensor)
    → 1 ≤ length ts
    → length ts ≤ n
    → (us : List Tensor) × (pad ts (n - length ts) ≡ ok us) × IsFitted n ts us
unfolding zeros_like
pad-IsFitted n [] full short = absurd (omega arith)
pad-IsFitted n (t ∷ ts) full short =
    let k = n - length (t ∷ ts) in
    let zs = tabulate (λ (i : ℕ). zeros_like t) 0 k in
    (
      (t ∷ ts) ++ zs,
      pad_lem t ts k,
      (
        ground (arith, length-append (t ∷ ts) zs, length-tabulate (λ (i : ℕ). zeros_like t) 0 k),
        λ i less. get_elem?-padded (zeros_like t) (t ∷ ts) k i (omega arith),
      ),
    )

pub pad-append :
    (ts : List Tensor) (n : ℕ)
    → 1 ≤ length ts
    → (zs : List Tensor) × (pad ts n ≡ ok (ts ++ zs)) × (length (ts ++ zs) ≡ length ts + n)
pad-append [] n full = absurd (omega arith)
pad-append (t ∷ ts) n full =
    let zs = tabulate (λ (i : ℕ). zeros_like t) 0 n in
    let count = length-tabulate (λ (i : ℕ). zeros_like t) 0 n in
    (zs, pad_lem t ts n, ground (arith, length-append (t ∷ ts) zs, count))
