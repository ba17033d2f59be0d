-- ===== src/Core/Adapters/Vllm/Blocks.antt =====
-- What `encode` of src/chen/backends/vllm.py reads out of the paged cache.
use chen.Common.{
  ℕ, zero, suc, ◌+◌, ◌-◌, ◌*◌, ◌≤◌, ◌<◌, ◌≡◌, refl, ap, ◌∙◌, true, Text, Option, none, some, List,
  [], ◌∷◌, length, length-map, map, get_elem?, arith, get_elem?-append_left, get_elem?-append_right,
  get_elem?-take, length-take_of, length-append, last?,
}
use chen.Common.Result.{ok}
use chen.Core.Expert.{Tensor, KvCache}
use chen.Core.Adapters.{fits}
use chen.Core.Adapters.Arrays.{concat}
use chen.Core.Adapters.Fitting.{IsCache, new_cache-same}
use chen.Core.Adapters.Vllm.{
  VllmLibrary, VllmBackend, PagedLayer, paged_rows, gather, extract, encode_with,
}

-- The row in slot `s` of the block that stands at `i` in the table.
abbrev pub slot : (ℕ → List (List ℕ)) → List ℕ → ℕ → ℕ → Option (List ℕ)
slot block table i s = elim (get_elem? table i) [ none ↦ none | some b ↦ get_elem? (block b) s ]

module _ (block : ℕ → List (List ℕ)) (size : ℕ) (sized : (b : ℕ) → length (block b) ≡ size) where
  get_elem?-concat :
      (table : List ℕ) (i s : ℕ)
      → s < size
      → get_elem? (concat (map block table)) (i * size + s) ≡ slot block table i s
  unfolding concat
  get_elem?-concat [] i s less = refl
  get_elem?-concat (b ∷ table) zero s less =
      let at =
        get_elem?-append_left (block b) (concat (map block table)) s (omega (arith, sized b)) in
      ground (arith, at)
  get_elem?-concat (b ∷ table) (suc i) s less =
      let k = i * size + s in
      let long : suc i * size + s ≡ length (block b) + k = ground (arith, sized b) in
      get_elem?-append_right (block b) (concat (map block table)) k (suc i * size + s) long
      ∙ get_elem?-concat table i s less

  length-concat-map : (table : List ℕ) → length (concat (map block table)) ≡ length table * size
  unfolding concat
  length-concat-map [] = ground arith
  length-concat-map (b ∷ table) =
      ground (
        arith,
        length-append (block b) (concat (map block table)),
        sized b,
        length-concat-map table,
      )

  -- Where the table has a slot for every token and every block has as many rows as a block holds,
  -- there is a row for each token, and token number `i * size + s` has the row in slot `s` of the
  -- block at `i` in the table.
  pub paged_rows_lem :
      (table : List ℕ) (len : ℕ)
      → len ≤ length table * size
      → (length (paged_rows len block table) ≡ len)
        × ((i s : ℕ)
            → s < size
            → i * size + s < len
            → get_elem? (paged_rows len block table) (i * size + s) ≡ slot block table i s)
  unfolding paged_rows
  paged_rows_lem table len fits =
      let all = concat (map block table) in
      let long = length-concat-map table in
      (
        length-take_of len all (omega (arith, long)),
        λ i s less within.
            get_elem?-take all (i * size + s) len within ∙ get_elem?-concat table i s less,
      )

extract_lem :
    (f : ℕ → ℕ) (len b : ℕ) (table : List ℕ) (ls : List PagedLayer)
    → extract f len (b ∷ table) ls
      ≡ ok (
          map
            (λ l.
              (gather f l len l.key_block (b ∷ table), gather f l len l.value_block (b ∷ table)))
            ls)
unfolding extract
extract_lem f len b table [] = refl
extract_lem f len b table (l ∷ ls) = ground (arith, extract_lem f len b table ls)

-- What `encode` makes of rows.
abbrev pub array_of : (ℕ → ℕ) → PagedLayer → List (List ℕ) → Tensor
array_of f l rows = record {
  shape = length rows ∷ l.heads ∷ l.head_size ∷ [];
  items = map f (concat rows);
}

-- The array of each layer has a row for each of `len` tokens, and the row of token number
-- `i * size + s` is that in slot `s` of the block at `i` in the table.
abbrev pub HoldsTokens :
    (ℕ → ℕ)
    → ℕ
    → ℕ
    → List ℕ
    → List PagedLayer
    → (PagedLayer → ℕ → List (List ℕ))
    → List Tensor
    → Type 0
HoldsTokens f size len table ls block arrays =
    (j : ℕ) (l : PagedLayer)
    → get_elem? ls j ≡ some l
    → (rows : List (List ℕ)) × (get_elem? arrays j ≡ some (array_of f l rows))
      × (length rows ≡ len)
      × ((i s : ℕ)
          → s < size
          → i * size + s < len
          → get_elem? rows (i * size + s) ≡ slot (block l) table i s)

-- Every block of a layer holds `size` tokens.
abbrev pub IsPaged : ℕ → (PagedLayer → ℕ → List (List ℕ)) → List PagedLayer → Type 0
IsPaged size block ls =
    (j : ℕ) (l : PagedLayer) → get_elem? ls j ≡ some l → (n : ℕ) → length (block l n) ≡ size

get_elem?-map :
    {A B : Type 0} (f : A → B) (xs : List A) (i : ℕ) (x : A)
    → get_elem? xs i ≡ some x
    → get_elem? (map f xs) i ≡ some (f x)
get_elem?-map f [] i x here = cc
get_elem?-map f (y ∷ xs) zero x here = ground (arith, here)
get_elem?-map f (y ∷ xs) (suc i) x here = get_elem?-map f xs i x here

gathered-HoldsTokens :
    (f : ℕ → ℕ) (size len : ℕ) (table : List ℕ) (ls : List PagedLayer)
    (block : PagedLayer → ℕ → List (List ℕ))
    → len ≤ length table * size
    → IsPaged size block ls
    → HoldsTokens f size len table ls block (map (λ l. gather f l len (block l) table) ls)
unfolding gather
gathered-HoldsTokens f size len table ls block enough sized j l here =
    let (count, rows) = paged_rows_lem (block l) size (sized j l here) table len enough in
    let at = get_elem?-map (λ x. gather f x len (block x) table) ls j l here in
    (paged_rows len (block l) table, at, count, rows)

map-map :
    {A B C : Type 0} (g : B → C) (f : A → B) (xs : List A)
    → map g (map f xs) ≡ map (λ x. g (f x)) xs
map-map g f [] = refl
map-map g f (x ∷ xs) = ap (λ ys. g (f x) ∷ ys) (map-map g f xs)

-- A prompt of one token or more, for which the engine runs a prefill whose block table has a slot
-- for every token and whose blocks are all of the backend's block size, is encoded to a cache that holds the tokens of every layer and fits the model;
-- its position is that of the last token.
pub encode_with-HoldsTokens :
    {M K : Type 0} (lib : VllmLibrary M K) (b : VllmBackend M K) (prompt : Text) (ids : List ℕ)
    (m : M) (b0 : ℕ) (table : List ℕ) (ls : List PagedLayer)
    → lib.prefill m prompt ≡ ok (b0 ∷ table, ls)
    → IsPaged b.block_size (λ l. l.key_block) ls
    → IsPaged b.block_size (λ l. l.value_block) ls
    → 1 ≤ length ids
    → length ids ≤ length (b0 ∷ table) * b.block_size
    → (c : KvCache) × (encode_with lib b prompt ids m ≡ ok c)
      × IsCache c
      × (fits (lib.shape m) c ≡ true)
      × (c.source_layer_count ≡ length ls)
      × (c.position + 1 ≡ length ids)
      × (c.source_text ≡ prompt)
      × (c.source_model ≡ b.model_id)
      × HoldsTokens lib.float32 b.block_size (length ids) (b0 ∷ table) ls (λ l. l.key_block) c.keys
      × HoldsTokens lib.float32 b.block_size
          (length ids)
          (b0 ∷ table)
          ls
          (λ l. l.value_block)
          c.values
unfolding encode_with fits
encode_with-HoldsTokens lib b prompt ids m b0 table ls done keyed valued full enough =
    let shape = lib.shape m in
    let table' = b0 ∷ table in
    let key : PagedLayer → Tensor = λ l. gather lib.float32 l (length ids) l.key_block table' in
    let value : PagedLayer → Tensor = λ l. gather lib.float32 l (length ids) l.value_block table' in
    let c : KvCache = record {
      keys = map key ls;
      values = map value ls;
      source_model = b.model_id;
      source_layer_count = length ls;
      source_hidden_size = shape.heads * shape.head_size;
      source_n_heads = shape.heads;
      source_text = prompt;
      last_token_id = elim (last? ids) [ none ↦ 0 | some t ↦ t ];
      position = length ids - 1;
      layer_count_mismatch = none;
    } in
    let is : IsCache c = (length-map key ls, length-map value ls) in
    let run = extract_lem lib.float32 (length ids) b0 table ls in
    let ks = map-map (λ (p : Tensor × Tensor). p.0) (λ (l : PagedLayer). (key l, value l)) ls in
    let vs = map-map (λ (p : Tensor × Tensor). p.1) (λ (l : PagedLayer). (key l, value l)) ls in
    let size = b.block_size in
    let held_keys =
      gathered-HoldsTokens lib.float32 size (length ids) table' ls (λ l. l.key_block) enough
        keyed in
    let held_values =
      gathered-HoldsTokens lib.float32 size (length ids) table' ls (λ l. l.value_block) enough
        valued in
    (
      c,
      rw done (rw run (rw ks (rw vs (new_cache-same c is)))),
      is,
      ground arith,
      refl,
      omega arith,
      refl,
      refl,
      held_keys,
      held_values,
    )
