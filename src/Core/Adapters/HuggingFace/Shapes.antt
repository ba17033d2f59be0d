-- ===== src/Core/Adapters/HuggingFace/Shapes.antt =====
-- The shapes of the arrays in a cache that src/chen/backends/hf.py makes.
use chen.Common.{
  ℕ, ◌+◌, ◌-◌, ◌*◌, ◌≤◌, ◌≡◌, refl, sym, ap, ◌∙◌, Text, none, some, List, [], ◌∷◌, ◌++◌, length,
  length-map, map, last?, get_elem?-append_right, length-append, All, arith, append_assoc,
}
use chen.Common.Result.{ok}
use chen.Core.Expert.{Tensor, KvCache, dim, nth}
use chen.Core.Adapters.{ModelShape}
use chen.Core.Adapters.Fitting.{new_cache-same}
use chen.Core.Adapters.HuggingFace.{
  HfLibrary, PastKeyValues, normalize_shape, layer_of, layers_from, normalized,
}
use chen.Core.Adapters.HuggingFace.Methods.{cache_of}

layers_from_lem :
    (past : PastKeyValues) (before ls : List (Tensor × Tensor))
    → past.by_index ≡ some (before ++ ls)
    → layers_from past (length before) (length ls) ≡ ok ls
unfolding layers_from
layers_from_lem past before [] indexed = refl
layers_from_lem past before (l ∷ ls) indexed =
    let at = get_elem?-append_right before (l ∷ ls) 0 (length before) (omega arith) in
    let first : layer_of past (length before) ≡ ok l =
      unfold layer_of in ground (arith, indexed, at) in
    let joined = append_assoc before (l ∷ []) ls in
    let ih =
      layers_from_lem past (before ++ (l ∷ [])) ls (indexed ∙ ap (λ xs. some xs) (sym joined)) in
    let count = length-append before (l ∷ []) in
    let rest = ap (λ (n : ℕ). layers_from past n (length ls)) (sym count) ∙ ih in
    ground (arith, first, rest)

module _ (f : ℕ → ℕ) (m : ModelShape) (shape target : List ℕ) where
  -- Arrays of one shape are normalized to another.
  abbrev Normalizes : Type 0
  Normalizes =
      (items : List ℕ)
      → (t : Tensor) × (normalize_shape m.heads m.head_size shape items ≡ ok t) × (t.shape ≡ target)

  normalized_lem :
      Normalizes
      → (ts : List Tensor) → All (λ t. t.shape ≡ shape) ts
      → (us : List Tensor) × (normalized f m.heads m.head_size ts ≡ ok us)
        × (length us ≡ length ts)
        × All (λ t. t.shape ≡ target) us
  unfolding normalized
  normalized_lem each [] all = ([], refl, refl, tt)
  normalized_lem each (t ∷ ts) all =
      let (u, made, turned) = each (map f t.items) in
      let (us, done, count, shaped) = normalized_lem each ts all.1 in
      (u ∷ us, ground (arith, all.0, made, done), ground (arith, count), (turned, shaped))

dim-first :
    (i : ℕ) (target : List ℕ) (ts : List Tensor)
    → 1 ≤ length ts
    → All (λ t. t.shape ≡ target) ts
    → dim i ts ≡ nth i target
unfolding dim
dim-first i target [] full all = absurd (omega arith)
dim-first i target (t ∷ ts) full all = ap (λ s. nth i s) all.0

last?-some : (t : ℕ) (ids : List ℕ) → (u : ℕ) × (last? (t ∷ ids) ≡ some u)
last?-some t [] = (t, refl)
last?-some t (u ∷ ids) = last?-some u ids

-- A layer whose keys and values have one shape.
abbrev pub HasShape : List ℕ → List (Tensor × Tensor) → Type 0
HasShape shape ls = All (λ l. (l.0.shape ≡ shape) × (l.1.shape ≡ shape)) ls

keys-shape :
    (shape : List ℕ) (ls : List (Tensor × Tensor))
    → HasShape shape ls
    → All (λ t. t.shape ≡ shape) (map (λ l. l.0) ls)
keys-shape shape [] all = tt
keys-shape shape (l ∷ ls) all = (all.0.0, keys-shape shape ls all.1)

values-shape :
    (shape : List ℕ) (ls : List (Tensor × Tensor))
    → HasShape shape ls
    → All (λ t. t.shape ≡ shape) (map (λ l. l.1) ls)
values-shape shape [] all = tt
values-shape shape (l ∷ ls) all = (all.0.1, values-shape shape ls all.1)

-- The cache of a forward pass whose arrays are all of one shape.
pub cache_of-shape :
    {M K : Type 0} (lib : HfLibrary M K) (own prompt : Text) (t : ℕ) (ids : List ℕ) (m : ModelShape)
    (past : PastKeyValues) (ls : List (Tensor × Tensor)) (shape target : List ℕ)
    → Normalizes lib.float32 m shape target
    → past.by_index ≡ some ls
    → length ls ≡ m.layers
    → 1 ≤ m.layers
    → HasShape shape ls
    → (c : KvCache) × (cache_of lib own prompt (t ∷ ids) m past ≡ ok c)
      × (c.source_layer_count ≡ m.layers)
      × (c.position + 1 ≡ length (t ∷ ids))
      × ((i : ℕ) → dim i c.keys ≡ nth i target)
unfolding cache_of
cache_of-shape lib own prompt t ids m past ls shape target each indexed count layered all =
    let read = layers_from_lem past [] ls indexed in
    let read' : layers_from past 0 m.layers ≡ ok ls =
      ap (λ (n : ℕ). layers_from past 0 n) (sym count) ∙ read in
    let (ks, kd, kn, kall) =
      normalized_lem lib.float32 m shape target each (map (λ (l : Tensor × Tensor). l.0) ls)
        (keys-shape shape ls all) in
    let (vs, vd, vn, vall) =
      normalized_lem lib.float32 m shape target each (map (λ (l : Tensor × Tensor). l.1) ls)
        (values-shape shape ls all) in
    let (u, last) = last?-some t ids in
    let c : KvCache = record {
      keys = ks;
      values = vs;
      source_model = own;
      source_layer_count = m.layers;
      source_hidden_size = m.heads * m.head_size;
      source_n_heads = m.heads;
      source_text = prompt;
      last_token_id = u;
      position = length (t ∷ ids) - 1;
      layer_count_mismatch = none;
    } in
    let kl : length ks ≡ m.layers = kn ∙ length-map (λ (l : Tensor × Tensor). l.0) ls ∙ count in
    let vl : length vs ≡ m.layers = vn ∙ length-map (λ (l : Tensor × Tensor). l.1) ls ∙ count in
    let made = new_cache-same c (kl, vl) in
    (
      c,
      rw read' (rw kd (rw vd (rw last made))),
      refl,
      omega arith,
      λ i. dim-first i target ks (omega arith) kall,
    )
