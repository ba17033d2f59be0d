-- ===== src/Core/Adapters/LlamaCpp/Layout.antt =====
-- The flat cache of llama.cpp and the arrays of a `KVCache` (src/chen/backends/llama_cpp.py).
use chen.Common.{
  ℕ, zero, suc, ◌+◌, ◌-◌, ◌*◌, ◌≤◌, ◌≡◌, refl, sym, ap, ◌∙◌, Text, none, some, List, [], ◌∷◌, ◌++◌,
  length, length-map, length-append, take, drop, map, last?, take-length, length-drop,
  length-take_of, take-append-drop, append_assoc, arith, true, leb,
}
use chen.Common.Result.{Result, ok}
use chen.Core.Expert.{CoreError, Tensor, KvCache, seq_len, dim, nth}
use chen.Core.Adapters.{pad}
use chen.Core.Adapters.Arrays.{chunk, concat, HasWidth, chunk-HasWidth, concat-chunk, length-chunk}
use chen.Core.Adapters.Axes.{swap_axes, swap_axes-swap_axes}
use chen.Core.Adapters.Fitting.{new_cache-same}
use chen.Core.Adapters.LlamaCpp.{
  LlamaLibrary, ModelConfig, transpose, plane, plane_size, layers_of, keys_of, values_of, place,
  interleave, restack,
}
use chen.Core.Adapters.LlamaCpp.Methods.{cache_of, read_kv, write_back}

-- numpy copies an array into a part of its own shape.
abbrev pub Copies : (List ℕ → Tensor → Result CoreError (List ℕ)) → Type 0
Copies assign = (shape : List ℕ) (t : Tensor) → t.shape ≡ shape → assign shape t ≡ ok t.items

module _ (assign : List ℕ → Tensor → Result CoreError (List ℕ)) (copies : Copies assign)
    (config : ModelConfig) where
  place-plane :
      (len : ℕ) (items : List ℕ)
      → length items ≡ plane_size config len
      → place assign config len (plane config len items) ≡ ok items
  unfolding place plane transpose plane_size
  place-plane len items long =
      let heads = config.n_head_kv in
      let size = config.head_dim in
      let back = swap_axes-swap_axes heads len size items long in
      let turned : Tensor = record {
        shape = heads ∷ len ∷ size ∷ [];
        items = swap_axes len heads size (swap_axes heads len size items);
      } in
      copies (heads ∷ len ∷ size ∷ []) turned refl ∙ ap (λ xs. ok xs) back

  interleave-step :
      (len n : ℕ) (k v : Tensor) (keys values : List Tensor) (a b r : List ℕ)
      → place assign config len k ≡ ok a
      → place assign config len v ≡ ok b
      → interleave assign config len n keys values ≡ ok r
      → interleave assign config len (suc n) (k ∷ keys) (v ∷ values) ≡ ok (a ++ (b ++ r))
  unfolding interleave
  interleave-step len n k v keys values a b r key value rest = ground (arith, key, value, rest)

  interleave-layers :
      (len : ℕ) (ls : List (List ℕ))
      → HasWidth (2 * plane_size config len) ls
      → interleave assign config len
          (length ls)
          (map (keys_of config len) ls)
          (map (values_of config len) ls)
        ≡ ok (concat ls)
  unfolding interleave keys_of values_of concat
  interleave-layers len [] wide = refl
  interleave-layers len (l ∷ ls) wide =
      let size = plane_size config len in
      let first : length (take size l) ≡ size = length-take_of size l (omega (arith, wide.0)) in
      let second : length (drop size l) ≡ size = omega (arith, wide.0, length-drop size l) in
      let key = place-plane len (take size l) first in
      let value = place-plane len (drop size l) second in
      let rest = interleave-layers len ls wide.1 in
      let whole = take-append-drop size l in
      let joined = append_assoc (take size l) (drop size l) (concat ls) in
      interleave-step len (length ls) (keys_of config len l) (values_of config len l)
        (map (keys_of config len) ls) (map (values_of config len) ls) (take size l) (drop size l)
        (concat ls) key value rest
      ∙ ap (λ xs. ok xs) (sym joined ∙ ap (λ xs. xs ++ concat ls) whole)

  -- A cache of as many layers as the model has is neither cut nor padded.
  restack-whole :
      (c : KvCache)
      → length c.keys ≡ config.n_layer
      → length c.values ≡ config.n_layer
      → restack assign config c
        ≡ interleave assign config (seq_len c) config.n_layer c.keys c.values
  unfolding restack pad
  restack-whole c ks vs =
      let keys = take-length config.n_layer c.keys (omega arith) in
      let values = take-length config.n_layer c.values (omega arith) in
      let missing : config.n_layer - length (take config.n_layer c.keys) ≡ 0 =
        ground (arith, ap (λ (xs : List Tensor). length xs) keys) in
      rw missing (rw keys (rw values refl))

  first_len :
      (len n : ℕ) (size : ℕ) (kv : List ℕ)
      → 1 ≤ n
      → dim 0 (map (keys_of config len) (chunk size n kv)) ≡ len
  unfolding dim nth keys_of plane chunk
  first_len len zero size kv layered = absurd (omega arith)
  first_len len (suc n) size kv layered = refl

  -- Where numpy copies arrays of the shape of their place, a flat cache with all entries of one layer
  -- or more for one token or more is made into a cache whose position is that of its last token, and
  -- which `decode` puts back into the same flat cache.
  pub restack-cache_of :
      (own prompt : Text) (t : ℕ) (ids : List ℕ) (kv : List ℕ)
      → 1 ≤ config.n_layer
      → length kv ≡ config.n_layer * (2 * plane_size config (length (t ∷ ids)))
      → (c : KvCache) × (cache_of own prompt config (t ∷ ids) kv ≡ ok c)
        × (c.position + 1 ≡ seq_len c)
        × (restack assign config c ≡ ok kv)
  unfolding cache_of layers_of seq_len
  restack-cache_of own prompt t ids kv layered long =
      let len = length (t ∷ ids) in
      let size = 2 * plane_size config len in
      let layers = chunk size config.n_layer kv in
      let count = length-chunk size config.n_layer kv in
      let c : KvCache = record {
        keys = map (keys_of config len) layers;
        values = map (values_of config len) layers;
        source_model = own;
        source_layer_count = config.n_layer;
        source_hidden_size = config.n_head_kv * config.head_dim;
        source_n_heads = config.n_head_kv;
        source_text = prompt;
        last_token_id = elim (last? (t ∷ ids)) [ none ↦ 0 | some t ↦ t ];
        position = len - 1;
        layer_count_mismatch = none;
      } in
      let ks = length-map (keys_of config len) layers ∙ count in
      let vs = length-map (values_of config len) layers ∙ count in
      let first = first_len len config.n_layer size kv layered in
      let cut = chunk-HasWidth size config.n_layer kv long in
      let whole = concat-chunk size config.n_layer kv long in
      let filled = interleave-layers len layers cut in
      (
        c,
        new_cache-same c (ks, vs),
        ground (arith, first),
        restack-whole c ks vs
            ∙ ap (λ (k : ℕ). interleave assign config k config.n_layer c.keys c.values) first
            ∙ ap (λ (k : ℕ). interleave assign config len k c.keys c.values) (sym count)
            ∙ filled
            ∙ ap (λ xs. ok xs) whole,
      )

halves_of :
    (f : List ℕ → ℕ) (bytes rest : List ℕ) (n : ℕ)
    → length bytes ≡ 4
    → map f (chunk 2 (suc (suc n)) (bytes ++ rest))
      ≡ f (take 2 bytes) ∷ f (drop 2 bytes) ∷ map f (chunk 2 n rest)
unfolding chunk
halves_of f (a ∷ b ∷ c ∷ d ∷ []) rest n four = refl
halves_of f (a ∷ b ∷ c ∷ d ∷ e ∷ bytes) rest n four = absurd (omega arith)
halves_of f (a ∷ b ∷ c ∷ []) rest n four = absurd (omega arith)
halves_of f (a ∷ b ∷ []) rest n four = absurd (omega arith)
halves_of f (a ∷ []) rest n four = absurd (omega arith)
halves_of f [] rest n four = absurd (omega arith)

length-concat_bytes :
    (f : ℕ → List ℕ) (flat : List ℕ)
    → ((n : ℕ) → length (f n) ≡ 4)
    → length (concat (map f flat)) ≡ 4 * length flat
unfolding concat
length-concat_bytes f [] four = refl
length-concat_bytes f (x ∷ flat) four =
    let both = length-append (f x) (concat (map f flat)) in
    omega (arith, both, four x, length-concat_bytes f flat four)

same_first :
    (r : Result CoreError (List ℕ)) (x y : ℕ) (xs ys : List ℕ)
    → r ≡ ok (x ∷ xs)
    → r ≡ ok (y ∷ ys)
    → x ≡ y
same_first r x y xs ys h k = ground (arith, h, k)

-- Where the context has the methods for bytes and gives back the bytes that it was given, each float
-- of a cache of two entries or more that `decode` writes is four bytes, and `encode` reads every two
-- bytes as an entry: if the first half of the first float, read so, is another number than the float,
-- the cache is not read back as it was written; its first two entries come out of the two halves of the
-- first float.
pub written_as_floats_read_as_halves :
    {M : Type 0} (lib : LlamaLibrary M) (m later : M) (x y : ℕ) (flat : List ℕ)
    → ((n : ℕ) → length (lib.float_bytes n) ≡ 4)
    → lib.set_kv_cache m (concat (map lib.float_bytes (x ∷ y ∷ flat))) ≡ some later
    → lib.get_kv_cache later ≡ some (concat (map lib.float_bytes (x ∷ y ∷ flat)))
    → ¬ (lib.float16 (take 2 (lib.float_bytes x)) ≡ x)
    → ¬ (read_kv lib (write_back lib m (x ∷ y ∷ flat)) (length (x ∷ y ∷ flat)) ≡ ok (x ∷ y ∷ flat))
      × (rest : List ℕ) × (read_kv lib (write_back lib m (x ∷ y ∷ flat)) (length (x ∷ y ∷ flat))
          ≡ ok (
              lib.float16 (take 2 (lib.float_bytes x))
              ∷ lib.float16 (drop 2 (lib.float_bytes x))
              ∷ rest))
unfolding read_kv write_back
written_as_floats_read_as_halves lib m later x y flat four set get other =
    let bytes = concat (map lib.float_bytes (x ∷ y ∷ flat)) in
    let n = length flat in
    let rest = concat (map lib.float_bytes (y ∷ flat)) in
    let count = length-concat_bytes lib.float_bytes (x ∷ y ∷ flat) four in
    let halved = halves_of lib.float16 (lib.float_bytes x) rest n (four x) in
    let written : write_back lib m (x ∷ y ∷ flat) ≡ later = ground (arith, set) in
    let enough : leb (2 * suc (suc n)) (length bytes) ≡ true = ground (arith, count) in
    let read : read_kv lib later (suc (suc n))
        ≡ ok (map lib.float16 (chunk 2 (suc (suc n)) bytes)) =
      ground (arith, get, enough) in
    let done = ap (λ k. read_kv lib k (suc (suc n))) written ∙ read ∙ ap (λ es. ok es) halved in
    let entries = map lib.float16 (chunk 2 n rest) in
    let low = lib.float16 (take 2 (lib.float_bytes x)) in
    let high = lib.float16 (drop 2 (lib.float_bytes x)) in
    let found = read_kv lib (write_back lib m (x ∷ y ∷ flat)) (suc (suc n)) in
    (λ same. other (same_first found low x (high ∷ entries) (y ∷ flat) done same), entries, done)
