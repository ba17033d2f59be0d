-- ===== src/Core/Adapters/HuggingFace/Axes.antt =====
-- The axes of the arrays that `encode` of src/chen/backends/hf.py puts into a cache.
use chen.Common.{
  ℕ, ◌+◌, ◌*◌, ◌/◌, ◌≤◌, ◌≡◌, refl, ◌∙◌, Text, true, some, List, [], ◌∷◌, length, take, arith,
}
use chen.Common.Result.{ok}
use chen.Core.Expert.{Tensor, KvCache, seq_len, n_heads, head_dim, nth, is_compatible_with}
use chen.Core.Adapters.{ModelShape}
use chen.Core.Adapters.HuggingFace.{HfLibrary, PastKeyValues, normalize_shape, swap_inner}
use chen.Core.Adapters.HuggingFace.Methods.{shape_of, cache_of, encode_with}
use chen.Core.Adapters.HuggingFace.Shapes.{HasShape, cache_of-shape}

module _ {M K : Type 0} (lib : HfLibrary M K) (own prompt : Text) (m : M) (k : K) (t : ℕ)
    (ids : List ℕ) (past : PastKeyValues) (ls : List (Tensor × Tensor))
    (tokens : lib.input_ids k prompt ≡ t ∷ ids) (ran : lib.forward m (t ∷ ids) ≡ ok (some past))
    (indexed : past.by_index ≡ some ls) (count : length ls ≡ lib.num_hidden_layers m)
    (layered : 1 ≤ lib.num_hidden_layers m) (headed : 1 ≤ lib.num_attention_heads m) where
  abbrev own_shape : ModelShape
  own_shape = record {
    layers = lib.num_hidden_layers m;
    heads = lib.num_attention_heads m;
    head_size = lib.hidden_size m / lib.num_attention_heads m;
  }

  encode_with-cache_of :
      encode_with lib own prompt m k ≡ cache_of lib own prompt (t ∷ ids) own_shape past
  unfolding encode_with shape_of
  encode_with-cache_of = ground (arith, tokens, ran, headed)

  -- Where a forward pass gives for each layer of the model, one or more, arrays with the axes batch,
  -- which is 1, heads, tokens and head size, `encode` makes a cache that tells the number of heads as
  -- its length, the head size as its heads, and the number of tokens as the size of a head.
  pub four_axes :
      (heads size : ℕ)
      → HasShape (1 ∷ heads ∷ length (t ∷ ids) ∷ size ∷ []) ls
      → (c : KvCache) × (encode_with lib own prompt m k ≡ ok c)
        × (c.position + 1 ≡ length (t ∷ ids))
        × (seq_len c ≡ heads)
        × (n_heads c ≡ size)
        × (head_dim c ≡ length (t ∷ ids))
  unfolding seq_len n_heads head_dim nth normalize_shape
  four_axes heads size shaped =
      let len = length (t ∷ ids) in
      let (c, made, layers, position, dims) =
        cache_of-shape lib own prompt t ids own_shape past ls (1 ∷ heads ∷ len ∷ size ∷ [])
          (heads ∷ size ∷ len ∷ [])
          (λ items. (
            record {
              shape = heads ∷ size ∷ len ∷ [];
              items = swap_inner heads len size (take (heads * len * size) items);
            },
            refl,
            refl,
          ))
          indexed count layered shaped in
      (c, encode_with-cache_of ∙ made, position, dims 0, dims 1, dims 2)

  -- From arrays with the axes batch, tokens and all heads a cache is made that is compatible with
  -- the model's own shape and as long as the tokens.
  pub three_axes :
      HasShape (1 ∷ length (t ∷ ids) ∷ (own_shape.heads * own_shape.head_size) ∷ []) ls
      → (c : KvCache) × (encode_with lib own prompt m k ≡ ok c)
        × (c.position + 1 ≡ seq_len c)
        × (seq_len c ≡ length (t ∷ ids))
        × (is_compatible_with own_shape.layers own_shape.heads own_shape.head_size c ≡ true)
  unfolding seq_len nth normalize_shape is_compatible_with n_heads head_dim
  three_axes shaped =
      let len = length (t ∷ ids) in
      let heads = own_shape.heads in
      let size = own_shape.head_size in
      let (c, made, layers, position, dims) =
        cache_of-shape lib own prompt t ids own_shape past ls (1 ∷ len ∷ (heads * size) ∷ [])
          (len ∷ heads ∷ size ∷ [])
          (λ items. (
            record { shape = len ∷ heads ∷ size ∷ []; items = take (len * (heads * size)) items },
            ground arith,
            refl,
          ))
          indexed count layered shaped in
      let d0 = dims 0 in
      let d1 = dims 1 in
      let d2 = dims 2 in
      (
        c,
        encode_with-cache_of ∙ made,
        ground (arith, position, d0),
        d0,
        ground (arith, layers, d1, d2),
      )
