-- ===== src/Core/Adapters/HuggingFace.antt =====
-- src/chen/backends/hf.py. PyTorch and transformers are the parameter `HfLibrary`; the methods are
-- called without further keywords, so sampling is greedy.
pub mod Methods
pub mod Shapes
pub mod Axes
pub mod Serving
pub mod Transfers
use chen.Common.{
  ℕ, zero, suc, ◌+◌, ◌-◌, ◌*◌, ◌/◌, Text, codes, Bool, true, false, Option, none, some, List, [],
  ◌∷◌, ◌++◌, eqb, ltb, length, take, drop, map, last?, get_elem?, if◌then◌else◌, ◌==◌, codes_key,
}
use chen.Common.Result.{Result, ok, raised, ◌>>=◌}
use chen.Core.Expert.{
  CoreError, value_error, runtime_error, index_error, zero_division, incompatible_cache,
  config_error, not_available, Tensor, KvCache, new_cache,
}
use chen.Core.Adapters.{
  BackendCapabilities, ModelShape, fits, truncated, padded, transferred_prefix, with_model,
}
use chen.Core.Adapters.Arrays.{chunk, concat, columns}

-- What a forward pass returns: the layers by an index, where it has one, and the two lists of a
-- `DynamicCache`, where it is one.
pub record PastKeyValues : Type 0 where
  pub by_index : Option (List (Tensor × Tensor))
  pub key_cache : Option (List Tensor)
  pub value_cache : Option (List Tensor)

pub record HuggingFaceBackend (M K : Type 0) : Type 0 where
  pub model_id : Text
  pub device : Text
  pub params_m : ℕ
  pub model : Option M
  pub tokenizer : Option K
  pub params_m_resolved : ℕ

-- `M` is a model and `K` a tokenizer; `none` is an exception, or no cache from `forward`. `generate_ids`
-- gives the tokens of the prompt and the new ones, `decode_ids` the text of tokens, `numel` the
-- number of parameters, and `float32` is `astype("float32")` of an entry.
pub record HfLibrary (M K : Type 0) : Type 0 where
  pub installed : Bool
  pub load_tokenizer : Text → Option K
  pub load_model : Text → Option M
  pub has_cuda : Bool
  pub has_mps : Bool
  pub move : M → Text → Result CoreError M
  pub numel : M → ℕ
  pub num_hidden_layers : M → ℕ
  pub num_attention_heads : M → ℕ
  pub hidden_size : M → ℕ
  pub input_ids : K → Text → List ℕ
  pub decode_ids : K → List ℕ → Text
  pub generate_ids : M → List ℕ → ℕ → Result CoreError (List ℕ)
  pub forward : M → List ℕ → Result CoreError (Option PastKeyValues)
  pub float32 : ℕ → ℕ

-- The items of an array of shape `a`, `b`, `d` after `transpose(0, 2, 1)`
unfoldable pub swap_inner : ℕ → ℕ → ℕ → List ℕ → List ℕ
unfolding chunk concat columns
swap_inner a b d items =
    concat (map (λ m. concat (columns d (chunk d b m))) (chunk (b * d) a items))

-- `_normalize_shape` of an array of this shape with these items
unfoldable pub normalize_shape : ℕ → ℕ → List ℕ → List ℕ → Result CoreError Tensor
unfolding swap_inner
normalize_shape heads size (batch ∷ a ∷ b ∷ d ∷ []) items =
    if eqb batch 0
    then raised index_error
    else ok (record { shape = a ∷ d ∷ b ∷ []; items = swap_inner a b d (take (a * b * d) items) })
normalize_shape heads size (batch ∷ len ∷ hidden ∷ []) items =
    if eqb batch 0
    then raised index_error
    else if eqb (len * heads * size) (len * hidden)
    then ok (record { shape = len ∷ heads ∷ size ∷ []; items = take (len * hidden) items })
    else raised value_error
normalize_shape heads size shape items = ok (record { shape = shape; items = items })

-- An item of a list that may not be there
item : Option (List Tensor) → ℕ → Result CoreError Tensor
item none i = raised runtime_error
item (some ts) i = elim (get_elem? ts i) [ none ↦ raised index_error | some t ↦ ok t ]

-- The list of a `DynamicCache`, where indexing fails
by_lists : PastKeyValues → ℕ → Result CoreError (Tensor × Tensor)
unfolding item
by_lists past i = do k ← item past.key_cache i; v ← item past.value_cache i; ok (k, v)

-- The keys and the values of a layer
unfoldable pub layer_of : PastKeyValues → ℕ → Result CoreError (Tensor × Tensor)
unfolding by_lists
layer_of past i = elim past.by_index [
  | none ↦ by_lists past i
  | some layers ↦ elim (get_elem? layers i) [ none ↦ by_lists past i | some kv ↦ ok kv ]
]

unfoldable pub layers_from : PastKeyValues → ℕ → ℕ → Result CoreError (List (Tensor × Tensor))
unfolding layer_of
layers_from past i zero = ok []
layers_from past i (suc n) = do
  kv ← layer_of past i
  rest ← layers_from past (i + 1) n
  ok (kv ∷ rest)

-- The arrays of all layers, each converted and normalized.
unfoldable pub normalized : (ℕ → ℕ) → ℕ → ℕ → List Tensor → Result CoreError (List Tensor)
unfolding normalize_shape
normalized float32 heads size [] = ok []
normalized float32 heads size (t ∷ ts) = do
  first ← normalize_shape heads size t.shape (map float32 t.items)
  rest ← normalized float32 heads size ts
  ok (first ∷ rest)

unfoldable pub capabilities : BackendCapabilities
capabilities = record {
  supports_kv_cache = true;
  supports_streaming = true;
  supports_batching = true;
  deterministic = false;
}

-- `transfer_cache` with the shape of the model at hand; a new cache has metadata of its own.
unfoldable pub transfer_to : ModelShape → KvCache → Result CoreError KvCache
unfolding fits truncated padded
transfer_to m c =
    let bare : KvCache = record c { layer_count_mismatch = none } in
    if fits m c
    then if eqb c.source_layer_count m.layers
      then ok c
      else if ltb m.layers c.source_layer_count
      then truncated m.layers bare
      else padded m.layers bare
    else raised incompatible_cache
