-- ===== src/Core/Adapters/LlamaCpp.antt =====
-- src/chen/backends/llama_cpp.py. llama-cpp-python, numpy's assignment and the file system are the
-- parameter `LlamaLibrary`; the settings of the engine are fixed, and the methods are called without
-- further keywords, so sampling is greedy. Each call of the engine gives its next state.
pub mod Layout
pub mod Methods
use chen.Common.{
  ℕ, zero, suc, ◌+◌, ◌-◌, ◌*◌, ◌/◌, Text, codes, Bool, true, false, Option, none, some, List, [],
  ◌∷◌, ◌++◌, eqb, ltb, length, take, drop, map, last?, if◌then◌else◌, ◌==◌, codes_key,
}
use chen.Common.Result.{Result, ok, raised, ◌>>=◌}
use chen.Core.Expert.{
  CoreError, value_error, index_error, zero_division, incompatible_cache, config_error,
  not_available, Tensor, KvCache, new_cache, seq_len,
}
use chen.Core.Adapters.{
  BackendCapabilities, ModelShape, fits, pad, transfer_to, transferred_prefix, with_model,
}
use chen.Core.Adapters.Arrays.{chunk}
use chen.Core.Adapters.Axes.{swap_axes}

pub record LlamaCppBackend (M : Type 0) : Type 0 where
  pub model_path : Text
  pub params_m : ℕ
  pub llm : Option M
  pub params_m_resolved : ℕ

-- `M` is a `Llama` object with the state of its context, and `none` an exception. `parameter_count` is
-- the number of the model's metadata, 0 where it is missing. `get_kv_cache` and `set_kv_cache`
-- work on bytes and are `none` where the context has no such method; `raw_kv m n` reads `n` floats at
-- the pointer to the cache, and `write_kv` writes floats there. `float16` is the number of two bytes,
-- `float_bytes` the four bytes of a number. `assign shape t` is what `flat[i, j] = t` writes to a
-- part of that shape.
pub record LlamaLibrary (M : Type 0) : Type 0 where
  pub installed : Bool
  pub default_path : Text
  pub exists : Text → Bool
  pub basename : Text → Text
  pub load : Text → Option M
  pub parameter_count : M → Option ℕ
  pub n_layer : M → ℕ
  pub n_embd : M → ℕ
  pub n_head : M → ℕ
  pub n_head_kv : M → Option ℕ
  pub complete : M → Text → ℕ → Result CoreError Text × M
  pub create_completion : M → Text → ℕ → Result CoreError Text × M
  pub tokenize : M → Text → Bool → List ℕ
  pub reset : M → M
  pub eval : M → List ℕ → Result CoreError (Unit {0}) × M
  pub get_kv_cache : M → Option (List ℕ)
  pub set_kv_cache : M → List ℕ → Option M
  pub raw_kv : M → ℕ → List ℕ
  pub write_kv : M → List ℕ → M
  pub float16 : List ℕ → ℕ
  pub float_bytes : ℕ → List ℕ
  pub assign : List ℕ → Tensor → Result CoreError (List ℕ)

pub record ModelConfig : Type 0 where
  pub n_layer : ℕ
  pub n_embd : ℕ
  pub n_head : ℕ
  pub n_head_kv : ℕ
  pub head_dim : ℕ

-- `transpose(1, 0, 2)` of an array with these items
unfoldable pub transpose : List ℕ → List ℕ → Result CoreError Tensor
unfolding swap_axes
transpose (a ∷ b ∷ d ∷ []) items =
    ok (record { shape = b ∷ a ∷ d ∷ []; items = swap_axes a b d items })
transpose shape items = raised value_error

-- The number of items of a layer's keys, or values.
unfoldable pub plane_size : ModelConfig → ℕ → ℕ
plane_size config len = config.n_head_kv * len * config.head_dim

-- One layer's keys or values of the flat cache as an array
unfoldable pub plane : ModelConfig → ℕ → List ℕ → Tensor
unfolding swap_axes
plane config len items = record {
  shape = len ∷ config.n_head_kv ∷ config.head_dim ∷ [];
  items = swap_axes config.n_head_kv len config.head_dim items;
}

-- `reshape(n_layer, 2, n_head_kv, seq_len, head_dim)`, cut into layers
unfoldable pub layers_of : ModelConfig → ℕ → List ℕ → List (List ℕ)
unfolding chunk plane_size
layers_of config len kv = chunk (2 * plane_size config len) config.n_layer kv

-- The keys and the values of a layer
unfoldable pub keys_of : ModelConfig → ℕ → List ℕ → Tensor
unfolding plane plane_size
keys_of config len layer = plane config len (take (plane_size config len) layer)

unfoldable pub values_of : ModelConfig → ℕ → List ℕ → Tensor
unfolding plane plane_size
values_of config len layer = plane config len (drop (plane_size config len) layer)

module _ (assign : List ℕ → Tensor → Result CoreError (List ℕ)) (config : ModelConfig) where
  -- `flat[layer, i] = array.transpose(1, 0, 2)`
  unfoldable pub place : ℕ → Tensor → Result CoreError (List ℕ)
  unfolding transpose
  place len t = do
    turned ← transpose t.shape t.items
    assign (config.n_head_kv ∷ len ∷ config.head_dim ∷ []) turned

  -- The loop that fills `flat`
  unfoldable pub interleave : ℕ → ℕ → List Tensor → List Tensor → Result CoreError (List ℕ)
  unfolding place
  interleave len zero keys values = ok []
  interleave len (suc n) (k ∷ keys) (v ∷ values) = do
    turned_key ← place len k
    turned_value ← place len v
    rest ← interleave len n keys values
    ok (turned_key ++ (turned_value ++ rest))
  interleave len (suc n) keys values = raised index_error

  -- The cache in the flat format, cut or padded to the layers of the model
  unfoldable pub restack : KvCache → Result CoreError (List ℕ)
  unfolding interleave pad seq_len
  restack c = do
    let cut = take config.n_layer c.keys
    let missing = config.n_layer - length cut
    keys ← pad cut missing
    values ← pad (take config.n_layer c.values) missing
    interleave (seq_len c) config.n_layer keys values

unfoldable pub capabilities : BackendCapabilities
capabilities = record {
  supports_kv_cache = true;
  supports_streaming = true;
  supports_batching = false;
  deterministic = false;
}

module _ {M : Type 0} (lib : LlamaLibrary M) where
  -- `__post_init__`
  unfoldable pub new_llama_cpp : LlamaCppBackend M → LlamaCppBackend M
  new_llama_cpp b = if b.model_path == [] then record b { model_path = lib.default_path } else b

  -- `_require_llama`, which is also all that the constructor of the stub does.
  unfoldable pub require_llama : Result CoreError (Unit {0})
  require_llama = if lib.installed then ok tt else raised not_available

  -- The number of parameters of a model, in millions; 0 gives way to the manual one.
  unfoldable pub counted_params_m : LlamaCppBackend M → M → ℕ
  counted_params_m b m = elim (lib.parameter_count m) [
    | none ↦ b.params_m
    | some n ↦ if eqb (n / 1000000) 0 then b.params_m else n / 1000000
  ]

  -- What a `Llama` object leaves in the backend
  unfoldable pub loaded_with : LlamaCppBackend M → M → LlamaCppBackend M
  unfolding counted_params_m
  loaded_with b m =
      if eqb b.params_m_resolved 0
      then record b { llm = some m; params_m_resolved = counted_params_m b m }
      else record b { llm = some m }

  -- `_ensure_loaded`
  unfoldable pub ensure_loaded : LlamaCppBackend M → Result CoreError M × LlamaCppBackend M
  unfolding require_llama loaded_with
  ensure_loaded b = elim b.llm [
    | some m ↦ (ok m, b)
    | none ↦ elim require_llama [
      | raised x ↦ (raised x, b)
      | ok u ↦
          if lib.exists b.model_path
          then elim (lib.load b.model_path) [
            | none ↦ (raised config_error, b)
            | some m ↦ (ok m, loaded_with b m)
          ]
          else (raised config_error, b)
    ]
  ]

  unfoldable pub model_id : LlamaCppBackend M → Text
  model_id b = codes "llama_cpp:" ++ lib.basename b.model_path

  unfoldable pub resolved_params_m : LlamaCppBackend M → Result CoreError ℕ × LlamaCppBackend M
  unfolding ensure_loaded with_model
  resolved_params_m b =
      if ltb 0 b.params_m
      then (ok b.params_m, b)
      else let loaded = ensure_loaded b in with_model loaded (λ m. ok loaded.1.params_m_resolved)

  -- `_get_model_config` of a loaded model
  unfoldable pub get_model_config : M → Result CoreError ModelConfig
  get_model_config m =
      if eqb (lib.n_head m) 0
      then raised zero_division
      else ok (record {
        n_layer = lib.n_layer m;
        n_embd = lib.n_embd m;
        n_head = lib.n_head m;
        n_head_kv = elim (lib.n_head_kv m) [ none ↦ lib.n_head m | some n ↦ n ];
        head_dim = lib.n_embd m / lib.n_head m;
      })
