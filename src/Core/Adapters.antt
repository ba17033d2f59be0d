-- ===== src/Core/Adapters.antt =====
-- The backends of src/chen/backends that run a model, hf.py, vllm.py and llama_cpp.py, and what they
-- share: the shape of a model, the test of a cache against it, arrays and the padding of layers.
-- The libraries that run the models are parameters, records of what the backends call of them.
pub mod Arrays
pub mod Axes
pub mod Layers
pub mod Fitting
pub mod Vllm
pub mod LlamaCpp
pub mod HuggingFace
mod Examples
use chen.Common.{
  ℕ, zero, suc, ◌-◌, ◌*◌, Text, codes, Bool, true, false, ◌&&◌, List, [], ◌∷◌, ◌++◌, eqb, ltb, map,
  take, if◌then◌else◌, ◌==◌, codes_key, tabulate,
}
use chen.Common.Result.{Result, ok, raised, ◌>>=◌}
use chen.Core.Expert.{CoreError, index_error, incompatible_cache, Tensor, KvCache, new_cache}

pub record BackendCapabilities : Type 0 where
  pub supports_kv_cache : Bool
  pub supports_streaming : Bool
  pub supports_batching : Bool
  pub deterministic : Bool

-- What a loaded model says of its cache.
pub record ModelShape : Type 0 where
  pub layers : ℕ
  pub heads : ℕ
  pub head_size : ℕ

-- The test of `decode` and `transfer_cache`
unfoldable pub fits : ModelShape → KvCache → Bool
fits m c = eqb c.source_n_heads m.heads && eqb c.source_hidden_size (m.heads * m.head_size)

unfoldable pub zeros_like : Tensor → Tensor
zeros_like t = record t { items = map (λ x. 0) t.items }

-- `n` times `np.zeros_like(arrays[0])` behind the arrays
unfoldable pub pad : List Tensor → ℕ → Result CoreError (List Tensor)
unfolding zeros_like
pad arrays zero = ok arrays
pad [] (suc n) = raised index_error
pad (t ∷ ts) (suc n) = ok ((t ∷ ts) ++ tabulate (λ i. zeros_like t) 0 (suc n))

-- `KVCache(...)` with the first `n` layers
unfoldable pub truncated : ℕ → KvCache → Result CoreError KvCache
unfolding new_cache
truncated n c =
    new_cache (record c { keys = take n c.keys; values = take n c.values; source_layer_count = n })

-- `KVCache(...)` with zeros for the layers that are missing up to `n`
unfoldable pub padded : ℕ → KvCache → Result CoreError KvCache
unfolding new_cache pad
padded n c = do
  ks ← pad c.keys (n - c.source_layer_count)
  vs ← pad c.values (n - c.source_layer_count)
  new_cache (record c { keys = ks; values = vs; source_layer_count = n })

-- `transfer_cache` of vllm.py and llama_cpp.py with the shape of the loaded model at hand
unfoldable pub transfer_to : ModelShape → KvCache → Result CoreError KvCache
unfolding fits truncated padded
transfer_to m c =
    if fits m c
    then if eqb c.source_layer_count m.layers
      then ok c
      else if ltb m.layers c.source_layer_count
      then truncated m.layers c
      else padded m.layers c
    else raised incompatible_cache

-- What `decode` puts before the text of a cache of another model.
unfoldable pub transferred_prefix : Text → KvCache → Text
transferred_prefix own c =
    if c.source_model == own
    then []
    else codes "[transferred from " ++ (c.source_model ++ codes "] ")

-- `token_ids or [0]`, so that no sequence is empty
unfoldable pub at_least_one : List ℕ → List ℕ
at_least_one [] = 0 ∷ []
at_least_one (t ∷ ts) = t ∷ ts

-- A method that needs the model, after an attempt to load it.
unfoldable pub with_model :
    {B M A : Type 0} → Result CoreError M × B → (M → Result CoreError A) → Result CoreError A × B
with_model (loaded, b) method = (loaded >>= method, b)
