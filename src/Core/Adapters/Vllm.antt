-- ===== src/Core/Adapters/Vllm.antt =====
-- src/chen/backends/vllm.py. vLLM and the configurations of transformers are the parameter
-- `VllmLibrary`; the methods are called without further keywords, so sampling is greedy. A slot of the
-- paged cache is a token's row: the entries of all its heads.
pub mod Blocks
pub mod Loading
use chen.Common.{
  ℕ, zero, suc, ◌+◌, ◌-◌, ◌*◌, ◌/◌, Text, Bool, true, false, Option, none, some, List, [], ◌∷◌,
  ◌++◌, eqb, ltb, length, take, map, last?, tabulate, if◌then◌else◌,
}
use chen.Common.Result.{Result, ok, raised, ◌>>=◌}
use chen.Core.Expert.{
  CoreError, value_error, incompatible_cache, config_error, not_available, runtime_error, Tensor,
  KvCache, new_cache, Backend,
}
use chen.Core.Adapters.{
  BackendCapabilities, ModelShape, fits, transfer_to, transferred_prefix, at_least_one, with_model,
}
use chen.Core.Adapters.Arrays.{concat}

-- The configuration of a model; an attribute that it does not have is 0.
pub record HfConfig : Type 0 where
  pub num_hidden_layers : ℕ
  pub n_layer : ℕ
  pub hidden_size : ℕ

-- One layer's cache on the device: the blocks of rows by their numbers, and the numbers of heads and
-- of entries of a head in the shape of its arrays.
pub record PagedLayer : Type 0 where
  pub key_block : ℕ → List (List ℕ)
  pub value_block : ℕ → List (List ℕ)
  pub heads : ℕ
  pub head_size : ℕ

pub record VllmBackend (M K : Type 0) : Type 0 where
  pub model_id : Text
  pub block_size : ℕ
  pub params_m : ℕ
  pub llm : Option M
  pub tokenizer : Option K
  pub params_m_resolved : ℕ

-- `M` is a running engine and `K` a tokenizer. `load` is `LLM(...)`, `auto_config` is
-- `AutoConfig.from_pretrained`, and `none` is an exception. `complete` is the text that `generate`
-- completes a prompt with; `prefill` runs a prompt and gives the block table of its sequence and the
-- cache of each layer. `float32` is `astype(np.float32)` of an entry.
pub record VllmLibrary (M K : Type 0) : Type 0 where
  pub installed : Bool
  pub load : Text → ℕ → Option M
  pub get_tokenizer : M → Option K
  pub auto_config : Text → Option HfConfig
  pub complete : M → Text → ℕ → Result CoreError Text
  pub prefill : M → Text → Result CoreError (List ℕ × List PagedLayer)
  pub shape : M → ModelShape
  pub token_ids : K → Text → List ℕ
  pub float32 : ℕ → ℕ

-- The number of parameters by the configuration, in millions.
unfoldable pub estimated_params_m : ℕ → Option HfConfig → ℕ
estimated_params_m own none = own
estimated_params_m own (some config) =
    let n = config.num_hidden_layers + config.n_layer in
    if ltb 0 n
    then if ltb 0 config.hidden_size
      then (12 * n * config.hidden_size * config.hidden_size) / 1000000
      else own
    else own

-- The rows of the first `len` tokens: the blocks of the table one after the other, cut.
unfoldable pub paged_rows : ℕ → (ℕ → List (List ℕ)) → List ℕ → List (List ℕ)
unfolding concat
paged_rows len block table = take len (concat (map block table))

-- `np.concatenate(layer_keys, axis=0)[:seq_len]` as an array
unfoldable pub gather : (ℕ → ℕ) → PagedLayer → ℕ → (ℕ → List (List ℕ)) → List ℕ → Tensor
unfolding concat paged_rows
gather float32 l len block table =
    let rows = paged_rows len block table in
    record { shape = length rows ∷ l.heads ∷ l.head_size ∷ []; items = map float32 (concat rows) }

-- The loop over the layers; no block makes `np.concatenate` raise.
unfoldable pub extract :
    (ℕ → ℕ) → ℕ → List ℕ → List PagedLayer → Result CoreError (List (Tensor × Tensor))
unfolding gather
extract float32 len table [] = ok []
extract float32 len [] (l ∷ ls) = raised value_error
extract float32 len (b ∷ table) (l ∷ ls) = do
  rest ← extract float32 len (b ∷ table) ls
  let ks = gather float32 l len l.key_block (b ∷ table)
  let vs = gather float32 l len l.value_block (b ∷ table)
  ok ((ks, vs) ∷ rest)

unfoldable pub capabilities : BackendCapabilities
capabilities = record {
  supports_kv_cache = true;
  supports_streaming = true;
  supports_batching = true;
  deterministic = false;
}

module _ {M K : Type 0} (lib : VllmLibrary M K) where
  -- `_require_vllm`, which is also all that the constructor of the stub does.
  unfoldable pub require_vllm : Result CoreError (Unit {0})
  require_vllm = if lib.installed then ok tt else raised not_available

  -- The number of parameters, once the model is there.
  unfoldable pub resolve_params : VllmBackend M K → VllmBackend M K
  unfolding estimated_params_m
  resolve_params b =
      if eqb b.params_m_resolved 0
      then record b {
        params_m_resolved = estimated_params_m b.params_m (lib.auto_config b.model_id);
      }
      else b

  -- `LLM(...)` and `get_tokenizer()`; a tokenizer that fails leaves the engine in place.
  load_engine : VllmBackend M K → Option M → Result CoreError M × VllmBackend M K
  unfolding resolve_params
  load_engine b none = (raised config_error, b)
  load_engine b (some m) = elim (lib.get_tokenizer m) [
    | none ↦ (raised config_error, record b { llm = some m })
    | some k ↦ (ok m, resolve_params (record b { llm = some m; tokenizer = some k }))
  ]

  -- `_ensure_loaded`
  unfoldable pub ensure_loaded : VllmBackend M K → Result CoreError M × VllmBackend M K
  unfolding require_vllm load_engine
  ensure_loaded b = elim b.llm [
    | some m ↦ (ok m, b)
    | none ↦ elim require_vllm [
      | raised x ↦ (raised x, b)
      | ok u ↦ load_engine b (lib.load b.model_id b.block_size)
    ]
  ]

  unfoldable pub resolved_params_m : VllmBackend M K → Result CoreError ℕ × VllmBackend M K
  unfolding ensure_loaded
  resolved_params_m b =
      if ltb 0 b.params_m
      then (ok b.params_m, b)
      else let loaded = ensure_loaded b in with_model loaded (λ m. ok loaded.1.params_m_resolved)

  unfoldable pub generate : VllmBackend M K → Text → ℕ → Result CoreError Text × VllmBackend M K
  unfolding ensure_loaded with_model
  generate b prompt max_tokens =
      with_model (ensure_loaded b) (λ m. lib.complete m prompt max_tokens)

  -- The tokens of a text; a tokenizer that is not there is an `AttributeError`.
  unfoldable pub tokens : VllmBackend M K → Text → Result CoreError (List ℕ)
  tokens b text = elim b.tokenizer [
    | none ↦ raised runtime_error
    | some k ↦ ok (lib.token_ids k text)
  ]

  -- `encode` with the engine and the tokens at hand
  unfoldable pub encode_with : VllmBackend M K → Text → List ℕ → M → Result CoreError KvCache
  unfolding extract new_cache
  encode_with b prompt ids m = do
    let shape = lib.shape m
    run ← lib.prefill m prompt
    layers ← extract lib.float32 (length ids) run.0 run.1
    new_cache (record {
      keys = map (λ l. l.0) layers;
      values = map (λ l. l.1) layers;
      source_model = b.model_id;
      source_layer_count = length run.1;
      source_hidden_size = shape.heads * shape.head_size;
      source_n_heads = shape.heads;
      source_text = prompt;
      last_token_id = elim (last? ids) [ none ↦ 0 | some t ↦ t ];
      position = length ids - 1;
      layer_count_mismatch = none;
    })

  unfoldable pub encode : VllmBackend M K → Text → Result CoreError KvCache × VllmBackend M K
  unfolding ensure_loaded with_model tokens encode_with at_least_one
  encode b prompt =
      let loaded = ensure_loaded b in
      with_model loaded
        (λ m. tokens loaded.1 prompt >>= (λ ids. encode_with loaded.1 prompt (at_least_one ids) m))

  -- `decode` with the engine at hand
  unfoldable pub decode_with : VllmBackend M K → KvCache → ℕ → M → Result CoreError Text
  unfolding fits transferred_prefix
  decode_with b c max_tokens m =
      if fits (lib.shape m) c
      then lib.complete m c.source_text max_tokens
        >>= (λ text. ok (transferred_prefix b.model_id c ++ text))
      else raised incompatible_cache

  unfoldable pub decode : VllmBackend M K → KvCache → ℕ → Result CoreError Text × VllmBackend M K
  unfolding ensure_loaded with_model decode_with
  decode b c max_tokens =
      let loaded = ensure_loaded b in with_model loaded (decode_with loaded.1 c max_tokens)

  unfoldable pub transfer_cache :
      VllmBackend M K → KvCache → Result CoreError KvCache × VllmBackend M K
  unfolding ensure_loaded with_model transfer_to
  transfer_cache b c = with_model (ensure_loaded b) (λ m. transfer_to (lib.shape m) c)

  unfoldable pub count_tokens : VllmBackend M K → Text → Result CoreError ℕ × VllmBackend M K
  unfolding ensure_loaded with_model tokens
  count_tokens b text =
      let loaded = ensure_loaded b in
      with_model loaded (λ m. tokens loaded.1 text >>= (λ ids. ok (length ids)))
