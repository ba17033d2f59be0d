-- ===== src/Core/Adapters/LlamaCpp/Methods.antt =====
-- The methods of src/chen/backends/llama_cpp.py that use the engine.
use chen.Common.{
  ℕ, ◌-◌, ◌*◌, Text, true, false, none, some, List, [], ◌∷◌, ◌++◌, leb, length, map, last?,
  if◌then◌else◌, ◌==◌, codes_key,
}
use chen.Common.Result.{Result, ok, raised, ◌>>=◌}
use chen.Core.Expert.{CoreError, value_error, incompatible_cache, KvCache, new_cache}
use chen.Core.Adapters.{ModelShape, fits, transfer_to, transferred_prefix, at_least_one, with_model}
use chen.Core.Adapters.Arrays.{chunk, concat}
use chen.Core.Adapters.LlamaCpp.{
  LlamaCppBackend, LlamaLibrary, ModelConfig, plane_size, layers_of, keys_of, values_of, restack,
  ensure_loaded, model_id, get_model_config,
}

-- What a cache is tested against
unfoldable pub shape_of : ModelConfig → ModelShape
shape_of config = record {
  layers = config.n_layer;
  heads = config.n_head_kv;
  head_size = config.head_dim;
}

-- A method on the engine, if it is there, whose state is kept.
unfoldable pub on_engine :
    {M A : Type 0}
    → Result CoreError M × LlamaCppBackend M
    → (M → Result CoreError A × M)
    → Result CoreError A × LlamaCppBackend M
on_engine (raised x, b) method = (raised x, b)
on_engine (ok m, b) method = let run = method m in (run.0, record b { llm = some run.1 })

-- `KVCache(...)` of `encode`, out of the flat cache
unfoldable pub cache_of : Text → Text → ModelConfig → List ℕ → List ℕ → Result CoreError KvCache
unfolding layers_of keys_of values_of new_cache
cache_of own prompt config ids kv =
    let layers = layers_of config (length ids) kv in
    new_cache (record {
      keys = map (keys_of config (length ids)) layers;
      values = map (values_of config (length ids)) layers;
      source_model = own;
      source_layer_count = config.n_layer;
      source_hidden_size = config.n_head_kv * config.head_dim;
      source_n_heads = config.n_head_kv;
      source_text = prompt;
      last_token_id = elim (last? ids) [ none ↦ 0 | some t ↦ t ];
      position = length ids - 1;
      layer_count_mismatch = none;
    })

module _ {M : Type 0} (lib : LlamaLibrary M) where
  unfoldable pub generate : LlamaCppBackend M → Text → ℕ → Result CoreError Text × LlamaCppBackend M
  unfolding ensure_loaded on_engine
  generate b prompt max_tokens =
      on_engine (ensure_loaded lib b) (λ m. lib.complete m prompt max_tokens)

  -- The flat cache of `total` entries: two bytes each where the context gives bytes, else floats.
  unfoldable pub read_kv : M → ℕ → Result CoreError (List ℕ)
  unfolding chunk
  read_kv m total = elim (lib.get_kv_cache m) [
    | none ↦ ok (lib.raw_kv m total)
    | some bytes ↦
        if leb (2 * total) (length bytes)
        then ok (map lib.float16 (chunk 2 total bytes))
        else raised value_error
  ]

  -- The prefill and the reading of the cache
  unfoldable pub prefill : Text → Text → ModelConfig → M → Result CoreError KvCache × M
  unfolding read_kv cache_of plane_size at_least_one
  prefill own prompt config m =
      let ids = at_least_one (lib.tokenize m prompt true) in
      let run = lib.eval (lib.reset m) ids in
      let total = config.n_layer * (2 * plane_size config (length ids)) in
      (run.0 >>= (λ u. read_kv run.1 total >>= (λ kv. cache_of own prompt config ids kv)), run.1)

  unfoldable pub encode : LlamaCppBackend M → Text → Result CoreError KvCache × LlamaCppBackend M
  unfolding ensure_loaded on_engine get_model_config prefill model_id
  encode b prompt = on_engine (ensure_loaded lib b) (λ m. elim (get_model_config lib m) [
    | raised x ↦ (raised x, m)
    | ok config ↦ prefill (model_id lib b) prompt config m
  ])

  -- `set_kv_cache`, or a copy to the pointer
  unfoldable pub write_back : M → List ℕ → M
  unfolding concat
  write_back m flat = elim (lib.set_kv_cache m (concat (map lib.float_bytes flat))) [
    | none ↦ lib.write_kv m flat
    | some m' ↦ m'
  ]

  -- The rest of `decode` for a cache of the same model
  unfoldable pub continue_from : KvCache → ℕ → ModelConfig → M → Result CoreError Text × M
  unfolding restack write_back
  continue_from c max_tokens config m = elim (restack lib.assign config c) [
    | raised x ↦ (raised x, m)
    | ok flat ↦
        let run = lib.eval (write_back m flat) (c.last_token_id ∷ []) in
        elim run.0 [
          | raised x ↦ (raised x, run.1)
          | ok u ↦ lib.create_completion run.1 [] max_tokens
        ]
  ]

  -- `decode` with the engine at hand
  unfoldable pub decode_with : Text → KvCache → ℕ → ModelConfig → M → Result CoreError Text × M
  unfolding fits shape_of transferred_prefix continue_from
  decode_with own c max_tokens config m =
      if fits (shape_of config) c
      then if c.source_model == own
        then continue_from c max_tokens config m
        else (let run = lib.complete m c.source_text max_tokens in
            (run.0 >>= (λ text. ok (transferred_prefix own c ++ text)), run.1))
      else (raised incompatible_cache, m)

  unfoldable pub decode :
      LlamaCppBackend M → KvCache → ℕ → Result CoreError Text × LlamaCppBackend M
  unfolding ensure_loaded on_engine get_model_config decode_with model_id
  decode b c max_tokens = on_engine (ensure_loaded lib b) (λ m. elim (get_model_config lib m) [
    | raised x ↦ (raised x, m)
    | ok config ↦ decode_with (model_id lib b) c max_tokens config m
  ])

  unfoldable pub transfer_cache :
      LlamaCppBackend M → KvCache → Result CoreError KvCache × LlamaCppBackend M
  unfolding ensure_loaded with_model get_model_config transfer_to shape_of
  transfer_cache b c =
      with_model (ensure_loaded lib b)
        (λ m. get_model_config lib m >>= (λ config. transfer_to (shape_of config) c))

  unfoldable pub count_tokens : LlamaCppBackend M → Text → Result CoreError ℕ × LlamaCppBackend M
  unfolding ensure_loaded with_model
  count_tokens b text =
      with_model (ensure_loaded lib b) (λ m. ok (length (lib.tokenize m text false)))
