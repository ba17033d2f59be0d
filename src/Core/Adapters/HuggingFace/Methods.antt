-- ===== src/Core/Adapters/HuggingFace/Methods.antt =====
-- The methods of src/chen/backends/hf.py.
use chen.Common.{
  ℕ, ◌-◌, ◌*◌, ◌/◌, Text, codes, none, some, List, ◌++◌, eqb, ltb, length, drop, map, last?,
  if◌then◌else◌, ◌==◌, codes_key,
}
use chen.Common.Result.{Result, ok, raised, ◌>>=◌}
use chen.Core.Expert.{
  CoreError, runtime_error, index_error, zero_division, config_error, not_available, KvCache,
  new_cache,
}
use chen.Core.Adapters.{ModelShape, transferred_prefix, with_model}
use chen.Core.Adapters.HuggingFace.{
  HfLibrary, HuggingFaceBackend, PastKeyValues, layers_from, normalized, transfer_to,
}

module _ {M K : Type 0} (lib : HfLibrary M K) where
  -- `_require_hf`, which is also all that the constructor of the stub does.
  unfoldable pub require_hf : Result CoreError (Unit {0})
  require_hf = if lib.installed then ok tt else raised not_available

  unfoldable pub device_of : HuggingFaceBackend M K → Text
  device_of b =
      if b.device == codes "auto"
      then if lib.has_cuda then codes "cuda" else if lib.has_mps then codes "mps" else codes "cpu"
      else b.device

  -- The number of parameters, once the model is on its device
  unfoldable pub resolve_params : HuggingFaceBackend M K → M → HuggingFaceBackend M K
  resolve_params b m =
      if eqb b.params_m_resolved 0
      then record b { params_m_resolved = lib.numel m / 1000000 }
      else b

  -- A model that cannot be moved stays in the backend.
  place_model : HuggingFaceBackend M K → M → Result CoreError M × HuggingFaceBackend M K
  unfolding device_of resolve_params
  place_model b m = elim (lib.move m (device_of b)) [
    | raised x ↦ (raised x, record b { model = some m })
    | ok placed ↦ (ok placed, resolve_params (record b { model = some placed }) placed)
  ]

  load_pretrained : HuggingFaceBackend M K → Result CoreError M × HuggingFaceBackend M K
  unfolding place_model
  load_pretrained b = elim (lib.load_tokenizer b.model_id) [
    | none ↦ (raised config_error, b)
    | some k ↦
        let read : HuggingFaceBackend M K = record b { tokenizer = some k } in
        elim (lib.load_model b.model_id) [
          | none ↦ (raised config_error, read)
          | some m ↦ place_model read m
        ]
  ]

  -- `_ensure_loaded`
  unfoldable pub ensure_loaded :
      HuggingFaceBackend M K → Result CoreError M × HuggingFaceBackend M K
  unfolding require_hf load_pretrained
  ensure_loaded b = elim b.model [
    | some m ↦ (ok m, b)
    | none ↦ elim require_hf [ raised x ↦ (raised x, b) | ok u ↦ load_pretrained b ]
  ]

  unfoldable pub resolved_params_m :
      HuggingFaceBackend M K → Result CoreError ℕ × HuggingFaceBackend M K
  unfolding ensure_loaded with_model
  resolved_params_m b =
      if ltb 0 b.params_m
      then (ok b.params_m, b)
      else (let loaded = ensure_loaded b in with_model loaded (λ m. ok loaded.1.params_m_resolved))

  unfoldable pub with_tokenizer :
      {A : Type 0} → HuggingFaceBackend M K → (K → Result CoreError A) → Result CoreError A
  with_tokenizer b use_it = elim b.tokenizer [ none ↦ raised runtime_error | some k ↦ use_it k ]

  -- The new text: what `generate` of the model puts behind the tokens of the prompt
  unfoldable pub complete : HuggingFaceBackend M K → Text → ℕ → M → Result CoreError Text
  unfolding with_tokenizer
  complete b prompt max_tokens m = with_tokenizer b (λ k.
      let ids = lib.input_ids k prompt in
      lib.generate_ids m ids max_tokens >>= (λ out. ok (lib.decode_ids k (drop (length ids) out))))

  unfoldable pub generate :
      HuggingFaceBackend M K → Text → ℕ → Result CoreError Text × HuggingFaceBackend M K
  unfolding ensure_loaded with_model complete
  generate b prompt max_tokens =
      let loaded = ensure_loaded b in with_model loaded (complete loaded.1 prompt max_tokens)

  -- The shape that the model's configuration tells
  unfoldable pub shape_of : M → Result CoreError ModelShape
  shape_of m =
      if eqb (lib.num_attention_heads m) 0
      then raised zero_division
      else ok (record {
        layers = lib.num_hidden_layers m;
        heads = lib.num_attention_heads m;
        head_size = lib.hidden_size m / lib.num_attention_heads m;
      })

  -- `KVCache(...)` of `encode`
  unfoldable pub cache_of :
      Text → Text → List ℕ → ModelShape → PastKeyValues → Result CoreError KvCache
  unfolding layers_from normalized new_cache
  cache_of own prompt ids shape past = do
    layers ← layers_from past 0 shape.layers
    ks ← normalized lib.float32 shape.heads shape.head_size (map (λ l. l.0) layers)
    vs ← normalized lib.float32 shape.heads shape.head_size (map (λ l. l.1) layers)
    last ← elim (last? ids) [ none ↦ raised index_error | some t ↦ ok t ]
    new_cache (record {
      keys = ks;
      values = vs;
      source_model = own;
      source_layer_count = shape.layers;
      source_hidden_size = shape.heads * shape.head_size;
      source_n_heads = shape.heads;
      source_text = prompt;
      last_token_id = last;
      position = length ids - 1;
      layer_count_mismatch = none;
    })

  -- `encode` with the model and the tokenizer at hand
  unfoldable pub encode_with : Text → Text → M → K → Result CoreError KvCache
  unfolding shape_of cache_of
  encode_with own prompt m k = do
    let ids = lib.input_ids k prompt
    out ← lib.forward m ids
    past ← elim out [ none ↦ raised config_error | some p ↦ ok p ]
    shape ← shape_of m
    cache_of own prompt ids shape past

  unfoldable pub encode :
      HuggingFaceBackend M K → Text → Result CoreError KvCache × HuggingFaceBackend M K
  unfolding ensure_loaded with_model with_tokenizer encode_with
  encode b prompt =
      let loaded = ensure_loaded b in
      with_model loaded (λ m. with_tokenizer loaded.1 (encode_with b.model_id prompt m))

  unfoldable pub decode :
      HuggingFaceBackend M K → KvCache → ℕ → Result CoreError Text × HuggingFaceBackend M K
  unfolding ensure_loaded with_model complete transferred_prefix
  decode b c max_tokens =
      let loaded = ensure_loaded b in
      with_model loaded (λ m.
        complete loaded.1 c.source_text max_tokens m
        >>= (λ text. ok (transferred_prefix b.model_id c ++ text)))

  unfoldable pub transfer_cache :
      HuggingFaceBackend M K → KvCache → Result CoreError KvCache × HuggingFaceBackend M K
  unfolding ensure_loaded with_model shape_of transfer_to
  transfer_cache b c =
      with_model (ensure_loaded b) (λ m. shape_of m >>= (λ shape. transfer_to shape c))

  unfoldable pub count_tokens :
      HuggingFaceBackend M K → Text → Result CoreError ℕ × HuggingFaceBackend M K
  unfolding ensure_loaded with_model with_tokenizer
  count_tokens b text =
      let loaded = ensure_loaded b in
      with_model loaded (λ m. with_tokenizer loaded.1 (λ k. ok (length (lib.input_ids k text))))
