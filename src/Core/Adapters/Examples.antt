-- ===== src/Core/Adapters/Examples.antt =====
-- The backends that run a model at concrete inputs.
use chen.Common.{
  ℕ, zero, suc, ◌+◌, ◌*◌, ◌≡◌, refl, codes, true, false, Option, none, some, List, [], ◌∷◌, ◌++◌,
  length, take, arith,
}
use mathlib.Core.Path.{subst}
use chen.Common.Result.{ok, raised}
use chen.Core.Expert.{Tensor, KvCache, config_error, runtime_error, seq_len, n_heads, head_dim}
use chen.Core.Adapters.{transferred_prefix, ModelShape, fits, transfer_to}
use chen.Core.Adapters.Arrays.{concat}
use chen.Core.Adapters.Axes.{swap_axes}
use chen.Core.Adapters.Fitting.{IsCache, there_and_back}
use chen.Core.Adapters.Vllm.{VllmLibrary, VllmBackend, PagedLayer}
use chen.Core.Adapters.Vllm
use chen.Core.Adapters.Vllm.Blocks.{IsPaged, HoldsTokens, encode_with-HoldsTokens}
use chen.Core.Adapters.Vllm.Loading.{half_loaded}
use chen.Core.Adapters.LlamaCpp.{LlamaLibrary, ModelConfig, plane_size, restack}
use chen.Core.Adapters.LlamaCpp.Methods.{cache_of, read_kv, write_back}
use chen.Core.Adapters.LlamaCpp.Layout.{restack-cache_of, written_as_floats_read_as_halves}
use chen.Core.Adapters.HuggingFace.{HfLibrary, HuggingFaceBackend, PastKeyValues}
use chen.Core.Adapters.HuggingFace.Methods.{encode_with}
use chen.Core.Adapters.HuggingFace.Axes.{four_axes}
use chen.Core.Adapters.HuggingFace.Serving.{loaded_lem}
use chen.Core.Adapters.HuggingFace

abbrev array : ℕ → Tensor
array x = record { shape = 1 ∷ 1 ∷ 2 ∷ []; items = x ∷ (x + 1) ∷ [] }

abbrev cache : KvCache
cache = record {
  keys = array 3 ∷ array 5 ∷ [];
  values = array 7 ∷ array 9 ∷ [];
  source_model = codes "m";
  source_layer_count = 2;
  source_hidden_size = 2;
  source_n_heads = 1;
  source_text = codes "hi";
  last_token_id = 4;
  position = 0;
  layer_count_mismatch = none;
}

abbrev two_layers : ModelShape
two_layers = record { layers = 2; heads = 1; head_size = 2 }

abbrev three_layers : ModelShape
three_layers = record two_layers { layers = 3 }

there_and_back_example :
    (d : KvCache) × (transfer_to (record two_layers { layers = 5 }) cache ≡ ok d)
    × (transfer_to two_layers d ≡ ok cache)
unfolding fits
there_and_back_example =
    there_and_back two_layers 5 cache (refl, refl) refl (omega arith) (omega arith) refl

-- Block number `n` holds the tokens `10 * n` and `10 * n + 1`, with one head of size 2.
abbrev blocks : ℕ → List (List ℕ)
blocks n = ((10 * n) ∷ 0 ∷ []) ∷ ((10 * n + 1) ∷ 0 ∷ []) ∷ []

abbrev paged : PagedLayer
paged = record { key_block = blocks; value_block = blocks; heads = 1; head_size = 2 }

keys-IsPaged : IsPaged 2 (λ l. l.key_block) (paged ∷ [])
keys-IsPaged zero l here n =
    let same : paged ≡ l = cc in subst (λ (x : PagedLayer). length (x.key_block n) ≡ 2) same refl
keys-IsPaged (suc j) l here n = absurd (cc)

values-IsPaged : IsPaged 2 (λ l. l.value_block) (paged ∷ [])
values-IsPaged zero l here n =
    let same : paged ≡ l = cc in subst (λ (x : PagedLayer). length (x.value_block n) ≡ 2) same refl
values-IsPaged (suc j) l here n = absurd (cc)

abbrev vllm : (ℕ → Option ℕ) → VllmLibrary ℕ ℕ
vllm tokenizer = record {
  installed = true;
  load = λ name size. some size;
  get_tokenizer = tokenizer;
  auto_config = λ name. none;
  complete = λ m prompt n. ok (take n prompt);
  prefill = λ m prompt. ok (7 ∷ 4 ∷ [], paged ∷ []);
  shape = λ m. record two_layers { layers = 1 };
  token_ids = λ k text. text;
  float32 = λ x. x;
}

abbrev vllm_backend : VllmBackend ℕ ℕ
vllm_backend = record {
  model_id = codes "v";
  block_size = 2;
  params_m = 8000;
  llm = none;
  tokenizer = none;
  params_m_resolved = 0;
}

encode_with-HoldsTokens_example :
    (c : KvCache) × (Vllm.encode_with
        (vllm (λ m. some m))
        vllm_backend
        (codes "abc")
        (codes "abc")
        2
      ≡ ok c)
    × IsCache c
    × (fits (record two_layers { layers = 1 }) c ≡ true)
    × (c.source_layer_count ≡ 1)
    × (c.position + 1 ≡ 3)
    × (c.source_text ≡ codes "abc")
    × (c.source_model ≡ codes "v")
    × HoldsTokens (λ x. x) 2 3 (7 ∷ 4 ∷ []) (paged ∷ []) (λ l. l.key_block) c.keys
    × HoldsTokens (λ x. x) 2 3 (7 ∷ 4 ∷ []) (paged ∷ []) (λ l. l.value_block) c.values
encode_with-HoldsTokens_example =
    encode_with-HoldsTokens (vllm (λ m. some m)) vllm_backend (codes "abc") (codes "abc") 2 7
      (4 ∷ []) (paged ∷ []) refl keys-IsPaged values-IsPaged (omega arith) (omega arith)

half_loaded_example :
    (later : VllmBackend ℕ ℕ) × (Vllm.generate (vllm (λ m. none)) vllm_backend (codes "abc") 2
      ≡ (raised config_error, later))
    × (Vllm.generate (vllm (λ m. none)) later (codes "abc") 2 ≡ (ok (codes "ab"), later))
    × (Vllm.encode (vllm (λ m. none)) later (codes "abc") ≡ (raised runtime_error, later))
    × (Vllm.count_tokens (vllm (λ m. none)) later (codes "abc") ≡ (raised runtime_error, later))
half_loaded_example =
    half_loaded (vllm (λ m. none)) vllm_backend 2 (codes "abc") 2 refl refl refl refl refl

-- Two layers of one head of size 2.
abbrev config : ModelConfig
config = record { n_layer = 2; n_embd = 2; n_head = 1; n_head_kv = 1; head_dim = 2 }

abbrev flat : List ℕ
flat = 1 ∷ 2 ∷ 3 ∷ 4 ∷ 5 ∷ 6 ∷ 7 ∷ 8 ∷ []

restack-cache_of_example :
    (c : KvCache) × (cache_of (codes "l") (codes "h") config (104 ∷ []) flat ≡ ok c)
    × (c.position + 1 ≡ seq_len c)
    × (restack (λ shape t. ok t.items) config c ≡ ok flat)
unfolding plane_size
restack-cache_of_example =
    restack-cache_of (λ shape t. ok t.items) (λ shape t same. refl) config (codes "l") (codes "h")
      104 [] flat (omega arith) refl

-- The first axis of two tokens and two heads is exchanged with the second, and back.
two_heads : swap_axes 2 2 1 (1 ∷ 2 ∷ 3 ∷ 4 ∷ []) ≡ 1 ∷ 3 ∷ 2 ∷ 4 ∷ []
unfolding swap_axes
two_heads = refl

-- A context that is its bytes.
abbrev llama : LlamaLibrary (List ℕ)
llama = record {
  installed = true;
  default_path = codes "model";
  exists = λ path. true;
  basename = λ path. path;
  load = λ path. some [];
  parameter_count = λ m. some 0;
  n_layer = λ m. 2;
  n_embd = λ m. 2;
  n_head = λ m. 1;
  n_head_kv = λ m. none;
  complete = λ m prompt n. (ok prompt, m);
  create_completion = λ m prompt n. (ok prompt, m);
  tokenize = λ m text bos. text;
  reset = λ m. [];
  eval = λ m ids. (ok tt, m);
  get_kv_cache = λ m. some m;
  set_kv_cache = λ m bytes. some bytes;
  raw_kv = λ m n. take n m;
  write_kv = λ m items. items;
  float16 = λ bytes. elim bytes [ [] ↦ 0 | b ∷ bs ↦ b ];
  float_bytes = λ x. 0 ∷ 0 ∷ x ∷ 63 ∷ [];
  assign = λ shape t. ok t.items;
}

written_as_floats_read_as_halves_example :
    ¬ (read_kv llama (write_back llama [] (5 ∷ 6 ∷ [])) 2 ≡ ok (5 ∷ 6 ∷ []))
    × (rest : List ℕ) × (read_kv llama (write_back llama [] (5 ∷ 6 ∷ [])) 2 ≡ ok (0 ∷ 5 ∷ rest))
unfolding concat
written_as_floats_read_as_halves_example =
    written_as_floats_read_as_halves llama [] (0 ∷ 0 ∷ 5 ∷ 63 ∷ 0 ∷ 0 ∷ 6 ∷ 63 ∷ []) 5 6 []
      (λ n. refl) refl refl (λ same. absurd (omega (arith, same)))

-- One layer of three heads of size 2 for two tokens.
abbrev turned : Tensor
turned = record {
  shape = 1 ∷ 3 ∷ 2 ∷ 2 ∷ [];
  items = 1 ∷ 2 ∷ 3 ∷ 4 ∷ 5 ∷ 6 ∷ 7 ∷ 8 ∷ 9 ∷ 10 ∷ 11 ∷ 12 ∷ [];
}

abbrev past : PastKeyValues
past = record { by_index = some ((turned, turned) ∷ []); key_cache = none; value_cache = none }

abbrev hf : HfLibrary ℕ ℕ
hf = record {
  installed = true;
  load_tokenizer = λ name. some 0;
  load_model = λ name. some 0;
  has_cuda = false;
  has_mps = false;
  move = λ m device. ok m;
  numel = λ m. 3000000;
  num_hidden_layers = λ m. 1;
  num_attention_heads = λ m. 3;
  hidden_size = λ m. 6;
  input_ids = λ k text. text;
  decode_ids = λ k ids. ids;
  generate_ids = λ m ids n. ok (ids ++ codes "!");
  forward = λ m ids. ok (some past);
  float32 = λ x. x;
}

four_axes_example :
    (c : KvCache) × (encode_with hf (codes "m") (codes "hi") 0 0 ≡ ok c)
    × (c.position + 1 ≡ 2)
    × (seq_len c ≡ 3)
    × (n_heads c ≡ 2)
    × (head_dim c ≡ 2)
four_axes_example =
    four_axes hf (codes "m") (codes "hi") 0 0 104 (105 ∷ []) past ((turned, turned) ∷ []) refl refl
      refl refl (omega arith) (omega arith) 3 2 ((refl, refl), tt)

abbrev hf_backend : HuggingFaceBackend ℕ ℕ
hf_backend = record {
  model_id = codes "m";
  device = codes "auto";
  params_m = 0;
  model = some 0;
  tokenizer = some 0;
  params_m_resolved = 3;
}

abbrev foreign : KvCache
foreign = record cache { source_model = codes "x"; source_text = codes "hi" }

loaded_lem_example :
    (HuggingFace.Methods.generate hf hf_backend (codes "hi") 1 ≡ (ok (codes "!"), hf_backend))
    × (HuggingFace.Methods.decode hf hf_backend foreign 1
        ≡ (ok (codes "[transferred from x] !"), hf_backend))
    × ((HuggingFace.Methods.encode hf hf_backend (codes "hi")).1 ≡ hf_backend)
    × ((HuggingFace.Methods.transfer_cache hf hf_backend foreign).1 ≡ hf_backend)
    × (HuggingFace.Methods.count_tokens hf hf_backend (codes "hi") ≡ (ok 2, hf_backend))
unfolding transferred_prefix
loaded_lem_example = loaded_lem hf hf_backend 0 0 refl refl foreign (codes "!") 1 refl
