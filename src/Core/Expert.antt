-- ===== src/Core/Expert.antt =====
-- src/chen/core/expert.py, src/chen/core/kv_cache.py and the protocol of src/chen/backends/base.py.
-- A backend is a parameter: its methods are functions of their arguments, and `raised` is an
-- exception of any kind. Times are left out of the metrics. An entry of an array is a number that
-- stands for a 32-bit float: 0 for zero, ten-thousandths in the mock, the bits elsewhere.
pub mod Invoke
mod Examples
use chen.Common.{
  ℕ, zero, suc, ◌+◌, ◌*◌, ◌/◌, max, Text, String, codes, Bool, true, false, ◌&&◌, Option, none,
  some, List, [], ◌∷◌, ◌++◌, eqb, length, if◌then◌else◌,
}
use chen.Common.Result.{Result, ok, raised, ◌>>=◌}

pub data ExpertRole : Type 0 where
  analyst reasoner synthesizer coder router translator generalist : ExpertRole

pub record Tensor : Type 0 where
  pub shape : List ℕ
  pub items : List ℕ

unfoldable pub nbytes : Tensor → ℕ
nbytes t = 4 * length t.items

pub record KvCache : Type 0 where
  pub keys : List Tensor
  pub values : List Tensor
  pub source_model : Text
  pub source_layer_count : ℕ
  pub source_hidden_size : ℕ
  pub source_n_heads : ℕ
  pub source_text : Text
  pub last_token_id : ℕ
  pub position : ℕ
  pub layer_count_mismatch : Option (ℕ × ℕ)

pub data CoreError : Type 0 where
  backend_failed value_error key_error runtime_error index_error zero_division : CoreError
  not_available config_error incompatible_cache : CoreError

-- `KVCache.__post_init__`
unfoldable pub new_cache : KvCache → Result CoreError KvCache
new_cache c =
    if eqb (length c.keys) (length c.values)
    then ok (
        if eqb c.source_layer_count (length c.keys) then c else record c {
          layer_count_mismatch = some (c.source_layer_count, length c.keys);
          source_layer_count = length c.keys;
        })
    else raised value_error

unfoldable pub nth : ℕ → List ℕ → ℕ
nth i [] = 0
nth zero (n ∷ ns) = n
nth (suc i) (n ∷ ns) = nth i ns

unfoldable pub dim : ℕ → List Tensor → ℕ
unfolding nth
dim i [] = 0
dim i (t ∷ ts) = nth i t.shape

-- `seq_len`, `n_heads` and `head_dim`
unfoldable pub seq_len : KvCache → ℕ
unfolding dim
seq_len c = dim 0 c.keys

unfoldable pub n_heads : KvCache → ℕ
unfolding dim
n_heads c = dim 1 c.keys

unfoldable pub head_dim : KvCache → ℕ
unfolding dim
head_dim c = dim 2 c.keys

unfoldable pub total_bytes : List Tensor → ℕ
unfolding nbytes
total_bytes [] = 0
total_bytes (t ∷ ts) = nbytes t + total_bytes ts

-- `bytes_size`
unfoldable pub bytes_size : KvCache → ℕ
unfolding total_bytes
bytes_size c = total_bytes c.keys + total_bytes c.values

-- `is_compatible_with`
unfoldable pub is_compatible_with : ℕ → ℕ → ℕ → KvCache → Bool
unfolding n_heads head_dim
is_compatible_with layers heads dims c =
    eqb c.source_layer_count layers && (eqb (n_heads c) heads && eqb (head_dim c) dims)

-- `InferenceBackend`; `count_tokens` is `none` where the backend has no such method.
pub record Backend : Type 0 where
  pub params_m : ℕ
  pub supports_kv_cache : Bool
  pub generate : Text → ℕ → Result CoreError Text
  pub encode : Text → Result CoreError KvCache
  pub decode : KvCache → ℕ → Result CoreError Text
  pub transfer_cache : KvCache → Result CoreError KvCache
  pub count_tokens : Option (Text → Result CoreError ℕ)

pub record Expert : Type 0 where
  pub name : String
  pub role : ExpertRole
  pub backend : Backend
  pub description : String

pub record ExpertMetrics : Type 0 where
  pub expert_name : String
  pub role : ExpertRole
  pub params_m : ℕ
  pub input_tokens : ℕ
  pub output_tokens : ℕ
  pub used_kv_cache : Bool
  pub cache_transfer_succeeded : Bool

-- `max(1, len(text) // 4)`
unfoldable pub estimate : Text → ℕ
estimate text = max 1 (length text / 4)

both : Text → Text → Result CoreError ℕ → Result CoreError ℕ → ℕ × ℕ
unfolding estimate
both input output (ok n) (ok m) = (n, m)
both input output (raised x) r = (estimate input, estimate output)
both input output (ok n) (raised x) = (estimate input, estimate output)

-- The token counts of the input and the output.
unfoldable pub count_both : Option (Text → Result CoreError ℕ) → Text → Text → ℕ × ℕ
unfolding both estimate
count_both none input output = (estimate input, estimate output)
count_both (some count) input output = both input output (count input) (count output)

-- The output and the cache for the next expert, once the prompt and the cache to use are known.
finish :
    Expert
    → Text
    → Bool
    → Bool
    → Result CoreError Text
    → Result CoreError (Text × Option KvCache × ExpertMetrics)
unfolding count_both
finish e effective used_kv succeeded run = do
  output ← run
  let combined = effective ++ (codes "\n" ++ output)
  let output_cache : Option KvCache =
      if e.backend.supports_kv_cache
      then elim (e.backend.encode combined) [ raised x ↦ none | ok c ↦ some c ]
      else none
  let counts = count_both e.backend.count_tokens effective output
  ok (
    output,
    output_cache,
    record {
      expert_name = e.name;
      role = e.role;
      params_m = e.backend.params_m;
      input_tokens = counts.0;
      output_tokens = counts.1;
      used_kv_cache = used_kv;
      cache_transfer_succeeded = succeeded;
    },
  )

run_text : Expert → Text → Bool → ℕ → Result CoreError (Text × Option KvCache × ExpertMetrics)
unfolding finish
run_text e text succeeded max_tokens =
    finish e text false succeeded (e.backend.generate text max_tokens)

run_cache :
    Expert
    → KvCache
    → Result CoreError KvCache
    → ℕ
    → Result CoreError (Text × Option KvCache × ExpertMetrics)
unfolding finish run_text
run_cache e cache (raised x) max_tokens = run_text e cache.source_text false max_tokens
run_cache e cache (ok transferred) max_tokens =
    finish e cache.source_text true true (e.backend.decode transferred max_tokens)

-- `Expert.invoke`
unfoldable pub invoke :
    Expert
    → Option Text
    → Option KvCache
    → ℕ
    → Result CoreError (Text × Option KvCache × ExpertMetrics)
unfolding run_text run_cache
invoke e none none max_tokens = raised value_error
invoke e (some prompt) none max_tokens = run_text e prompt true max_tokens
invoke e prompt (some cache) max_tokens =
    if e.backend.supports_kv_cache
    then run_cache e cache (e.backend.transfer_cache cache) max_tokens
    else run_text e cache.source_text true max_tokens
