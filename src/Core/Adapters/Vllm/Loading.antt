-- ===== src/Core/Adapters/Vllm/Loading.antt =====
-- The loading of an engine by src/chen/backends/vllm.py.
use chen.Common.{ℕ, Text, true, false, ◌≡◌, refl, none, some, arith}
use chen.Common.Result.{ok, raised}
use chen.Core.Expert.{config_error, not_available, runtime_error}
use chen.Core.Adapters.Vllm.{
  VllmLibrary, VllmBackend, ensure_loaded, resolve_params, generate, encode, count_tokens,
}

module _ {M K : Type 0} (lib : VllmLibrary M K) where
  loaded_stays : (b : VllmBackend M K) (m : M) → b.llm ≡ some m → ensure_loaded lib b ≡ (ok m, b)
  unfolding ensure_loaded
  loaded_stays b m there = ground (arith, there)

  resolve_params-keeps :
      (b : VllmBackend M K)
      → ((resolve_params lib b).llm ≡ b.llm) × ((resolve_params lib b).tokenizer ≡ b.tokenizer)
  unfolding resolve_params
  resolve_params-keeps b = (ground arith, ground arith)

  -- A backend without an engine that loads one keeps it with its tokenizer, and every later call
  -- finds them: nothing is loaded twice.
  pub loaded_once :
      (b : VllmBackend M K) (m : M) (k : K)
      → b.llm ≡ none
      → lib.installed ≡ true
      → lib.load b.model_id b.block_size ≡ some m
      → lib.get_tokenizer m ≡ some k
      → (later : VllmBackend M K) × (ensure_loaded lib b ≡ (ok m, later))
        × (later.llm ≡ some m)
        × (later.tokenizer ≡ some k)
        × (ensure_loaded lib later ≡ (ok m, later))
  unfolding ensure_loaded
  loaded_once b m k fresh there loads reads =
      let half : VllmBackend M K = record b { llm = some m; tokenizer = some k } in
      let kept = resolve_params-keeps half in
      (
        resolve_params lib half,
        ground (arith, fresh, there, loads, reads),
        kept.0,
        kept.1,
        loaded_stays (resolve_params lib half) m kept.0,
      )

  -- A backend whose library is missing is as it was.
  pub missing_unchanged :
      (b : VllmBackend M K)
      → b.llm ≡ none
      → lib.installed ≡ false
      → ensure_loaded lib b ≡ (raised not_available, b)
  unfolding ensure_loaded
  missing_unchanged b fresh missing = ground (arith, fresh, missing)

  -- An engine that loads, but whose tokenizer fails, stays in a backend that had none: the first call
  -- raises a configuration error, and after it a text is generated like with a whole backend, while
  -- no text is encoded and no token counted.
  pub half_loaded :
      (b : VllmBackend M K) (m : M) (text : Text) (max_tokens : ℕ)
      → b.llm ≡ none
      → b.tokenizer ≡ none
      → lib.installed ≡ true
      → lib.load b.model_id b.block_size ≡ some m
      → lib.get_tokenizer m ≡ none
      → (later : VllmBackend M K) × (generate lib b text max_tokens ≡ (raised config_error, later))
        × (generate lib later text max_tokens ≡ (lib.complete m text max_tokens, later))
        × (encode lib later text ≡ (raised runtime_error, later))
        × (count_tokens lib later text ≡ (raised runtime_error, later))
  unfolding generate encode count_tokens
  half_loaded b m text max_tokens fresh blank there loads fails = (
    record b { llm = some m },
    ground (arith, fresh, there, loads, fails),
    refl,
    ground (arith, blank),
    ground (arith, blank),
  )
