-- ===== src/Core/Adapters/HuggingFace/Serving.antt =====
-- A loaded backend of src/chen/backends/hf.py.
use chen.Common.{ℕ, Text, ◌≡◌, refl, some, List, ◌++◌, length, drop-append, ap, arith}
use chen.Common.Result.{Result, ok, ◌>>=◌}
use chen.Core.Expert.{CoreError, KvCache}
use chen.Core.Adapters.{transferred_prefix}
use chen.Core.Adapters.HuggingFace.{HfLibrary, HuggingFaceBackend}
use chen.Core.Adapters.HuggingFace.Methods.{
  ensure_loaded, complete, generate, encode, decode, transfer_cache, count_tokens,
}

module _ {M K : Type 0} (lib : HfLibrary M K) where
  module _ (b : HuggingFaceBackend M K) (m : M) (k : K) (there : b.model ≡ some m)
      (reads : b.tokenizer ≡ some k) where
    -- A loaded backend whose model puts new tokens behind those of a text generates the text of the new
    -- tokens alone for it; decodes a cache of that text, whatever its arrays and its model are, to
    -- the same text, behind a note if the cache is of another model; counts its tokens; and is
    -- the same after each of these calls, after encoding and after a transfer.
    pub loaded_lem :
        (c : KvCache) (new : List ℕ) (n : ℕ)
        → lib.generate_ids m (lib.input_ids k c.source_text) n
          ≡ ok (lib.input_ids k c.source_text ++ new)
        → (generate lib b c.source_text n ≡ (ok (lib.decode_ids k new), b))
          × (decode lib b c n ≡ (ok (transferred_prefix b.model_id c ++ lib.decode_ids k new), b))
          × ((encode lib b c.source_text).1 ≡ b)
          × ((transfer_cache lib b c).1 ≡ b)
          × (count_tokens lib b c.source_text ≡ (ok (length (lib.input_ids k c.source_text)), b))
    unfolding generate decode encode transfer_cache count_tokens complete ensure_loaded
    loaded_lem c new n done =
        let loaded : ensure_loaded lib b ≡ (ok m, b) = ground (arith, there) in
        let ids = lib.input_ids k c.source_text in
        let cut = drop-append ids new in
        let made : complete lib b c.source_text n m ≡ ok (lib.decode_ids k new) =
          ground (arith, reads, done, cut) in
        (
          rw loaded (ap (λ r. (r, b)) made),
          rw loaded (
              ap
                (λ (r : Result CoreError Text).
                  (r >>= (λ text. ok (transferred_prefix b.model_id c ++ text)), b))
                made),
          rw loaded refl,
          rw loaded refl,
          ground (arith, there, reads),
        )
