-- ===== src/Core/Mock.antt =====
-- src/chen/backends/mock.py: the deterministic backend. BLAKE2b, UTF-8, `repr` and `str.strip` are
-- the parameter `Hashes`. The embedding is in ten-thousandths, which are what is printed of it.
-- The caches that `encode` also keeps in a dictionary that nothing reads are left out.
pub mod Shape
pub mod Answers
mod Examples
use chen.Common.{
  ℕ, zero, suc, ◌+◌, ◌-◌, ◌*◌, ◌/◌, ◌%◌, max, Text, String, codes, Bool, true, false, not, ◌&&◌,
  Option, none, some, List, [], ◌∷◌, ◌++◌, eqb, ltb, length, take, drop, map, set, get_elem?,
  tabulate, if◌then◌else◌, ◌==◌, text_key, codes_key,
}
use chen.Common.Result.{Result, ok, raised}
use chen.Core.Expert.{
  CoreError, zero_division, Tensor, KvCache, Backend, new_cache, seq_len, estimate,
}

-- `keyed seed chunk` is the 8-byte digest of a chunk as a number, `short` the number that the 4-byte
-- digest of a text is, and `hex` that digest as it is printed.
pub record Hashes : Type 0 where
  pub utf8 : Text → List ℕ
  pub keyed : ℕ → List ℕ → ℕ
  pub short : Text → ℕ
  pub hex : Text → Text
  pub repr : Text → Text
  pub strip : Text → Text

pub record MockBackend : Type 0 where
  pub params_m : ℕ
  pub model_id : Text
  pub n_layers : ℕ
  pub n_heads : ℕ
  pub head_dim : ℕ
  pub seed : ℕ
  pub role_hint : Text

-- A number in decimal: `n + 1` rounds are enough.
digits : ℕ → ℕ → Text → Text
digits zero n acc = acc
digits (suc fuel) n acc =
    let rest = digits fuel (n / 10) ((48 + n % 10) ∷ acc) in
    if ltb n 10 then (48 + n) ∷ acc else rest

unfoldable pub decimal : ℕ → Text
unfolding digits
decimal n = digits (suc n) n []

-- A number of ten-thousandths below 1 with four decimals.
unfoldable pub four_decimals : ℕ → Text
four_decimals n =
    codes "0." ++ (48 + n / 1000) ∷ (48 + n / 100 % 10) ∷ (48 + n / 10 % 10) ∷ (48 + n % 10) ∷ []

-- `__post_init__`
unfoldable pub new_mock : MockBackend → MockBackend
unfolding decimal
new_mock b =
    if b.model_id == []
    then record b {
      model_id = codes "mock-" ++ (decimal (b.params_m / 1000) ++ (codes "B-" ++ b.role_hint));
    }
    else b

zeros : ℕ → List ℕ
zeros zero = []
zeros (suc n) = 0 ∷ zeros n

-- The chunks from offset `i` on; each round uses up eight bytes.
fold_chunks : Hashes → ℕ → ℕ → ℕ → ℕ → List ℕ → List ℕ → List ℕ
fold_chunks h zero dim seed i bytes out = out
fold_chunks h (suc fuel) dim seed i bytes out =
    let out' = set out (i / 8 % dim) (h.keyed (seed + i) (take 8 bytes) % 10000) in
    let rest = fold_chunks h fuel dim seed (i + 8) (drop 8 bytes) out' in
    if ltb 8 (length bytes) then rest else out'

-- `_hash_to_embedding`
unfoldable pub hash_to_embedding : Hashes → Text → ℕ → ℕ → List ℕ
unfolding fold_chunks zeros
hash_to_embedding h text dim seed =
    let bytes = h.utf8 text in fold_chunks h (suc (length bytes)) dim seed 0 bytes (zeros dim)

at : List ℕ → ℕ → ℕ
at xs i = elim (get_elem? xs i) [ none ↦ 0 | some x ↦ x ]

step_line : List ℕ → ℕ → Text
unfolding at decimal four_decimals
step_line emb i =
    codes "  step "
    ++ (decimal (i + 1)
        ++ (codes ": latent[" ++ (decimal i ++ (codes "] = " ++ four_decimals (at emb (i % 32))))))

-- The lines of the steps from `i` on, joined.
step_lines : List ℕ → ℕ → ℕ → Text
unfolding step_line
step_lines emb i zero = []
step_lines emb i (suc zero) = step_line emb i
step_lines emb i (suc (suc n)) = step_line emb i ++ (codes "\n" ++ step_lines emb (i + 1) (suc n))

spaced : Text → Text
spaced [] = []
spaced (c ∷ cs) = (if eqb c 10 then 32 else c) ∷ spaced cs

who : MockBackend → Text
unfolding decimal
who b = codes "[" ++ (b.role_hint ++ (codes "@" ++ (decimal (b.params_m / 1000) ++ codes "B] ")))

-- `generate`
unfoldable pub generate : Hashes → MockBackend → Text → Text
unfolding hash_to_embedding step_lines spaced who decimal
generate h b prompt =
    let emb = hash_to_embedding h prompt 32 b.seed in
    let reasoning_steps = max 1 (b.params_m / 2000) in
    who b
    ++ (codes "prompt_id="
        ++ (h.hex prompt
            ++ (codes "\ninput: "
                ++ (h.repr (take 80 (spaced (h.strip prompt)))
                    ++ (codes "\nreasoning ("
                        ++ (decimal reasoning_steps
                            ++ (codes " steps):\n"
                                ++ (step_lines emb 0 reasoning_steps
                                    ++ (codes "\noutput: processed by " ++ b.model_id)))))))))

-- The keys or the values of a layer, whose kind and whose seed are told apart.
unfoldable pub layer_array : Hashes → MockBackend → Text → Text → ℕ → ℕ → ℕ → Tensor
unfolding hash_to_embedding decimal
layer_array h b prompt kind offset len layer = record {
  shape = len ∷ b.n_heads ∷ b.head_dim ∷ [];
  items =
      hash_to_embedding h
        (prompt ++ (codes "|layer=" ++ (decimal layer ++ (codes "|kind=" ++ kind))))
        (b.n_heads * b.head_dim * len) (b.seed + layer + offset);
}

-- `KVCache(...)` of `encode`
unfoldable pub encoded : Hashes → MockBackend → Text → KvCache
unfolding layer_array
encoded h b prompt =
    let len = max 1 (length prompt / 4) in
    record {
      keys = tabulate (layer_array h b prompt (codes "key") 0 len) 0 b.n_layers;
      values = tabulate (layer_array h b prompt (codes "val") 1000 len) 0 b.n_layers;
      source_model = b.model_id;
      source_layer_count = b.n_layers;
      source_hidden_size = b.n_heads * b.head_dim;
      source_n_heads = b.n_heads;
      source_text = prompt;
      last_token_id = h.short prompt % 32000;
      position = len - 1;
      layer_count_mismatch = none;
    }

-- `encode`; the index of a layer without entries is a remainder by zero.
unfoldable pub encode : Hashes → MockBackend → Text → Result CoreError KvCache
unfolding encoded
encode h b prompt =
    if ltb 0 b.n_layers && eqb (b.n_heads * b.head_dim) 0
    then raised zero_division
    else new_cache (encoded h b prompt)

-- `decode`
unfoldable pub decode : Hashes → MockBackend → KvCache → Text
unfolding who decimal
decode h b c =
    let suffix =
      if c.source_model == b.model_id
      then []
      else codes " (transferred from " ++ (c.source_model ++ codes ")") in
    who b
    ++ (codes "decoded from cache ("
        ++ (decimal c.source_layer_count
            ++ (codes " layers, seq_len="
                ++ (decimal (seq_len c)
                    ++ (codes ")"
                        ++ (suffix
                            ++ (codes "\nsource: "
                                ++ (h.repr (take 80 c.source_text)
                                    ++ (codes "\noutput: decoded by " ++ b.model_id)))))))))

unfoldable pub same_shape : MockBackend → KvCache → Bool
same_shape b c =
    eqb c.source_layer_count b.n_layers
    && (eqb c.source_n_heads b.n_heads && eqb c.source_hidden_size (b.n_heads * b.head_dim))

-- `transfer_cache`
unfoldable pub transfer_cache : Hashes → MockBackend → KvCache → Result CoreError KvCache
unfolding same_shape encode
transfer_cache h b c = if same_shape b c then ok c else encode h b c.source_text

-- `MockBackend` as a backend
unfoldable pub as_backend : Hashes → MockBackend → Backend
unfolding generate encode decode transfer_cache estimate
as_backend h b = record {
  params_m = b.params_m;
  supports_kv_cache = true;
  generate = λ prompt max_tokens. ok (generate h b prompt);
  encode = encode h b;
  decode = λ c max_tokens. ok (decode h b c);
  transfer_cache = transfer_cache h b;
  count_tokens = some (λ text. ok (estimate text));
}
