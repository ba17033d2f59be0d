-- ===== src/Core/Mock/Shape.antt =====
-- The caches of the deterministic backend (src/chen/backends/mock.py).
use chen.Common.{
  ℕ, zero, suc, ◌+◌, ◌*◌, ◌/◌, ◌%◌, ◌≤◌, Text, true, ◌≡◌, refl, ap, List, length, take, drop, set,
  max, arith, tabulate, length-tabulate, length-set, codes,
}
use chen.Common.Result.{ok}
use chen.Core.Expert.{
  Tensor, KvCache, new_cache, seq_len, n_heads, head_dim, dim, nth, nbytes, is_compatible_with,
  bytes_size, total_bytes,
}
use chen.Core.Mock.{
  Hashes, MockBackend, zeros, fold_chunks, hash_to_embedding, layer_array, encoded, encode,
  same_shape, transfer_cache,
}

length-zeros : (n : ℕ) → length (zeros n) ≡ n
unfolding zeros
length-zeros zero = refl
length-zeros (suc n) = ground (arith, length-zeros n)

length-fold_chunks :
    (h : Hashes) (fuel dim seed i : ℕ) (bytes out : List ℕ)
    → length (fold_chunks h fuel dim seed i bytes out) ≡ length out
unfolding fold_chunks
length-fold_chunks h zero dim seed i bytes out = refl
length-fold_chunks h (suc fuel) dim seed i bytes out =
    let v = h.keyed (seed + i) (take 8 bytes) % 10000 in
    let out' = set out (i / 8 % dim) v in
    let same = length-set out (i / 8 % dim) v in
    let rest = length-fold_chunks h fuel dim seed (i + 8) (drop 8 bytes) out' in
    ground (arith, same, rest)

length-hash_to_embedding :
    (h : Hashes) (text : Text) (dim seed : ℕ) → length (hash_to_embedding h text dim seed) ≡ dim
unfolding hash_to_embedding
length-hash_to_embedding h text dim seed =
    let bytes = h.utf8 text in
    let all = length-fold_chunks h (suc (length bytes)) dim seed 0 bytes (zeros dim) in
    ground (arith, all, length-zeros dim)

-- Arrays of one size.
total_bytes-tabulate :
    (f : ℕ → Tensor) (size : ℕ)
    → ((i : ℕ) → nbytes (f i) ≡ size)
    → (lo n : ℕ) → total_bytes (tabulate f lo n) ≡ n * size
unfolding total_bytes
total_bytes-tabulate f size same lo zero = ground arith
total_bytes-tabulate f size same lo (suc n) =
    ground (arith, same lo, total_bytes-tabulate f size same (lo + 1) n)

nbytes-layer_array :
    (h : Hashes) (b : MockBackend) (prompt kind : Text) (offset len layer : ℕ)
    → nbytes (layer_array h b prompt kind offset len layer) ≡ 4 * (b.n_heads * b.head_dim * len)
unfolding nbytes layer_array
nbytes-layer_array h b prompt kind offset len layer =
    ap (λ (n : ℕ). 4 * n) (length-hash_to_embedding h _ (b.n_heads * b.head_dim * len) _)

pub new_cache-encoded :
    (h : Hashes) (b : MockBackend) (text : Text)
    → new_cache (encoded h b text) ≡ ok (encoded h b text)
unfolding new_cache encoded
new_cache-encoded h b text =
    let len = max 1 (length text / 4) in
    let ks = length-tabulate (layer_array h b text (codes "key") 0 len) 0 b.n_layers in
    let vs = length-tabulate (layer_array h b text (codes "val") 1000 len) 0 b.n_layers in
    ground (arith, ks, vs)

first_shape :
    (f : ℕ → Tensor) (n : ℕ) → 1 ≤ n → (i : ℕ) → dim i (tabulate f 0 n) ≡ nth i (f 0).shape
unfolding dim
first_shape f zero h i = absurd (omega arith)
first_shape f (suc n) h i = refl

-- A mock backend with a layer, a head and a head dimension or more encodes every text, to a cache
-- that `KVCache` accepts unchanged, that is compatible with the backend's own shape, whose position
-- is that of its last token, and whose size is that of two 32-bit tensors for each layer.
pub encode-accepted :
    (h : Hashes) (b : MockBackend) (text : Text)
    → 1 ≤ b.n_layers
    → 1 ≤ b.n_heads * b.head_dim
    → (c : KvCache) × (encode h b text ≡ ok c)
      × (new_cache c ≡ ok c)
      × (is_compatible_with b.n_layers b.n_heads b.head_dim c ≡ true)
      × (c.position + 1 ≡ seq_len c)
      × (bytes_size c ≡ 2 * (b.n_layers * (4 * (b.n_heads * b.head_dim * seq_len c))))
unfolding encode encoded is_compatible_with n_heads head_dim seq_len bytes_size nth layer_array
encode-accepted h b text layered wide =
    let len = max 1 (length text / 4) in
    let key : ℕ → Tensor = layer_array h b text (codes "key") 0 len in
    let value : ℕ → Tensor = layer_array h b text (codes "val") 1000 len in
    let each = 4 * (b.n_heads * b.head_dim * len) in
    let ks =
      total_bytes-tabulate key each (nbytes-layer_array h b text (codes "key") 0 len) 0
        b.n_layers in
    let vs =
      total_bytes-tabulate value each (nbytes-layer_array h b text (codes "val") 1000 len) 0
        b.n_layers in
    let d0 = first_shape key b.n_layers layered 0 in
    let d1 = first_shape key b.n_layers layered 1 in
    let d2 = first_shape key b.n_layers layered 2 in
    let new = new_cache-encoded h b text in
    (
      encoded h b text,
      ground (arith, new),
      new,
      ground (arith, d1, d2),
      ground (arith, d0),
      ground (arith, ks, vs, d0),
    )

-- A cache that a mock backend takes over has the shape of the backend and stands for the same
-- text as before; taking it over once more leaves it as it is.
pub transfer_cache_lem :
    (h : Hashes) (b : MockBackend) (c taken : KvCache)
    → transfer_cache h b c ≡ ok taken
    → (same_shape b taken ≡ true)
      × (taken.source_text ≡ c.source_text)
      × (transfer_cache h b taken ≡ ok taken)
unfolding transfer_cache encode encoded same_shape
transfer_cache_lem h b c taken done =
    let new = new_cache-encoded h b c.source_text in ground (arith, new)
