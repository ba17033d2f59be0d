-- ===== src/Core/Adapters/Fitting.antt =====
-- How a cache is fitted to the number of layers of a model (`transfer_cache` of
-- src/chen/backends/vllm.py and src/chen/backends/llama_cpp.py).
use chen.Common.{
  ℕ, ◌-◌, ◌≤◌, ◌≡◌, refl, inl, inr, true, ◌++◌, length, take, eqb, arith, take-append_of,
  Bool-cases,
}
use chen.Common.Result.{ok}
use chen.Core.Expert.{KvCache, new_cache}
use chen.Core.Adapters.{ModelShape, fits, truncated, padded, transfer_to}
use chen.Core.Adapters.Layers.{IsFitted, get_elem?-within, take-IsFitted, pad-IsFitted, pad-append}

-- `KVCache` holds as many keys and values as it says.
abbrev pub IsCache : KvCache → Type 0
IsCache c = (length c.keys ≡ c.source_layer_count) × (length c.values ≡ c.source_layer_count)

pub new_cache-IsCache : (c made : KvCache) → new_cache c ≡ ok made → IsCache made
unfolding new_cache
new_cache-IsCache c made done = ground arith

pub new_cache-same : (c : KvCache) → IsCache c → new_cache c ≡ ok c
unfolding new_cache
new_cache-same c is = ground arith

-- What `transfer_cache` makes of a cache for a model of some shape: only the layers change.
-- (The documentation of both methods promises an error for another number of layers.)
pub record IsAdapted (m : ModelShape) (c d : KvCache) : Type 0 where
  pub cache : IsCache d
  pub layers : d.source_layer_count ≡ m.layers
  pub keys : IsFitted m.layers c.keys d.keys
  pub values : IsFitted m.layers c.values d.values
  pub same_heads : fits m d ≡ fits m c
  pub same_model : d.source_model ≡ c.source_model
  pub same_text : d.source_text ≡ c.source_text
  pub same_token : d.last_token_id ≡ c.last_token_id
  pub same_position : d.position ≡ c.position
  pub same_metadata : d.layer_count_mismatch ≡ c.layer_count_mismatch

pub same_layers :
    (m : ModelShape) (c : KvCache) → IsCache c → c.source_layer_count ≡ m.layers → IsAdapted m c c
same_layers m c is same = record {
  cache = is;
  layers = same;
  keys = (
    omega arith,
    λ i less. let (t, here) = get_elem?-within i c.keys (omega arith) in ground (arith, here),
  );
  values = (
    omega arith,
    λ i less. let (t, here) = get_elem?-within i c.values (omega arith) in ground (arith, here),
  );
  same_heads = refl;
  same_model = refl;
  same_text = refl;
  same_token = refl;
  same_position = refl;
  same_metadata = refl;
}

pub truncated-IsAdapted :
    (m : ModelShape) (c : KvCache)
    → IsCache c
    → m.layers ≤ c.source_layer_count
    → (d : KvCache) × (truncated m.layers c ≡ ok d) × IsAdapted m c d
unfolding truncated fits
truncated-IsAdapted m c is more =
    let d : KvCache = record c {
      keys = take m.layers c.keys;
      values = take m.layers c.values;
      source_layer_count = m.layers;
    } in
    let ks = take-IsFitted m.layers c.keys (omega arith) in
    let vs = take-IsFitted m.layers c.values (omega arith) in
    (
      d,
      new_cache-same d (ks.0, vs.0),
      record {
        cache = (ks.0, vs.0);
        layers = refl;
        keys = ks;
        values = vs;
        same_heads = refl;
        same_model = refl;
        same_text = refl;
        same_token = refl;
        same_position = refl;
        same_metadata = refl;
      },
    )

pub padded-IsAdapted :
    (m : ModelShape) (c : KvCache)
    → IsCache c
    → 1 ≤ c.source_layer_count
    → c.source_layer_count ≤ m.layers
    → (d : KvCache) × (padded m.layers c ≡ ok d) × IsAdapted m c d
unfolding padded fits
padded-IsAdapted m c is full less =
    let (ks, kd, kf) = pad-IsFitted m.layers c.keys (omega arith) (omega arith) in
    let (vs, vd, vf) = pad-IsFitted m.layers c.values (omega arith) (omega arith) in
    let d : KvCache = record c { keys = ks; values = vs; source_layer_count = m.layers } in
    let made = new_cache-same d (kf.0, vf.0) in
    (
      d,
      ground (arith, is.0, is.1, kd, vd, made),
      record {
        cache = (kf.0, vf.0);
        layers = refl;
        keys = kf;
        values = vf;
        same_heads = refl;
        same_model = refl;
        same_text = refl;
        same_token = refl;
        same_position = refl;
        same_metadata = refl;
      },
    )

-- A cache with as many layers as a model of a layer or more, and of its heads and hidden size, which
-- a model of as many layers or more and the same heads takes over, is taken back by the first model
-- as the cache that it was.
pub there_and_back :
    (m : ModelShape) (n : ℕ) (c : KvCache)
    → IsCache c
    → fits m c ≡ true
    → 1 ≤ m.layers
    → m.layers ≤ n
    → c.source_layer_count ≡ m.layers
    → (d : KvCache) × (transfer_to (record m { layers = n }) c ≡ ok d) × (transfer_to m d ≡ ok c)
unfolding transfer_to fits padded truncated
there_and_back m n c is fit full less own = elim (Bool-cases (eqb m.layers n)) [
  | inl same ↦ (c, ground (arith, fit, own, same), ground (arith, fit, own))
  | inr differs ↦
      let (ks, kd, kl) = pad-append c.keys (n - c.source_layer_count) (omega arith) in
      let (vs, vd, vl) = pad-append c.values (n - c.source_layer_count) (omega arith) in
      let kt = take-append_of m.layers c.keys ks (omega arith) in
      let vt = take-append_of m.layers c.values vs (omega arith) in
      let d : KvCache = record c {
        keys = c.keys ++ ks;
        values = c.values ++ vs;
        source_layer_count = n;
      } in
      let made = new_cache-same d (omega arith, omega arith) in
      (
        d,
        ground (arith, fit, own, differs, less, kd, vd, made),
        ground (arith, fit, differs, less, own, kt, vt, is.0, is.1),
      )
]
