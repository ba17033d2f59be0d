-- ===== src/Core/Adapters/HuggingFace/Transfers.antt =====
-- `transfer_cache` of src/chen/backends/hf.py.
use chen.Common.{◌≡◌, ◌≤◌, refl, true, none, inl, inr, eqb, eqb_iff, ltb, arith, Bool-cases}
use chen.Common.Result.{ok}
use chen.Core.Expert.{KvCache}
use chen.Core.Adapters.{ModelShape, fits}
use chen.Core.Adapters.Fitting.{
  IsCache, IsAdapted, same_layers, truncated-IsAdapted, padded-IsAdapted,
}
use chen.Core.Adapters.HuggingFace.{transfer_to}

-- A cache that is made anew has only the metadata that its constructor gives it.
bare_IsAdapted :
    (m : ModelShape) (c d : KvCache)
    → IsAdapted m (record c { layer_count_mismatch = none }) d
    → IsAdapted m (record c { layer_count_mismatch = d.layer_count_mismatch }) d
unfolding fits
bare_IsAdapted m c d a = record {
  cache = a.cache;
  layers = a.layers;
  keys = a.keys;
  values = a.values;
  same_heads = a.same_heads;
  same_model = a.same_model;
  same_text = a.same_text;
  same_token = a.same_token;
  same_position = a.same_position;
  same_metadata = refl;
}

-- A cache of a model with as many heads of one size is adapted, but for its metadata, and the adapted
-- cache is taken over again as it is.
pub taken_over_once :
    (m : ModelShape) (c : KvCache)
    → IsCache c
    → fits m c ≡ true
    → 1 ≤ c.source_layer_count
    → (d : KvCache) × (transfer_to m c ≡ ok d)
      × IsAdapted m (record c { layer_count_mismatch = d.layer_count_mismatch }) d
      × (transfer_to m d ≡ ok d)
unfolding transfer_to
taken_over_once m c is fit full = elim (Bool-cases (eqb c.source_layer_count m.layers)) [
  | inl same ↦
      let e = (eqb_iff c.source_layer_count m.layers).0 same in
      (c, ground (arith, fit, same), same_layers m c is e, ground (arith, fit, same))
  | inr differs ↦
      let bare : KvCache = record c { layer_count_mismatch = none } in
      elim (Bool-cases (ltb m.layers c.source_layer_count)) [
        | inl more ↦
            let (d, made, a) = truncated-IsAdapted m bare is (ground (arith, more)) in
            let is_adapted = bare_IsAdapted m c d a in
            let again = is_adapted.layers in
            let fit' = is_adapted.same_heads in
            (
              d,
              ground (arith, fit, differs, more, made),
              is_adapted,
              ground (arith, fit, fit', again),
            )
        | inr less ↦
            let (d, made, a) = padded-IsAdapted m bare is full (ground (arith, less)) in
            let is_adapted = bare_IsAdapted m c d a in
            let again = is_adapted.layers in
            let fit' = is_adapted.same_heads in
            (
              d,
              ground (arith, fit, differs, less, made),
              is_adapted,
              ground (arith, fit, fit', again),
            )
      ]
]
