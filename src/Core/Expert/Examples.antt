-- ===== src/Core/Expert/Examples.antt =====
-- Experts at concrete inputs.
use chen.Common.{codes, true, false, ◌≡◌, refl, none, some, [], ◌∷◌, All}
use chen.Common.Result.{Result, ok, raised}
use chen.Core.Expert.{
  analyst, KvCache, CoreError, backend_failed, Backend, Expert, ExpertMetrics, invoke, estimate,
  count_both,
}
use chen.Core.Metrics.{CostModel}
use chen.Core.Metrics.Totals.{IsRecorded}

abbrev cache : KvCache
cache = record {
  keys = [];
  values = [];
  source_model = codes "m";
  source_layer_count = 0;
  source_hidden_size = 0;
  source_n_heads = 0;
  source_text = codes "hi";
  last_token_id = 0;
  position = 0;
  layer_count_mismatch = none;
}

abbrev echo : (KvCache → Result CoreError KvCache) → Backend
echo transfer = record {
  params_m = 7;
  supports_kv_cache = true;
  generate = λ text n. ok text;
  encode = λ text. raised backend_failed;
  decode = λ c n. ok c.source_text;
  transfer_cache = transfer;
  count_tokens = none;
}

abbrev able : Expert
able = record { name = "a"; role = analyst; backend = echo (λ c. ok c); description = "" }

abbrev unable : Expert
unable = record able { backend = echo (λ c. raised backend_failed) }

abbrev moved : ExpertMetrics
moved = record {
  expert_name = "a";
  role = analyst;
  params_m = 7;
  input_tokens = 1;
  output_tokens = 1;
  used_kv_cache = true;
  cache_transfer_succeeded = true;
}

abbrev failed : ExpertMetrics
failed = record moved { used_kv_cache = false; cache_transfer_succeeded = false }

moved-run : invoke able none (some cache) 8 ≡ ok (codes "hi", none, moved)
unfolding invoke estimate count_both
moved-run = refl

failed-run : invoke unable none (some cache) 8 ≡ ok (codes "hi", none, failed)
unfolding invoke estimate count_both
failed-run = refl

abbrev rates : CostModel
rates = record { input_per_1m = 150000; output_per_1m = 600000 }

both-IsRecorded : All IsRecorded (moved ∷ failed ∷ [])
both-IsRecorded = (
  (able, none, some cache, (8, codes "hi", none, moved-run)),
  ((unable, none, some cache, (8, codes "hi", none, failed-run)), tt),
)
