-- ===== src/Core/Carbon/Examples.antt =====
-- The scheduler at concrete inputs.
use chen.Common.{ℕ, ◌+◌, ◌-◌, ◌*◌, ◌/◌, max, codes, true, ◌≡◌, refl, Option, none, some, []}
use chen.Common.Dict.{lookup}
use chen.Core.Carbon.{Floats, Answer, Clock, CarbonAwareScheduler, by_default}

abbrev naturals : Floats ℕ
naturals = record {
  number = λ n. n;
  plus = λ i j. i + j;
  minus = λ i j. i - j;
  times = λ i j. i * j;
  over = λ i j. i / j;
  max = λ i j. max i j;
}

abbrev at : ℕ → Clock
at n = record { checked = n; made = n; kept = n }

abbrev scheduler : CarbonAwareScheduler ℕ
scheduler = record {
  enabled = true;
  api_key = some (codes "k");
  default_zone = "US-NW";
  cache_ttl = 300;
  carbon_weight = 0;
  cache = [];
}

abbrev clean : Option (Answer ℕ)
clean = some (record { carbon_intensity = some 10; renewable = none; fossil = none })

default_of_france : (by_default naturals "FR" (at 1)).intensity_gco2_kwh ≡ 50
unfolding by_default lookup
default_of_france = refl
