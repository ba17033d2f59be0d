-- ===== src/Core/Carbon.antt =====
-- src/chen/core/carbon.py: the scheduler and its cache of readings. Floats are the parameter `Floats`;
-- times and the life of a reading are in one unit of the clock. What the API answers is an
-- argument of the call, `none` where it raises, and so are the readings of the clock.
pub mod Cached
mod Examples
use chen.Common.{
  ℕ, ◌+◌, Text, String, Bool, true, false, Option, none, some, List, [], ◌∷◌, ltb, if◌then◌else◌,
  ◌==◌, text_key,
}
use chen.Common.Dict.{Dict, lookup, insert}

pub record Floats (F : Type 0) : Type 0 where
  pub number : ℕ → F
  pub plus : F → F → F
  pub minus : F → F → F
  pub times : F → F → F
  pub over : F → F → F
  pub max : F → F → F

pub record CarbonIntensity (F : Type 0) : Type 0 where
  pub zone : String
  pub intensity_gco2_kwh : F
  pub renewable_ratio : F
  pub fossil_ratio : F
  pub timestamp : ℕ
  pub source : String

-- What the API says of a zone, without the items that are missing.
pub record Answer (F : Type 0) : Type 0 where
  pub carbon_intensity : Option F
  pub renewable : Option F
  pub fossil : Option F

-- The readings of the clock in one call: when the cache is checked, when the reading is made and
-- when it is kept.
pub record Clock : Type 0 where
  pub checked : ℕ
  pub made : ℕ
  pub kept : ℕ

pub record CarbonAwareScheduler (F : Type 0) : Type 0 where
  pub enabled : Bool
  pub api_key : Option Text
  pub default_zone : String
  pub cache_ttl : ℕ
  pub carbon_weight : F
  pub cache : Dict String (ℕ × CarbonIntensity F)

unfoldable pub zone_defaults : Dict String ℕ
zone_defaults =
    ("US-NW", 50)
    ∷ ("US-CA", 100)
    ∷ ("US-SE", 400)
    ∷ ("US-TX", 350)
    ∷ ("US-NY", 200)
    ∷ ("FR", 50)
    ∷ ("DE", 350)
    ∷ ("GB", 250)
    ∷ ("NO", 20)
    ∷ ("PL", 600)
    ∷ ("CN", 550)
    ∷ ("IN", 700)
    ∷ ("AU", 500)
    ∷ ("DEFAULT", 400)
    ∷ []

unfoldable pub zone_default : String → ℕ
unfolding zone_defaults
zone_default z = elim (lookup z zone_defaults) [ none ↦ 400 | some n ↦ n ]

-- `x or y` on the texts of the environment and of the arguments
unfoldable pub has_text : Option Text → Bool
has_text none = false
has_text (some []) = false
has_text (some (c ∷ cs)) = true

unfoldable pub first_text : Option Text → Option Text → Option Text
unfolding has_text
first_text a b = if has_text a then a else b

module _ {F : Type 0} where
  -- `__post_init__`, with what the environment says
  unfoldable pub new_scheduler :
      Option Text → Option String → CarbonAwareScheduler F → CarbonAwareScheduler F
  unfolding first_text
  new_scheduler env_key env_zone s =
      if s.enabled
      then record s {
        api_key = first_text s.api_key env_key;
        default_zone = elim env_zone [ none ↦ s.default_zone | some z ↦ z ];
      }
      else s

  unfoldable pub zone_of : CarbonAwareScheduler F → Option String → String
  zone_of s none = s.default_zone
  zone_of s (some z) = if z == "" then s.default_zone else z

  -- The reading in the cache, while it is fresh.
  unfoldable pub cached : ℕ → String → CarbonAwareScheduler F → Option (CarbonIntensity F)
  cached checked z s = elim (lookup z s.cache) [
    | none ↦ none
    | some (ts, c) ↦ if ltb checked (ts + s.cache_ttl) then some c else none
  ]

  -- `data.get(key, default)`
  given : Option F → F → F
  given none d = d
  given (some x) d = x

  -- `_fetch_from_api`
  unfoldable pub fetch_from_api : Floats F → String → Clock → Answer F → CarbonIntensity F
  unfolding given
  fetch_from_api f z t a = record {
    zone = z;
    intensity_gco2_kwh = given a.carbon_intensity (f.number 400);
    renewable_ratio = given a.renewable (f.number 0);
    fossil_ratio = given a.fossil (f.number 0);
    timestamp = t.made;
    source = "electricity_maps";
  }

  unfoldable pub by_default : Floats F → String → Clock → CarbonIntensity F
  unfolding zone_default
  by_default f z t = record {
    zone = z;
    intensity_gco2_kwh = f.number (zone_default z);
    renewable_ratio = f.number 0;
    fossil_ratio = f.number 0;
    timestamp = t.made;
    source = "zone_default";
  }

  -- The reading that is not in the cache.
  unfoldable pub new_reading :
      Floats F → String → Clock → Option (Answer F) → CarbonAwareScheduler F → CarbonIntensity F
  unfolding fetch_from_api by_default has_text
  new_reading f z t none s = by_default f z t
  new_reading f z t (some a) s =
      if has_text s.api_key then fetch_from_api f z t a else by_default f z t

  -- `get_intensity`
  unfoldable pub get_intensity :
      Floats F
      → Option String
      → Clock
      → Option (Answer F)
      → CarbonAwareScheduler F
      → CarbonIntensity F × CarbonAwareScheduler F
  unfolding zone_of cached new_reading
  get_intensity f zone t answer s =
      let z = zone_of s zone in
      elim (cached t.checked z s) [
        | some c ↦ (c, s)
        | none ↦
            let c = new_reading f z t answer s in
            (c, record s { cache = insert z (t.kept, c) s.cache })
      ]

  -- `score_expert`
  unfoldable pub score_expert :
      Floats F
      → Option String
      → F
      → Clock
      → Option (Answer F)
      → CarbonAwareScheduler F
      → F × CarbonAwareScheduler F
  unfolding get_intensity
  score_expert f zone base_score t answer s =
      if s.enabled
      then (let (i, s') = get_intensity f zone t answer s in
          let one = f.number 1 in
          let carbon_score =
            f.max (f.number 0) (f.minus one (f.over i.intensity_gco2_kwh (f.number 700))) in
          (
            f.plus (f.times base_score (f.minus one s.carbon_weight))
                (f.times carbon_score s.carbon_weight),
            s',
          ))
      else (base_score, s)

  -- `estimate_co2`
  unfoldable pub estimate_co2 :
      Floats F
      → F
      → Option String
      → Clock
      → Option (Answer F)
      → CarbonAwareScheduler F
      → F × CarbonAwareScheduler F
  unfolding get_intensity
  estimate_co2 f energy_kwh zone t answer s =
      let (i, s') = get_intensity f zone t answer s in (f.times energy_kwh i.intensity_gco2_kwh, s')
