-- ===== src/Core/Carbon/Cached.antt =====
-- How long a reading is used (src/chen/core/carbon.py).
use chen.Common.{
  ℕ, ◌+◌, ◌<◌, String, false, ◌≡◌, inl, inr, Option, none, some, List, [], ◌∷◌, All, arith, ◌==◌,
  text_key, Bool-cases, Option-cases,
}
use chen.Common.Dict.{lookup, lookup-insert}
use chen.Core.Carbon.{
  Floats, Answer, Clock, CarbonIntensity, CarbonAwareScheduler, zone_of, cached, new_reading,
  get_intensity, score_expert, estimate_co2,
}

-- One call of one of the three methods.
pub data Call (F : Type 0) : Type 0 where
  intensity : Option String → Clock → Option (Answer F) → Call F
  score : Option String → F → Clock → Option (Answer F) → Call F
  co2 : F → Option String → Clock → Option (Answer F) → Call F

unfoldable pub checked_at : {F : Type 0} → Call F → ℕ
checked_at (intensity place t answer) = t.checked
checked_at (score place base t answer) = t.checked
checked_at (co2 energy place t answer) = t.checked

unfoldable pub after_call :
    {F : Type 0} → Floats F → Call F → CarbonAwareScheduler F → CarbonAwareScheduler F
unfolding get_intensity score_expert estimate_co2
after_call f (intensity place t answer) s = (get_intensity f place t answer s).1
after_call f (score place base t answer) s = (score_expert f place base t answer s).1
after_call f (co2 energy place t answer) s = (estimate_co2 f energy place t answer s).1

unfoldable pub after_calls :
    {F : Type 0} → Floats F → List (Call F) → CarbonAwareScheduler F → CarbonAwareScheduler F
unfolding after_call
after_calls f [] s = s
after_calls f (c ∷ cs) s = after_calls f cs (after_call f c s)

module _ {F : Type 0} (f : Floats F) (z : String) (kept ttl : ℕ) (c : CarbonIntensity F) where
  -- The cache holds the reading.
  abbrev Holds : CarbonAwareScheduler F → Type 0
  Holds s = (s.cache_ttl ≡ ttl) × (lookup z s.cache ≡ some (kept, c))

  get_intensity-Holds :
      (place : Option String) (t : Clock) (answer : Option (Answer F)) (s : CarbonAwareScheduler F)
      → t.checked < kept + ttl
      → Holds s
      → Holds (get_intensity f place t answer s).1
  unfolding get_intensity cached
  get_intensity-Holds place t answer s fresh h =
      elim (Option-cases (cached t.checked (zone_of s place) s)) [
        | inr (d, hit) ↦ ground (arith, hit, h)
        | inl missed ↦ elim (Bool-cases (zone_of s place == z)) [
          | inl here ↦
              absurd (ground (arith, missed, here, h, fresh, text_key.same_iff (zone_of s place) z))
          | inr there ↦ ground (
            arith,
            missed,
            h,
            there,
            lookup-insert (zone_of s place) z (t.kept, new_reading f (zone_of s place) t answer s)
                s.cache,
          )
        ]
      ]

  after_call-Holds :
      (k : Call F) (s : CarbonAwareScheduler F)
      → checked_at k < kept + ttl
      → Holds s
      → Holds (after_call f k s)
  unfolding after_call checked_at score_expert estimate_co2
  after_call-Holds (intensity place t answer) s fresh h =
      get_intensity-Holds place t answer s fresh h
  after_call-Holds (score place base t answer) s fresh h = elim (Bool-cases s.enabled) [
    | inl on ↦ let later = get_intensity-Holds place t answer s fresh h in ground (arith, on, later)
    | inr off ↦ ground (arith, off, h)
  ]
  after_call-Holds (co2 energy place t answer) s fresh h =
      get_intensity-Holds place t answer s fresh h

  pub after_calls-Holds :
      (ks : List (Call F)) (s : CarbonAwareScheduler F)
      → All (λ k. checked_at k < kept + ttl) ks
      → Holds s
      → Holds (after_calls f ks s)
  unfolding after_calls
  after_calls-Holds [] s fresh h = h
  after_calls-Holds (k ∷ ks) s fresh h =
      after_calls-Holds ks (after_call f k s) fresh.1 (after_call-Holds k s fresh.0 h)

-- A reading of a zone that was not in the cache, be it of the API or the default because the
-- API failed, is what every later call for the zone returns, whatever the API would answer then, as long
-- as the cache is checked before `cache_ttl` has gone by since the reading was kept, whatever
-- calls are made in between.
pub get_intensity-kept :
    {F : Type 0} (f : Floats F) (z : String) (t t' : Clock) (answer answer' : Option (Answer F))
    (s : CarbonAwareScheduler F) (ks : List (Call F))
    → (z == "") ≡ false
    → cached t.checked z s ≡ none
    → All (λ k. checked_at k < t.kept + s.cache_ttl) ks
    → t'.checked < t.kept + s.cache_ttl
    → (get_intensity f
        (some z)
        t'
        answer'
        (after_calls f ks (get_intensity f (some z) t answer s).1)).0
      ≡ new_reading f z t answer s
unfolding get_intensity cached zone_of
get_intensity-kept f z t t' answer answer' s ks named missed fresh last =
    let c = new_reading f z t answer s in
    let first = get_intensity f (some z) t answer s in
    let put = lookup-insert z z (t.kept, c) s.cache in
    let held =
      after_calls-Holds f z t.kept s.cache_ttl c ks first.1 fresh (
        ground (arith, named, missed),
        ground (arith, named, missed, put, text_key.same_iff z z),
      ) in
    ground (arith, named, held, last)
