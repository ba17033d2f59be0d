-- ===== src/Core/Expert/Invoke.antt =====
-- What an invocation of an expert reports (src/chen/core/expert.py).
use chen.Common.{
  ap, ◌∙◌, ℕ, Text, Bool, true, false, ◌≡◌, refl, Option, none, some, arith, Bool-cases, inl, inr,
}
use chen.Common.Result.{Result, ok, raised, ◌>>=◌, Result-cases}
use chen.Core.Expert.{
  KvCache, CoreError, Expert, ExpertMetrics, finish, run_text, run_cache, invoke,
}

-- An invocation that was given `cache` can only have returned `m` as its metrics.
abbrev pub IsFrom : Expert → Option Text → Option KvCache → ExpertMetrics → Type 0
IsFrom e prompt cache m =
    (n : ℕ) × (output : Text) × (next : Option KvCache) × (invoke e prompt cache n
      ≡ ok (output, next, m))

finish_flags :
    (e : Expert) (text : Text) (used succeeded : Bool) (run : Result CoreError Text) (output : Text)
    (next : Option KvCache) (m : ExpertMetrics)
    → finish e text used succeeded run ≡ ok (output, next, m)
    → (m.used_kv_cache ≡ used) × (m.cache_transfer_succeeded ≡ succeeded)
unfolding finish
finish_flags e text used succeeded (raised x) output next m h = absurd (cc)
finish_flags e text used succeeded (ok o) output next m h = ground arith

run_cache_flags :
    (e : Expert) (c : KvCache) (moved : Result CoreError KvCache) (n : ℕ) (output : Text)
    (next : Option KvCache) (m : ExpertMetrics)
    → run_cache e c moved n ≡ ok (output, next, m)
    → m.used_kv_cache ≡ m.cache_transfer_succeeded
unfolding run_cache run_text
run_cache_flags e c (raised x) n output next m h =
    let f =
      finish_flags e c.source_text false false (e.backend.generate c.source_text n) output next m
        h in
    ground (arith, f)
run_cache_flags e c (ok t) n output next m h =
    let f = finish_flags e c.source_text true true (e.backend.decode t n) output next m h in
    ground (arith, f)

-- An invocation that reports a cache as used also reports its transfer as successful.
pub used_succeeded :
    (e : Expert) (prompt : Option Text) (cache : Option KvCache) (m : ExpertMetrics)
    → IsFrom e prompt cache m
    → m.used_kv_cache ≡ true
    → m.cache_transfer_succeeded ≡ true
unfolding invoke run_text
used_succeeded e none none m (n, output, next, h) used = absurd (cc)
used_succeeded e (some p) none m (n, output, next, h) used =
    let f = finish_flags e p false true (e.backend.generate p n) output next m h in
    ground (arith, f)
used_succeeded e prompt (some c) m (n, output, next, h) used =
    elim (Bool-cases e.backend.supports_kv_cache) [
      | inl able ↦
          let f = run_cache_flags e c (e.backend.transfer_cache c) n output next m (ground arith) in
          ground (arith, f)
      | inr unable ↦
          let f =
            finish_flags e c.source_text false true (e.backend.generate c.source_text n) output next
              m (ground arith) in
          ground (arith, f)
    ]

unfoldable pub with_failed_transfer : ExpertMetrics → ExpertMetrics
with_failed_transfer m = record m { cache_transfer_succeeded = false }

fell_back_run :
    (e : Expert) (text : Text) (run : Result CoreError Text)
    → finish e text false false run ≡ (do
      (output, next, m) ← finish e text false true run
      ok (output, next, with_failed_transfer m))
unfolding finish with_failed_transfer
fell_back_run e text (raised x) = refl
fell_back_run e text (ok o) = refl

-- With a cache whose transfer fails, an expert does what it does with the cache's text as its
-- prompt, to the output, the next cache and the errors; only the metrics report the failure.
pub failed_transfer_falls_back :
    (e : Expert) (prompt : Option Text) (c : KvCache) (n : ℕ) (x : CoreError)
    → e.backend.supports_kv_cache ≡ true
    → e.backend.transfer_cache c ≡ raised x
    → invoke e prompt (some c) n ≡ (do
      (output, next, m) ← invoke e (some c.source_text) none n
      ok (output, next, with_failed_transfer m))
unfolding invoke run_cache run_text
failed_transfer_falls_back e prompt c n x able failed =
    ground (arith, fell_back_run e c.source_text (e.backend.generate c.source_text n))

finish_ok :
    (e : Expert) (text : Text) (used succeeded : Bool) (output : Text)
    → (next : Option KvCache) × (m : ExpertMetrics) × (finish e text used succeeded (ok output)
        ≡ ok (output, next, m))
      × (m.expert_name ≡ e.name)
      × (m.cache_transfer_succeeded ≡ succeeded)
unfolding finish
finish_ok e text used succeeded output = (_, _, refl, refl, refl)

-- An expert that generates a text for a prompt returns it, with metrics under its own name and
-- without a failed transfer.
pub invoke-answers :
    (e : Expert) (prompt : Text) (k : ℕ) (output : Text)
    → e.backend.generate prompt k ≡ ok output
    → (next : Option KvCache) × (m : ExpertMetrics) × (invoke e (some prompt) none k
        ≡ ok (output, next, m))
      × (m.expert_name ≡ e.name)
      × (m.cache_transfer_succeeded ≡ true)
unfolding invoke run_text
invoke-answers e prompt k output h =
    let (next, m, done, named, moved) = finish_ok e prompt false true output in
    (next, m, ap (finish e prompt false true) h ∙ done, named, moved)

-- An expert that is indifferent to its budget is invoked alike with any.
pub invoke-budget :
    (e : Expert) (prompt : Text) (j k : ℕ)
    → e.backend.generate prompt j ≡ e.backend.generate prompt k
    → invoke e (some prompt) none j ≡ invoke e (some prompt) none k
unfolding invoke run_text
invoke-budget e prompt j k h = ap (finish e prompt false true) h

-- An expert that generates a text for every prompt and decodes every cache answers for a cache,
-- with metrics under its own name.
pub invoke_cache-answers :
    (e : Expert) (c : KvCache) (k : ℕ)
    → ((text : Text) → (output : Text) × (e.backend.generate text k ≡ ok output))
    → ((d : KvCache) → (output : Text) × (e.backend.decode d k ≡ ok output))
    → (output : Text) × (next : Option KvCache) × (m : ExpertMetrics) × (invoke e none (some c) k
        ≡ ok (output, next, m))
      × (m.expert_name ≡ e.name)
unfolding invoke run_cache run_text
invoke_cache-answers e c k generates decodes =
    let (written, h) = generates c.source_text in
    elim (Bool-cases e.backend.supports_kv_cache) [
      | inl able ↦ elim (Result-cases (e.backend.transfer_cache c)) [
        | inl (t, moved) ↦
            let (output, d) = decodes t in
            let (next, m, done, named, flag) = finish_ok e c.source_text true true output in
            (output, next, m, ground (arith, able, moved, d, done), named)
        | inr (x, failed) ↦
            let (next, m, done, named, flag) = finish_ok e c.source_text false false written in
            (written, next, m, ground (arith, able, failed, h, done), named)
      ]
      | inr unable ↦
          let (next, m, done, named, flag) = finish_ok e c.source_text false true written in
          (written, next, m, ground (arith, unable, h, done), named)
    ]

-- An invocation with a prompt never reports a failed transfer.
pub text_succeeded :
    (e : Expert) (prompt : Text) (k : ℕ) (output : Text) (next : Option KvCache) (m : ExpertMetrics)
    → invoke e (some prompt) none k ≡ ok (output, next, m)
    → m.cache_transfer_succeeded ≡ true
unfolding invoke run_text
text_succeeded e prompt k output next m h =
    (finish_flags e prompt false true (e.backend.generate prompt k) output next m h).1
