-- ===== src/Audit/Verify.antt =====
-- `record` against `verify` (src/chen/observability/audit.py).
use mathlib.Core.List.{map-append}
use chen.Common.{
  ℕ, ◌+◌, String, Bool, true, ◌≡◌, refl, ap, Option, none, some, List, [], ◌∷◌, ◌++◌, arith, length,
  length-append, keep, last?, text_key, Option-cases, inl, inr,
}
use chen.Audit.{
  AuditEntry, Codec, lines, last_entry, next_seq, last_hash, append_entry, check_line, verify_from,
  verify, count,
}

keep-append {ℓ} :
    {A : Type ℓ} (p : A → Bool) (xs ys : List A) → keep p (xs ++ ys) ≡ keep p xs ++ keep p ys
keep-append p [] ys = refl
keep-append p (x ∷ xs) ys = ground (arith, keep-append p xs ys)

module _ (c : Codec) where
  lines-append : (f g : List String) → lines c (f ++ g) ≡ lines c f ++ lines c g
  unfolding lines
  lines-append f g = rw (map-append, keep-append)

  lines-entry : (e : AuditEntry) → lines c (c.to_jsonl e ∷ []) ≡ c.strip (c.to_jsonl e) ∷ []
  unfolding lines
  lines-entry e = rw (c.not_blank e)

  -- What `verify` expects of the line after those that it has read.
  expects : ℕ → String → List String → ℕ × String
  expects n h [] = (n, h)
  expects n h (l ∷ ls) = elim (check_line c n h l) [
    | none ↦ (n, h)
    | some h' ↦ expects (n + 1) h' ls
  ]

  verify_from-append :
      (n : ℕ) (h : String) (ls : List String) (l h' : String)
      → verify_from c n h ls ≡ true
      → check_line c (expects n h ls).0 (expects n h ls).1 l ≡ some h'
      → verify_from c n h (ls ++ l ∷ []) ≡ true
  unfolding verify_from expects
  verify_from-append n h [] l h' v k = ground arith
  verify_from-append n h (m ∷ ls) l h' v k = elim (Option-cases (check_line c n h m)) [
    | inl bad ↦ ground arith
    | inr (h₁, good) ↦ ground (arith, verify_from-append (n + 1) h₁ ls l h')
  ]

  -- What the checks of one line establish.
  pub check_line-eq-some :
      (n : ℕ) (h l : String) {h' : String}
      → check_line c n h l ≡ some h'
      → (e : AuditEntry) × (c.from_jsonl l ≡ some e)
        × (e.seq ≡ n)
        × (e.prev_hash ≡ h)
        × (e.entry_hash ≡ c.hash_fields e.fields)
        × (h' ≡ e.entry_hash)
  unfolding check_line
  check_line-eq-some n h l k = elim (Option-cases (c.from_jsonl l)) [
    | inl bad ↦ ground arith
    | inr (e, good) ↦ (
      e,
      good,
      ground arith,
      ground (arith, text_key.same_iff e.prev_hash h),
      ground (arith, text_key.same_iff e.entry_hash (c.hash_fields e.fields)),
      ground arith,
    )
  ]

  -- The last line of a log that verifies is an entry, which the next one is to follow.
  expects-last :
      (n : ℕ) (h : String) (l : String) (ls : List String)
      → verify_from c n h (l ∷ ls) ≡ true
      → (e : AuditEntry) × (elim (last? (l ∷ ls)) [ none ↦ none | some m ↦ c.from_jsonl m ]
          ≡ some e)
        × (expects n h (l ∷ ls) ≡ (e.seq + 1, e.entry_hash))
  unfolding verify_from expects
  expects-last n h l [] v = elim (Option-cases (check_line c n h l)) [
    | inl bad ↦ ground arith
    | inr (h', good) ↦
        let (e, read, seq, prev, hash, next) = check_line-eq-some n h l good in
        (e, read, ground arith)
  ]
  expects-last n h l (m ∷ ls) v = elim (Option-cases (check_line c n h l)) [
    | inl bad ↦ ground arith
    | inr (h', good) ↦
        let (e, read, next) = expects-last (n + 1) h' m ls (ground arith) in (e, read, ground arith)
  ]

  -- The last entry of the lines, as `_last_entry` reads it.
  last_of : List String → Option AuditEntry
  last_of ls = elim (last? ls) [ none ↦ none | some l ↦ c.from_jsonl l ]

  -- `record` continues the log where `verify` has arrived.
  expects-last_of :
      (ls : List String)
      → verify_from c 0 "" ls ≡ true
      → expects 0 "" ls ≡ (next_seq c (last_of ls), last_hash c (last_of ls))
  unfolding last_of expects next_seq last_hash
  expects-last_of [] v = refl
  expects-last_of (l ∷ ls) v =
      let (e, read, next) = expects-last 0 "" l ls v in ground (arith, read, next)

  -- The line that `record` writes passes the checks where the log is continued.
  entry_checks :
      (n : ℕ) (h : String) (e : AuditEntry)
      → e.seq ≡ n
      → e.prev_hash ≡ h
      → e.entry_hash ≡ c.hash_fields e.fields
      → check_line c n h (c.strip (c.to_jsonl e)) ≡ some e.entry_hash
  unfolding check_line
  entry_checks n h e s p q = ground (
    arith,
    c.read_back e,
    text_key.same_iff e.prev_hash h,
    text_key.same_iff e.entry_hash (c.hash_fields e.fields),
  )

  expects-length :
      (n : ℕ) (h : String) (ls : List String)
      → verify_from c n h ls ≡ true
      → (expects n h ls).0 ≡ n + length ls
  unfolding verify_from expects
  expects-length n h [] v = omega arith
  expects-length n h (l ∷ ls) v = elim (Option-cases (check_line c n h l)) [
    | inl bad ↦ ground arith
    | inr (h', good) ↦ ground (arith, expects-length (n + 1) h' ls)
  ]

  lines-snoc :
      (e : AuditEntry) (file : List String)
      → lines c (file ++ c.to_jsonl e ∷ []) ≡ lines c file ++ c.strip (c.to_jsonl e) ∷ []
  lines-snoc e file = rw (lines-append, lines-entry)

  last_of-snoc :
      (e : AuditEntry) (ls : List String) → last_of (ls ++ c.strip (c.to_jsonl e) ∷ []) ≡ some e
  unfolding last_of
  last_of-snoc e [] = c.read_back e
  last_of-snoc e (l ∷ []) = c.read_back e
  last_of-snoc e (l ∷ m ∷ ls) = last_of-snoc e (m ∷ ls)

  verify-snoc :
      (e : AuditEntry) (file : List String)
      → verify c file ≡ true
      → e.seq ≡ next_seq c (last_of (lines c file))
      → e.prev_hash ≡ last_hash c (last_of (lines c file))
      → e.entry_hash ≡ c.hash_fields e.fields
      → (verify_from c 0 "" (lines c (file ++ c.to_jsonl e ∷ [])) ≡ true)
        × (length (lines c (file ++ c.to_jsonl e ∷ [])) ≡ length (lines c file) + 1)
        × (last_of (lines c (file ++ c.to_jsonl e ∷ [])) ≡ some e)
        × (e.seq ≡ length (lines c file))
  unfolding verify
  verify-snoc e file v s p q =
      let line = c.strip (c.to_jsonl e) in
      let arrived = expects-last_of (lines c file) v in
      (
        rw (lines-snoc e file) (
            verify_from-append 0 "" (lines c file) line e.entry_hash v
              (rw arrived (entry_checks _ _ e s p q))),
        rw (lines-snoc e file) (length-append (lines c file) (line ∷ [])),
        rw (lines-snoc e file) (last_of-snoc e (lines c file)),
        omega
            (arith, s, ap (λ (t : ℕ × String). t.0) arrived, expects-length 0 "" (lines c file) v),
      )

  -- Appending to a log that verifies gives one that verifies, and is one entry longer; the entry
  -- that `record` returns is what is read as the last one afterwards, and its number is how many
  -- entries the log had before.
  pub append_entry-verify :
      (now : ℕ) (run_id prompt output tenant_id : String) (file : List String)
      → verify c file ≡ true
      → let (e, file') = append_entry c now run_id prompt output tenant_id file in
        (verify c file' ≡ true)
        × (count c file' ≡ count c file + 1)
        × (last_entry c file' ≡ some e)
        × (e.seq ≡ count c file)
  unfolding append_entry verify count last_of
  append_entry-verify now run_id prompt output tenant_id file v =
      verify-snoc (append_entry c now run_id prompt output tenant_id file).0 file v refl refl refl

  verify_from-prefix :
      (n : ℕ) (h : String) (ls ms : List String)
      → verify_from c n h (ls ++ ms) ≡ true
      → verify_from c n h ls ≡ true
  unfolding verify_from
  verify_from-prefix n h [] ms v = refl
  verify_from-prefix n h (l ∷ ls) ms v = elim (Option-cases (check_line c n h l)) [
    | inl bad ↦ ground arith
    | inr (h', good) ↦ ground (arith, verify_from-prefix (n + 1) h' ls ms)
  ]

  -- Cutting entries off the end of a log is not noticed: what is left of a log that verifies does.
  pub verify-prefix : (f g : List String) → verify c (f ++ g) ≡ true → verify c f ≡ true
  unfolding verify
  verify-prefix f g v = verify_from-prefix 0 "" (lines c f) (lines c g) (rw lines-append at v)
