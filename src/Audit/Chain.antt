-- ===== src/Audit/Chain.antt =====
-- What a verified log (src/chen/observability/audit.py) pins down, if no two different entries have
-- one hash.
use chen.Common.{
  ℕ, ◌+◌, String, true, ◌≡◌, refl, sym, ap, ◌∙◌, none, some, List, [], ◌∷◌, ◌++◌, append-nil, arith,
  length, last?, text_key, Option-cases, inl, inr,
}
use chen.Audit.{
  Fields, AuditEntry, Codec, lines, check_line, verify_from, verify, read_all, entries, last_entry,
}
use chen.Audit.Verify.{check_line-eq-some}

module _ (c : Codec) where
  -- The hash of the newest entry, of a log with the newest entry first.
  newest_hash : List AuditEntry → String
  newest_hash [] = ""
  newest_hash (e ∷ es) = e.entry_hash

  IsChain : List AuditEntry → Type 0
  IsChain [] = Unit
  IsChain (e ∷ es) =
      (e.seq ≡ length es)
      × (e.prev_hash ≡ newest_hash es)
      × (e.entry_hash ≡ c.hash_fields e.fields)
      × IsChain es

  rev_onto : List AuditEntry → List AuditEntry → List AuditEntry
  rev_onto [] acc = acc
  rev_onto (e ∷ es) acc = rev_onto es (e ∷ acc)

  rev_onto_twice :
      (es acc bs : List AuditEntry) → rev_onto (rev_onto es acc) bs ≡ rev_onto acc (es ++ bs)
  unfolding rev_onto
  rev_onto_twice [] acc bs = refl
  rev_onto_twice (e ∷ es) acc bs = rev_onto_twice es (e ∷ acc) bs

  rev_onto-injective : (es fs : List AuditEntry) → rev_onto es [] ≡ rev_onto fs [] → es ≡ fs
  rev_onto-injective es fs h =
      let back : (bs : List AuditEntry) → rev_onto (rev_onto bs []) [] ≡ bs =
        λ bs. rev_onto_twice bs [] [] ∙ unfold rev_onto in append-nil bs in
      sym (back es) ∙ ap (λ bs. rev_onto bs []) h ∙ back fs

  newest-rev_onto :
      (es acc : List AuditEntry) {x : AuditEntry}
      → last? es ≡ some x
      → (ds : List AuditEntry) × (rev_onto es acc ≡ x ∷ ds)
  unfolding rev_onto
  newest-rev_onto [] acc h = absurd (cc)
  newest-rev_onto (e ∷ []) acc h = (acc, ground arith)
  newest-rev_onto (e ∷ f ∷ es) acc h = newest-rev_onto (f ∷ es) (e ∷ acc) h

  read_all_cons :
      (l : String) (ls : List String) {es : List AuditEntry}
      → read_all c (l ∷ ls) ≡ some es
      → (e : AuditEntry) × (ds : List AuditEntry) × (read_all c ls ≡ some ds) × (es ≡ e ∷ ds)
  unfolding read_all
  read_all_cons l ls h = elim (Option-cases (c.from_jsonl l)) [
    | inl bad ↦ absurd (ground arith)
    | inr (e, good) ↦ elim (Option-cases (read_all c ls)) [
      | inl bad ↦ absurd (ground arith)
      | inr (ds, rest) ↦ (e, ds, rest, ground arith)
    ]
  ]

  read_all-last :
      (ls : List String) (es : List AuditEntry)
      → read_all c ls ≡ some es
      → elim (last? ls) [ none ↦ none | some l ↦ c.from_jsonl l ] ≡ last? es
  unfolding read_all
  read_all-last [] es h = ground arith
  read_all-last (l ∷ []) es h = ground arith
  read_all-last (l ∷ m ∷ ls) es h =
      let (e, ds, rest, q) = read_all_cons l (m ∷ ls) h in
      let (e', ds', rest', q') = read_all_cons m ls rest in
      rw (read_all-last (m ∷ ls) ds rest) (ground (arith, q, q'))

  -- A log that verifies can be read, and is a chain.
  read-IsChain :
      (ls : List String) (acc : List AuditEntry) (n : ℕ) (h : String)
      → n ≡ length acc
      → h ≡ newest_hash acc
      → IsChain acc
      → verify_from c n h ls ≡ true
      → (es : List AuditEntry) × (read_all c ls ≡ some es) × IsChain (rev_onto es acc)
  unfolding verify_from read_all IsChain newest_hash rev_onto
  read-IsChain [] acc n h p q chain v = ([], refl, chain)
  read-IsChain (l ∷ ls) acc n h p q chain v = elim (Option-cases (check_line c n h l)) [
    | inl bad ↦ ground arith
    | inr (h', good) ↦
        let (e, read, seq, prev, hash, next) = check_line-eq-some c n h l good in
        let (es, rest, chain') =
          read-IsChain ls (e ∷ acc) (n + 1) h' (omega arith) next
            (ground arith, ground arith, hash, chain) (ground arith) in
        (e ∷ es, ground arith, chain')
  ]

  module _ (collision_free : (x y : Fields) → c.hash_fields x ≡ c.hash_fields y → x ≡ y) where
    chain_unique :
        (es fs : List AuditEntry)
        → IsChain es
        → IsChain fs
        → length es ≡ length fs
        → newest_hash es ≡ newest_hash fs
        → es ≡ fs
    unfolding IsChain newest_hash
    chain_unique [] [] p q n h = refl
    chain_unique [] (f ∷ fs) p q n h = absurd (omega arith)
    chain_unique (e ∷ es) [] p q n h = absurd (omega arith)
    chain_unique (e ∷ es) (f ∷ fs) p q n h =
        let same : e.fields ≡ f.fields = collision_free e.fields f.fields (ground arith) in
        let rest : es ≡ fs = chain_unique es fs p.3 q.3 (omega arith) (ground (arith, same)) in
        ground (arith, same, rest)

    -- Two logs that verify, and whose last entries have the same hash, hold the same entries, from
    -- the first on: nothing before an entry can be changed without changing its hash. This is so
    -- if no two different entries have one hash.
    pub last_hash_determines_log :
        (f g : List String) {e e' : AuditEntry}
        → verify c f ≡ true
        → verify c g ≡ true
        → last_entry c f ≡ some e
        → last_entry c g ≡ some e'
        → e.entry_hash ≡ e'.entry_hash
        → entries c f ≡ entries c g
    unfolding verify entries last_entry IsChain newest_hash
    last_hash_determines_log f g {e} {e'} v w le lg h =
        let (es, re, ce) = read-IsChain (lines c f) [] 0 "" refl refl tt v in
        let (fs, rf, cf) = read-IsChain (lines c g) [] 0 "" refl refl tt w in
        let (ds, qe) = newest-rev_onto es [] (sym (read_all-last (lines c f) es re) ∙ le) in
        let (ds', qf) = newest-rev_onto fs [] (sym (read_all-last (lines c g) fs rf) ∙ lg) in
        let ce' : IsChain (e ∷ ds) = rw qe at ce in
        let cf' : IsChain (e' ∷ ds') = rw qf at cf in
        let same : e.fields ≡ e'.fields = collision_free e.fields e'.fields (ground arith) in
        let rest : e ∷ ds ≡ e' ∷ ds' =
          chain_unique (e ∷ ds) (e' ∷ ds') ce' cf' (omega (arith, ap (λ (x : Fields). x.seq) same))
            h in
        re ∙ ap some (rev_onto-injective es fs (qe ∙ rest ∙ sym qf)) ∙ sym rf
