-- ===== src/Audit.antt =====
-- src/chen/observability/audit.py: the hash-chained audit log. The file is the list of its lines.
-- SHA-256 and the JSON text of an entry are not written in the repository: they are the parameter
-- `Codec`, with what the code relies on. Sequence numbers are naturals, and timestamps are in any
-- unit. Log lines are left out.
pub mod Verify
pub mod Chain
mod Examples
use chen.Common.{
  ℕ, suc, ◌+◌, ◌-◌, String, Bool, true, false, ◌≡◌, ◌≢◌, Option, none, some, List, [], ◌∷◌, ◌++◌,
  eqb, if◌then◌else◌, ◌==◌, text_key, length, drop, keep, not, last?, map,
}

-- The fields that the entry's hash is computed from.
pub record Fields : Type 0 where
  pub seq : ℕ
  pub timestamp : ℕ
  pub run_id : String
  pub prompt_hash : String
  pub output_hash : String
  pub tenant_id : String
  pub prev_hash : String

pub record AuditEntry : Type 0 where
  pub fields : Fields
  pub open fields use *
  pub entry_hash : String

-- `sha256` is that of a text, `hash_fields` that of the canonical JSON of the fields. A line of
-- the file is a text; `strip` removes the white space round it, and `from_jsonl` is `none` where
-- it raises. An entry's own line is not blank, and reads back as the entry.
pub record Codec : Type 0 where
  pub sha256 : String → String
  pub hash_fields : Fields → String
  pub strip : String → String
  pub to_jsonl : AuditEntry → String
  pub from_jsonl : String → Option AuditEntry
  pub read_back : (e : AuditEntry) → from_jsonl (strip (to_jsonl e)) ≡ some e
  pub not_blank : (e : AuditEntry) → (strip (to_jsonl e) == "") ≡ false

module _ (c : Codec) where
  open c use {sha256, hash_fields, strip, to_jsonl, from_jsonl}

  -- `compute_hash`
  unfoldable pub compute_hash : AuditEntry → String
  compute_hash e = hash_fields e.fields

  -- The lines that the loops of the class work on: stripped, and not blank.
  unfoldable pub lines : List String → List String
  lines file = keep (λ l. not (l == "")) (map strip file)

  -- `_last_entry`: a last line that cannot be read counts as none.
  unfoldable pub last_entry : List String → Option AuditEntry
  unfolding lines
  last_entry file = elim (last? (lines file)) [ none ↦ none | some l ↦ from_jsonl l ]

  next_seq : Option AuditEntry → ℕ
  next_seq none = 0
  next_seq (some e) = e.seq + 1

  last_hash : Option AuditEntry → String
  last_hash none = ""
  last_hash (some e) = e.entry_hash

  -- `record`: the entry, and the file with its line. `now` is `time.time()`.
  unfoldable pub append_entry :
      ℕ → String → String → String → String → List String → AuditEntry × List String
  unfolding last_entry next_seq last_hash
  append_entry now run_id prompt output tenant_id file =
      let last = last_entry file in
      let fields : Fields = record {
        seq = next_seq last;
        timestamp = now;
        run_id = run_id;
        prompt_hash = sha256 prompt;
        output_hash = sha256 output;
        tenant_id = tenant_id;
        prev_hash = last_hash last;
      } in
      let e : AuditEntry = record { fields = fields; entry_hash = hash_fields fields } in
      (e, file ++ to_jsonl e ∷ [])

  -- The checks of one line in `verify`; `expected` is `prev_seq + 1`. The next `prev_hash`, or
  -- `none` where `verify` returns False.
  unfoldable pub check_line : ℕ → String → String → Option String
  unfolding compute_hash
  check_line expected prev_hash line = elim (from_jsonl line) [
    | none ↦ none
    | some e ↦
        if eqb e.seq expected
        then if e.prev_hash == prev_hash
          then if e.entry_hash == compute_hash e then some e.entry_hash else none
          else none
        else none
  ]

  unfoldable pub verify_from : ℕ → String → List String → Bool
  verify_from expected prev_hash [] = true
  verify_from expected prev_hash (l ∷ ls) = elim (check_line expected prev_hash l) [
    | none ↦ false
    | some h ↦ verify_from (expected + 1) h ls
  ]

  -- `verify`
  unfoldable pub verify : List String → Bool
  unfolding lines check_line verify_from
  verify file = verify_from 0 "" (lines file)

  read_all : List String → Option (List AuditEntry)
  read_all [] = some []
  read_all (l ∷ ls) = elim (from_jsonl l) [
    | none ↦ none
    | some e ↦ elim (read_all ls) [ none ↦ none | some es ↦ some (e ∷ es) ]
  ]

  -- Every entry of the file, or `none` where a line cannot be read.
  unfoldable pub entries : List String → Option (List AuditEntry)
  unfolding lines read_all
  entries file = read_all (lines file)

  -- `tail`: `none` where a line cannot be read. `lines[-n:]` is the whole list for `n = 0`.
  unfoldable pub tail : ℕ → List String → Option (List AuditEntry)
  unfolding lines read_all
  tail n file = let ls = lines file in read_all (if eqb n 0 then ls else drop (length ls - n) ls)

  -- `count`
  unfoldable pub count : List String → ℕ
  unfolding lines
  count file = length (lines file)
