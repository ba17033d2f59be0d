-- ===== src/Audit/Examples.antt =====
-- The audit log at concrete inputs, with a codec that writes each field with a mark before each
-- character and another at the end.
use Prim.Native.Char.{code}
use chen.Common.{
  ℕ, zero, suc, ◌+◌, String, true, false, ◌≡◌, refl, sym, ap, ◌∙◌, Option, none, some, List, [],
  arith, eqb, text_key, ◌==◌, ==-ne, if◌then◌else◌,
}
use chen.Audit.{Fields, AuditEntry, Codec, append_entry, verify, count, last_entry, entries}
use chen.Audit.Verify.{append_entry-verify}
use chen.Audit.Chain.{last_hash_determines_log}

abbrev write_text : String → String → String
write_text String.[] r = String.◌∷◌ "." r
write_text (String.◌∷◌ c s) r = String.◌∷◌ "," (String.◌∷◌ c (write_text s r))

read_text : String → Option (String × String)
read_text String.[] = none
read_text (String.◌∷◌ m String.[]) = if eqb (code m) b'.' then some ("", "") else none
read_text (String.◌∷◌ m (String.◌∷◌ c s)) =
    if eqb (code m) b'.'
    then some ("", String.◌∷◌ c s)
    else elim (read_text s) [ none ↦ none | some (t, r) ↦ some (String.◌∷◌ c t, r) ]

read_write_text : (s r : String) → read_text (write_text s r) ≡ some (s, r)
unfolding read_text
read_write_text String.[] String.[] = refl
read_write_text String.[] (String.◌∷◌ c r) = refl
read_write_text (String.◌∷◌ c s) r = rw (read_write_text s r)

abbrev write_number : ℕ → String → String
write_number zero r = String.◌∷◌ "." r
write_number (suc n) r = String.◌∷◌ "," (write_number n r)

read_number : String → Option (ℕ × String)
read_number String.[] = none
read_number (String.◌∷◌ m s) =
    if eqb (code m) b'.'
    then some (0, s)
    else elim (read_number s) [ none ↦ none | some (n, r) ↦ some (suc n, r) ]

read_write_number : (n : ℕ) (r : String) → read_number (write_number n r) ≡ some (n, r)
unfolding read_number
read_write_number zero r = refl
read_write_number (suc n) r = rw (read_write_number n r)

infixl 5 ◌>>=◌
abbrev ◌>>=◌ : {A B : Type 0} → Option A → (A → Option B) → Option B
none >>= f = none
some a >>= f = f a

write_fields : Fields → String → String
write_fields f r = write_number f.seq (
    write_number f.timestamp (
      write_text f.run_id (
        write_text f.prompt_hash
          (write_text f.output_hash (write_text f.tenant_id (write_text f.prev_hash r))))))

read_fields : String → Option (Fields × String)
read_fields s = do
  (seq, s₁) ← read_number s
  (timestamp, s₂) ← read_number s₁
  (run_id, s₃) ← read_text s₂
  (prompt_hash, s₄) ← read_text s₃
  (output_hash, s₅) ← read_text s₄
  (tenant_id, s₆) ← read_text s₅
  (prev_hash, s₇) ← read_text s₆
  some (
    record {
      seq = seq;
      timestamp = timestamp;
      run_id = run_id;
      prompt_hash = prompt_hash;
      output_hash = output_hash;
      tenant_id = tenant_id;
      prev_hash = prev_hash;
    },
    s₇,
  )

read_write_fields : (f : Fields) (r : String) → read_fields (write_fields f r) ≡ some (f, r)
unfolding read_fields write_fields
read_write_fields f r = simp (read_write_number, read_write_text)

write_entry : AuditEntry → String
write_entry e = write_fields e.fields (write_text e.entry_hash "")

read_entry : String → Option AuditEntry
read_entry s = do
  (fields, s₁) ← read_fields s
  (entry_hash, s₂) ← read_text s₁
  some (record { fields = fields; entry_hash = entry_hash })

read_write_entry : (e : AuditEntry) → read_entry (write_entry e) ≡ some e
unfolding read_entry write_entry
read_write_entry e = simp (read_write_fields, read_write_text)

write_number-not_blank : (n : ℕ) (r : String) → (write_number n r == "") ≡ false
write_number-not_blank zero r = ==-ne (String.◌∷◌ "." r) "" (λ e. cc e)
write_number-not_blank (suc n) r = ==-ne (String.◌∷◌ "," (write_number n r)) "" (λ e. cc e)

write_entry-not_blank : (e : AuditEntry) → (write_entry e == "") ≡ false
unfolding write_entry write_fields
write_entry-not_blank e = write_number-not_blank e.seq _

abbrev plain : Codec
plain = record {
  sha256 = λ s. s;
  hash_fields = λ f. write_fields f "";
  strip = λ s. s;
  to_jsonl = write_entry;
  from_jsonl = read_entry;
  read_back = read_write_entry;
  not_blank = write_entry-not_blank;
}

plain-collision_free : (x y : Fields) → plain.hash_fields x ≡ plain.hash_fields y → x ≡ y
plain-collision_free x y h =
    let back = sym (read_write_fields x "") ∙ ap read_fields h ∙ read_write_fields y "" in
    ground (arith, back)

abbrev one : AuditEntry × List String
one = append_entry plain 7 "run" "prompt" "output" "" []

abbrev two : AuditEntry × List String
two = append_entry plain 9 "next" "prompt" "output" "tenant" one.1

one-verify : verify plain one.1 ≡ true
one-verify = (append_entry-verify plain 7 "run" "prompt" "output" "" [] (unfold verify in refl)).0

append_entry-verify_example :
    (verify plain two.1 ≡ true)
    × (count plain two.1 ≡ count plain one.1 + 1)
    × (last_entry plain two.1 ≡ some two.0)
    × (two.0.seq ≡ count plain one.1)
append_entry-verify_example =
    append_entry-verify plain 9 "next" "prompt" "output" "tenant" one.1 one-verify

last_hash_determines_log_example : entries plain two.1 ≡ entries plain two.1
last_hash_determines_log_example =
    last_hash_determines_log plain plain-collision_free two.1 two.1 append_entry-verify_example.0
      append_entry-verify_example.0 append_entry-verify_example.2 append_entry-verify_example.2 refl
