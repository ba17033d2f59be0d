-- ===== src/Memory/Laws.antt =====
-- What writing and retrieving promise (src/chen/core/memory.py).
use chen.Common.{
  Text, ℕ, suc, zero, ◌≤◌, String, Bool, true, ◌≡◌, refl, Option, none, some, List, [], ◌∷◌, arith,
  length, keep, All, All-take, length-append, length-take-le, inl, inr, Bool-cases, Option-cases,
  text_key,
}
use chen.Common.Dict.{lookup, lookup-insert_self}
use chen.Common.Sort.Shuffle.{All-sort}
use chen.Memory.{
  MemoryEntry, Embedder, InMemoryMemory, id, embedded, overwrite, modify_at, write, matches,
  embed_missing, retrieve, count,
}

modify_at-length :
    (i : ℕ) (f : MemoryEntry → MemoryEntry) (es : List MemoryEntry)
    → length (modify_at i f es) ≡ length es
unfolding modify_at
modify_at-length i f [] = refl
modify_at-length zero f (e ∷ es) = refl
modify_at-length (suc i) f (e ∷ es) = ground (arith, modify_at-length i f es)

pub write_new :
    (p : Embedder) (e : MemoryEntry) (m : InMemoryMemory)
    → lookup (id p e) m.index ≡ none
    → (count (write p e m).1 ≡ suc (count m))
      × (lookup (id p e) (write p e m).1.index ≡ some (count m))
unfolding write count id embedded
write_new p e m new = ground (
  arith,
  new,
  length-append m.entries (embedded p e ∷ []),
  lookup-insert_self (p.digest e.role e.expert_name e.text) (length m.entries) m.index,
)

pub write_old :
    (p : Embedder) (e : MemoryEntry) (m : InMemoryMemory) (i : ℕ)
    → lookup (id p e) m.index ≡ some i
    → (count (write p e m).1 ≡ count m) × ((write p e m).1.index ≡ m.index)
unfolding write count id embedded
write_old p e m i old = ground (arith, old, modify_at-length i (overwrite (embedded p e)) m.entries)

-- Writing an entry adds at most one, and writing one with the same id again, whatever else it
-- holds, adds none: it is overwritten in its place.
pub write_twice :
    (p : Embedder) (e f : MemoryEntry) (m : InMemoryMemory)
    → id p e ≡ id p f
    → (count (write p f (write p e m).1).1 ≡ count (write p e m).1)
      × (count (write p e m).1 ≤ suc (count m))
      × (count m ≤ count (write p e m).1)
write_twice p e f m same = elim (Option-cases (lookup (id p e) m.index)) [
  | inl new ↦
      let (grown, known) = write_new p e m new in
      let again = write_old p f (write p e m).1 (count m) (rw (← same) known) in
      (again.0, ground (arith, grown), ground (arith, grown))
  | inr (i, old) ↦
      let (kept, index) = write_old p e m i old in
      let again = write_old p f (write p e m).1 i (rw (index, ← same) old) in
      (again.0, ground (arith, kept), ground (arith, kept))
]

keep-kept {ℓ} : {A : Type ℓ} (p : A → Bool) (xs : List A) → All (λ x. p x ≡ true) (keep p xs)
keep-kept p [] = tt
keep-kept p (x ∷ xs) = elim (Bool-cases (p x)) [
  | inl here ↦ rw here (here, keep-kept p xs)
  | inr there ↦ rw there (keep-kept p xs)
]

embed_missing-length :
    (p : Embedder) (role : Option String) (c : ℕ) (es : List MemoryEntry)
    → length (embed_missing p role c es) ≡ length es
unfolding embed_missing
embed_missing-length p role c [] = refl
embed_missing-length p role c (e ∷ es) = ground (arith, embed_missing-length p role c es)

-- Retrieval returns at most `k` entries, each with the wanted role and at least the wanted
-- confidence, and leaves the number of entries as it was.
pub retrieve_lem :
    (p : Embedder) (query : Text) (k : ℕ) (role : Option String) (c : ℕ) (m : InMemoryMemory)
    → (length (retrieve p query k role c m).0 ≤ k)
      × All (λ e. matches role c e ≡ true) (retrieve p query k role c m).0
      × (count (retrieve p query k role c m).1 ≡ count m)
unfolding retrieve count
retrieve_lem p query k role c m = (
  length-take-le k _,
  All-take (λ e. matches role c e ≡ true) k _
      (All-sort (λ e. matches role c e ≡ true) _ _
        (keep-kept (matches role c) (embed_missing p role c m.entries))),
  embed_missing-length p role c m.entries,
)
