-- ===== src/Memory.antt =====
-- src/chen/core/memory.py: the memory in a process. The digest of an entry's id, the embedding and
-- the comparison of similarities are the parameter `Embedder`; numbers stand for confidences. The
-- index gives the place of an entry, since the code's index and list share the entries.
pub mod Laws
pub mod Tenants
pub mod Shared
mod Examples
use chen.Common.{
  Text, ℕ, suc, zero, String, Bool, true, false, not, ◌&&◌, Option, none, some, List, [], ◌∷◌, ◌++◌,
  ltb, eqb, length, take, keep, map, get_elem?, set, if◌then◌else◌, ◌==◌, text_key,
}
use chen.Common.Dict.{Dict, lookup, insert}
use chen.Common.Sort.{sort}

pub record MemoryEntry : Type 0 where
  pub text : Text
  pub embedding : Option (List ℕ)
  pub role : String
  pub expert_name : String
  pub confidence : ℕ
  pub timestamp : ℕ
  pub metadata : Dict String String

-- `digest role expert_name text` is the id, and `closer q v w` says that `v` is more similar to `q`
-- than `w` is.
pub record Embedder : Type 0 where
  pub digest : String → String → Text → String
  pub embed : Text → List ℕ
  pub closer : List ℕ → List ℕ → List ℕ → Bool

-- `MemoryEntry.id`
unfoldable pub id : Embedder → MemoryEntry → String
id p e = p.digest e.role e.expert_name e.text

pub record InMemoryMemory : Type 0 where
  pub entries : List MemoryEntry
  pub index : Dict String ℕ

abbrev pub empty_memory : InMemoryMemory
empty_memory = record { entries = []; index = [] }

unfoldable pub vector : Embedder → MemoryEntry → List ℕ
vector p e = elim e.embedding [ none ↦ p.embed e.text | some v ↦ v ]

unfoldable pub embedded : Embedder → MemoryEntry → MemoryEntry
unfolding vector
embedded p e = record e { embedding = some (vector p e) }

unfoldable pub update : Dict String String → Dict String String → Dict String String
update [] d = d
update ((k, v) ∷ news) d = update news (insert k v d)

unfoldable pub overwrite : MemoryEntry → MemoryEntry → MemoryEntry
unfolding update
overwrite new old = record old {
  text = new.text;
  embedding = new.embedding;
  confidence = new.confidence;
  metadata = update new.metadata old.metadata;
}

unfoldable pub modify_at : ℕ → (MemoryEntry → MemoryEntry) → List MemoryEntry → List MemoryEntry
modify_at i f [] = []
modify_at zero f (e ∷ es) = f e ∷ es
modify_at (suc i) f (e ∷ es) = e ∷ modify_at i f es

-- `write`
unfoldable pub write : Embedder → MemoryEntry → InMemoryMemory → String × InMemoryMemory
unfolding embedded id overwrite modify_at
write p entry m =
    let e = embedded p entry in
    (
      id p e,
      elim (lookup (id p e) m.index) [
        | none ↦ record {
          entries = m.entries ++ e ∷ [];
          index = insert (id p e) (length m.entries) m.index;
        }
        | some i ↦ record m { entries = modify_at i (overwrite e) m.entries }
      ],
    )

-- What `retrieve` does not pass over.
unfoldable pub matches : Option String → ℕ → MemoryEntry → Bool
matches none min_confidence e = not (ltb e.confidence min_confidence)
matches (some role) min_confidence e = e.role == role && not (ltb e.confidence min_confidence)

embed_missing : Embedder → Option String → ℕ → List MemoryEntry → List MemoryEntry
unfolding matches embedded
embed_missing p role min_confidence [] = []
embed_missing p role min_confidence (e ∷ es) =
    (if matches role min_confidence e then embedded p e else e)
    ∷ embed_missing p role min_confidence es

-- `retrieve`, with the memory afterwards: the entries that it compares get their embeddings.
unfoldable pub retrieve :
    Embedder → Text → ℕ → Option String → ℕ → InMemoryMemory → List MemoryEntry × InMemoryMemory
unfolding embed_missing matches vector
retrieve p query k role min_confidence m =
    let seen = embed_missing p role min_confidence m.entries in
    let q = p.embed query in
    let scored =
      sort (λ x y. p.closer q (vector p x) (vector p y))
        (keep (matches role min_confidence) seen) in
    (take k scored, record m { entries = seen })

-- `count`
unfoldable pub count : InMemoryMemory → ℕ
count m = length m.entries

-- `clear`
unfoldable pub clear : InMemoryMemory → InMemoryMemory
clear m = record m { entries = []; index = [] }
