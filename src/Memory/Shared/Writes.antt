-- ===== src/Memory/Shared/Writes.antt =====
-- Writing an object to one of two memories (src/chen/core/memory.py).
use chen.Common.{ℕ, ◌≡◌, false, [], ◌∷◌, ◌++◌, length, text_key}
use chen.Common.Dict.{insert}
use chen.Memory.{Embedder, InMemoryMemory, id, embedded, overwrite, modify_at}
use chen.Memory
use chen.Memory.Shared.{Heap, SharedMemory, put, occurs, IsView}

module _ (p : Embedder) (a : ℕ) (h : Heap) (m : SharedMemory) (v : InMemoryMemory)
    (is : IsView h m v) (new : occurs a m.entries ≡ false) where
  -- The heap once the entry has its embedding
  given : Heap
  unfolding put
  given = put a (embedded p (h a)) h

  -- With an id that is new
  new_memory : SharedMemory
  new_memory = record {
    entries = m.entries ++ a ∷ [];
    index = insert (id p (embedded p (h a))) a m.index;
  }

  new_values : InMemoryMemory
  new_values = record {
    entries = v.entries ++ embedded p (h a) ∷ [];
    index = insert (id p (embedded p (h a))) (length v.entries) v.index;
  }

  -- With an id that is there
  changed : ℕ → Heap
  unfolding put
  changed b = put b (overwrite (embedded p (h a)) (h b)) given

  old_values : ℕ → InMemoryMemory
  old_values k = record v { entries = modify_at k (overwrite (embedded p (h a))) v.entries }
