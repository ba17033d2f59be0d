-- ===== src/Memory/Examples.antt =====
-- The memories at concrete inputs.
use chen.Common.{
  eqb, if◌then◌else◌, codes, ◌≤◌, false, ◌≡◌, ◌↔◌, refl, none, some, [], ◌∷◌, arith, text_key,
}
use chen.Common.Result.{raised}
use chen.Common.Dict.{lookup}
use chen.Memory.{MemoryEntry, Embedder, InMemoryMemory, id, matches, overwrite}
use chen.Memory
use chen.Memory.Tenants.{MultiTenantMemory, quota_exceeded, tid, gc_tenant, size, write}
use chen.Memory.Shared.{Heap, SharedMemory, put}
use chen.Memory.Shared
use chen.Memory.Tenants.Quota.{write_quota}

abbrev embedder : Embedder
embedder = record {
  digest = λ role expert_name text. expert_name;
  embed = λ text. [];
  closer = λ q v w. false;
}

abbrev note : MemoryEntry
note = record {
  text = codes "fact";
  embedding = none;
  role = "analyst";
  expert_name = "a";
  confidence = 9;
  timestamp = 0;
  metadata = [];
}

abbrev louder : MemoryEntry
louder = record note { confidence = 10; role = "coder" }

abbrev full_memory : InMemoryMemory
full_memory = record { entries = note ∷ []; index = ("a", 0) ∷ [] }

abbrev store : MultiTenantMemory
store = record {
  max_entries_per_tenant = 1;
  ttl_seconds = 5;
  tenants = ("A", full_memory) ∷ [];
  tenant_entry_times = ("A", ("a", 3) ∷ []) ∷ [];
}

write_quota_example :
    (size (tid (some "A")) (write embedder 4 note (some "A") store).1 ≤ 1)
    × (((write embedder 4 note (some "A") store).0 ≡ raised quota_exceeded)
        ↔ (size (tid (some "A")) (gc_tenant embedder 4 (tid (some "A")) store) ≡ 1))
unfolding tid size lookup Memory.count
write_quota_example = write_quota embedder 4 note (some "A") store (omega arith) (omega arith)

-- The object at 7 is the note, and all others are its louder variant.
abbrev heap : Heap
heap = λ b. if eqb b 7 then note else louder

abbrev no_objects : SharedMemory
no_objects = record { entries = []; index = [] }

abbrev one_object : SharedMemory
one_object = record { entries = 3 ∷ []; index = ("a", 3) ∷ [] }

abbrev louder_memory : InMemoryMemory
louder_memory = record { entries = louder ∷ []; index = ("a", 0) ∷ [] }

-- One object that is written to two memories: a later write to the second changes what the first
-- reads.
shared_leaks :
    ((Shared.write embedder 5 (put 5 louder heap) no_objects).2.entries ≡ 5 ∷ [])
    × (((Shared.write embedder 7 heap (record { entries = 5 ∷ []; index = ("a", 5) ∷ [] })).1
          5).confidence
        ≡ 9)
unfolding Shared.write put lookup id overwrite
shared_leaks = (refl, refl)
