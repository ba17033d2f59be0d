-- ===== src/Memory/Tenants/Clearing.antt =====
-- What clearing a tenant leaves (src/chen/persistence/tenant_memory.py).
use chen.Common.{ℕ, String, false, ◌≡◌, refl, ap, ◌∙◌, none, some, arith, ==-self, text_key}
use chen.Common.Result.{raised}
use chen.Common.Dict.{lookup, lookup-insert, lookup-erase}
use chen.Memory.{MemoryEntry, Embedder, InMemoryMemory, empty_memory, id}
use chen.Memory
use chen.Memory.Laws.{write_new}
use chen.Memory.Tenants.{
  MultiTenantMemory, no_times, tid, get_tenant_memory, times_of, drop_expired, gc_tenant, size,
  over_quota, write_allowed, write, clear,
}
use chen.Memory.Tenants.Quota.{over_quota_lem, stored-size, write_allowed-stored}

cleared-times :
    (t : String) (s : MultiTenantMemory)
    → lookup (tid (some t)) (clear (some t) s).tenant_entry_times ≡ none
unfolding clear
cleared-times t s =
    ground (
      arith,
      lookup-erase (tid (some t)) (tid (some t)) s.tenant_entry_times,
      ==-self (tid (some t)),
    )

cleared-memory :
    (t : String) (s : MultiTenantMemory) (m : InMemoryMemory)
    → lookup (tid (some t)) s.tenants ≡ some m
    → lookup (tid (some t)) (clear (some t) s).tenants ≡ some (Memory.clear m)
unfolding clear
cleared-memory t s m h = ground (
  arith,
  h,
  lookup-insert (tid (some t)) (tid (some t)) (Memory.clear m) s.tenants,
  ==-self (tid (some t)),
)

gc_tenant-timeless :
    (p : Embedder) (now : ℕ) (t : String) (s : MultiTenantMemory)
    → lookup t s.tenant_entry_times ≡ none
    → gc_tenant p now t s ≡ s
unfolding gc_tenant times_of drop_expired
gc_tenant-timeless p now t s h = ground (arith, h)

write_allowed-timeless :
    (p : Embedder) (now : ℕ) (e : MemoryEntry) (t : String) (s : MultiTenantMemory)
    (m : InMemoryMemory)
    → lookup t s.tenants ≡ some m
    → lookup t s.tenant_entry_times ≡ none
    → (write_allowed p now e t s).0 ≡ raised no_times
unfolding write_allowed get_tenant_memory
write_allowed-timeless p now e t s m found h = ground (arith, found, h)

write-cleared :
    (p : Embedder) (e : MemoryEntry) (m : InMemoryMemory)
    → (Memory.count (Memory.clear m) ≡ 0) × (Memory.count (Memory.write p e (Memory.clear m)).1 ≡ 1)
unfolding Memory.clear Memory.count
write-cleared p e m = (refl, (write_new p e (Memory.clear m) (unfold lookup in refl)).0)

found_memory :
    (t : String) (s : MultiTenantMemory) (m : InMemoryMemory)
    → lookup t s.tenants ≡ some m
    → (get_tenant_memory t s).0 ≡ m
unfolding get_tenant_memory
found_memory t s m h = ground (arith, h)

-- Once the entries of a tenant that has a memory are cleared, the next write for it raises a
-- KeyError, although it has stored its entry.
pub write_after_clear :
    (p : Embedder) (now : ℕ) (e : MemoryEntry) (t : String) (s : MultiTenantMemory)
    (m : InMemoryMemory)
    → lookup (tid (some t)) s.tenants ≡ some m
    → ((write p now e (some t) (clear (some t) s)).0 ≡ raised no_times)
      × (size (tid (some t)) (write p now e (some t) (clear (some t) s)).1 ≡ 1)
unfolding write
write_after_clear p now e t s m h =
    let t' = tid (some t) in
    let s₁ = clear (some t) s in
    let memory = cleared-memory t s m h in
    let same = gc_tenant-timeless p now t' s₁ (cleared-times t s) in
    let empty : size t' s₁ ≡ 0 =
      stored-size t' s₁ (Memory.clear m) memory ∙ (write-cleared p e m).0 in
    let passes : over_quota t' s₁ ≡ false = ground (arith, over_quota_lem t' s₁, empty) in
    let done : write p now e (some t) s₁ ≡ write_allowed p now e t' s₁ =
      ground (arith, same, passes, ap (over_quota t') same, ap (write_allowed p now e t') same) in
    (
      ap (λ r. r.0) done
          ∙ write_allowed-timeless p now e t' s₁ (Memory.clear m) memory (cleared-times t s),
      ap (λ r. size t' r.1) done
          ∙ stored-size t' (write_allowed p now e t' s₁).1
              (Memory.write p e (get_tenant_memory t' s₁).0).1 (write_allowed-stored p now e t' s₁)
          ∙ ap (λ k. Memory.count (Memory.write p e k).1)
              (found_memory t' s₁ (Memory.clear m) memory)
          ∙ (write-cleared p e m).1,
    )
