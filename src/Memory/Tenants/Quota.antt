-- ===== src/Memory/Tenants/Quota.antt =====
-- The quota of a tenant (src/chen/persistence/tenant_memory.py).
use chen.Common.{
  ℕ, suc, ◌≤◌, String, Bool, not, ◌&&◌, ◌≡◌, ◌≢◌, ◌↔◌, refl, sym, ap, ◌∙◌, Option, some, List, [],
  ◌∷◌, arith, map, keep, ltb, length, inl, inr, ◌==◌, ==-self, any, Option-cases, Bool-cases,
  text_key,
}
use chen.Common.Result.{raised}
use chen.Common.Dict.{Dict, lookup, lookup-insert}
use chen.Memory.{MemoryEntry, Embedder, InMemoryMemory, empty_memory, id}
use chen.Memory
use chen.Memory.Laws.{write_twice}
use chen.Memory.Tenants.{
  MultiTenantMemory, quota_exceeded, tid, get_tenant_memory, times_of, is_expired, rebuilt,
  drop_expired, gc_tenant, size, over_quota, write_allowed, write,
}

length-keep-le {ℓ} : {A : Type ℓ} (p : A → Bool) (xs : List A) → length (keep p xs) ≤ length xs
length-keep-le p [] = omega arith
length-keep-le p (x ∷ xs) = ground (arith, length-keep-le p xs)

drop_expired-size :
    (p : Embedder) (t : String) (expired : List String) (times : Dict String ℕ)
    (s : MultiTenantMemory)
    → size t (drop_expired p t expired times s) ≤ size t s
unfolding drop_expired size rebuilt Memory.count
drop_expired-size p t [] times s = omega arith
drop_expired-size p t (i ∷ is) times s = elim (Option-cases (lookup t s.tenants)) [
  | inl missing ↦ ground (arith, missing)
  | inr (m, found) ↦ ground (
    arith,
    found,
    lookup-insert t t (rebuilt p (i ∷ is) m) s.tenants,
    ==-self t,
    length-keep-le (λ e. not (any (λ n. n == id p e) (i ∷ is))) m.entries,
  )
]

drop_expired-limit :
    (p : Embedder) (t : String) (expired : List String) (times : Dict String ℕ)
    (s : MultiTenantMemory)
    → (drop_expired p t expired times s).max_entries_per_tenant ≡ s.max_entries_per_tenant
unfolding drop_expired
drop_expired-limit p t [] times s = refl
drop_expired-limit p t (i ∷ is) times s = elim (Option-cases (lookup t s.tenants)) [
  | inl missing ↦ ground (arith, missing)
  | inr (m, found) ↦ ground (arith, found)
]

gc_tenant-size :
    (p : Embedder) (now : ℕ) (t : String) (s : MultiTenantMemory)
    → (size t (gc_tenant p now t s) ≤ size t s)
      × ((gc_tenant p now t s).max_entries_per_tenant ≡ s.max_entries_per_tenant)
unfolding gc_tenant
gc_tenant-size p now t s =
    let times = times_of t s in
    let expired = map (λ e. e.0) (keep (is_expired now s.ttl_seconds) times) in
    (
      ground (arith, drop_expired-size p t expired times s),
      ground (arith, drop_expired-limit p t expired times s),
    )

get_tenant_memory-size :
    (t : String) (s : MultiTenantMemory) → Memory.count (get_tenant_memory t s).0 ≡ size t s
unfolding get_tenant_memory size Memory.count
get_tenant_memory-size t s = elim (Option-cases (lookup t s.tenants)) [
  | inl missing ↦ ground (arith, missing)
  | inr (m, found) ↦ ground (arith, found)
]

pub write_allowed-stored :
    (p : Embedder) (now : ℕ) (e : MemoryEntry) (t : String) (s : MultiTenantMemory)
    → lookup t (write_allowed p now e t s).1.tenants
      ≡ some (Memory.write p e (get_tenant_memory t s).0).1
unfolding write_allowed
write_allowed-stored p now e t s =
    let (m, s₁) = get_tenant_memory t s in
    let m' = (Memory.write p e m).1 in
    elim (Option-cases (lookup t s₁.tenant_entry_times)) [
      | inl missing ↦ ground (arith, missing, lookup-insert t t m' s₁.tenants, ==-self t)
      | inr (times, found) ↦ ground (arith, found, lookup-insert t t m' s₁.tenants, ==-self t)
    ]

pub stored-size :
    (t : String) (s : MultiTenantMemory) (m : InMemoryMemory)
    → lookup t s.tenants ≡ some m
    → size t s ≡ Memory.count m
unfolding size
stored-size t s m h = ground (arith, h)

write_allowed-size :
    (p : Embedder) (now : ℕ) (e : MemoryEntry) (t : String) (s : MultiTenantMemory)
    → size t (write_allowed p now e t s).1 ≤ suc (size t s)
write_allowed-size p now e t s =
    let m = (get_tenant_memory t s).0 in
    let after =
      stored-size t (write_allowed p now e t s).1 (Memory.write p e m).1
        (write_allowed-stored p now e t s) in
    let grown = write_twice p e e m refl in
    omega (arith, after, grown.1, get_tenant_memory-size t s)

pub over_quota_lem :
    (t : String) (s : MultiTenantMemory)
    → over_quota t s
      ≡ (ltb 0 s.max_entries_per_tenant && not (ltb (size t s) s.max_entries_per_tenant))
unfolding over_quota size
over_quota_lem t s = elim (Option-cases (lookup t s.tenants)) [
  | inl missing ↦ ground (arith, missing)
  | inr (m, found) ↦ ground (arith, found)
]

write_allowed-passes :
    (p : Embedder) (now : ℕ) (e : MemoryEntry) (t : String) (s : MultiTenantMemory)
    → (write_allowed p now e t s).0 ≢ raised quota_exceeded
unfolding write_allowed
write_allowed-passes p now e t s h =
    let (m, s₁) = get_tenant_memory t s in
    elim (Option-cases (lookup t s₁.tenant_entry_times)) [
      | inl missing ↦ ground (arith, missing, h)
      | inr (times, found) ↦ ground (arith, found, h)
    ]

-- With a quota, a tenant that was within it still is after any write, and a write is refused for
-- the quota exactly if the tenant is full once expired entries are gone.
pub write_quota :
    (p : Embedder) (now : ℕ) (e : MemoryEntry) (tenant_id : Option String) (s : MultiTenantMemory)
    → 1 ≤ s.max_entries_per_tenant
    → size (tid tenant_id) s ≤ s.max_entries_per_tenant
    → (size (tid tenant_id) (write p now e tenant_id s).1 ≤ s.max_entries_per_tenant)
      × (((write p now e tenant_id s).0 ≡ raised quota_exceeded)
          ↔ (size (tid tenant_id) (gc_tenant p now (tid tenant_id) s) ≡ s.max_entries_per_tenant))
unfolding write
write_quota p now e tenant_id s limited within =
    let t = tid tenant_id in
    let s₁ = gc_tenant p now t s in
    let (shrunk, kept) = gc_tenant-size p now t s in
    let full = over_quota_lem t s₁ in
    elim (Bool-cases (over_quota t s₁)) [
      | inl over ↦
          let stopped : write p now e tenant_id s ≡ (raised quota_exceeded, s₁) =
            ground (arith, over) in
          let all_used : size t s₁ ≡ s.max_entries_per_tenant =
            ground (arith, shrunk, kept, full, over) in
          (
            ground (arith, ap (λ r. size t r.1) stopped, all_used),
            (λ _. all_used, λ _. ap (λ r. r.0) stopped),
          )
      | inr under ↦
          let done : write p now e tenant_id s ≡ write_allowed p now e t s₁ =
            ground (arith, under) in
          let room : suc (size t s₁) ≤ s.max_entries_per_tenant =
            ground (arith, kept, full, under) in
          (
            ground (arith, ap (λ r. size t r.1) done, room, write_allowed-size p now e t s₁),
            (
              λ h. absurd (write_allowed-passes p now e t s₁ (sym (ap (λ r. r.0) done) ∙ h)),
              λ h. absurd (omega (arith, h, room)),
            ),
          )
    ]
