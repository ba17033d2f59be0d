-- ===== src/Memory/Tenants.antt =====
-- src/chen/persistence/tenant_memory.py, with src/chen/core/memory.py as the memory of a tenant.
-- Times are in microseconds. A call that raises leaves what it has already changed.
pub mod Quota
pub mod Clearing
use chen.Common.{
  Text, ℕ, suc, ◌+◌, ◌-◌, String, Bool, true, false, not, ◌&&◌, Option, none, some, List, [], ◌∷◌,
  ltb, length, keep, any, map, if◌then◌else◌, ◌==◌, text_key,
}
use chen.Common.Result.{Result, ok, raised}
use chen.Common.Dict.{Dict, lookup, insert, erase}
use chen.Memory.{MemoryEntry, Embedder, InMemoryMemory, empty_memory, id}
use chen.Memory

pub record MultiTenantMemory : Type 0 where
  pub max_entries_per_tenant : ℕ
  pub ttl_seconds : ℕ
  pub tenants : Dict String InMemoryMemory
  pub tenant_entry_times : Dict String (Dict String ℕ)

pub data TenantError : Type 0 where
  quota_exceeded no_times : TenantError

unfoldable pub tid : Option String → String
tid none = "__default__"
tid (some t) = if t == "" then "__default__" else t

-- `_get_tenant_memory`
unfoldable pub get_tenant_memory : String → MultiTenantMemory → InMemoryMemory × MultiTenantMemory
get_tenant_memory t s = elim (lookup t s.tenants) [
  | some m ↦ (m, s)
  | none ↦ (
    empty_memory,
    record s {
      tenants = insert t empty_memory s.tenants;
      tenant_entry_times = insert t [] s.tenant_entry_times;
    },
  )
]

-- `{e.id: e for e in kept}`
reindex : Embedder → ℕ → List MemoryEntry → Dict String ℕ → Dict String ℕ
reindex p i [] d = d
reindex p i (e ∷ es) d = reindex p (suc i) es (insert (id p e) i d)

unfoldable pub times_of : String → MultiTenantMemory → Dict String ℕ
times_of t s = elim (lookup t s.tenant_entry_times) [ none ↦ [] | some times ↦ times ]

unfoldable pub is_expired : ℕ → ℕ → String × ℕ → Bool
is_expired now ttl (i, t) = ltb ttl (now - t)

rebuilt : Embedder → List String → InMemoryMemory → InMemoryMemory
unfolding reindex
rebuilt p expired m =
    let kept = keep (λ e. not (any (λ i. i == id p e) expired)) m.entries in
    record { entries = kept; index = reindex p 0 kept [] }

erase_each : List String → Dict String ℕ → Dict String ℕ
erase_each [] d = d
erase_each (i ∷ is) d = erase_each is (erase i d)

drop_expired :
    Embedder → String → List String → Dict String ℕ → MultiTenantMemory → MultiTenantMemory
unfolding rebuilt erase_each
drop_expired p t [] times s = s
drop_expired p t (i ∷ is) times s = elim (lookup t s.tenants) [
  | none ↦ s
  | some m ↦ record s {
    tenants = insert t (rebuilt p (i ∷ is) m) s.tenants;
    tenant_entry_times = insert t (erase_each (i ∷ is) times) s.tenant_entry_times;
  }
]

-- `_gc_tenant`
unfoldable pub gc_tenant : Embedder → ℕ → String → MultiTenantMemory → MultiTenantMemory
unfolding times_of is_expired drop_expired
gc_tenant p now t s =
    let times = times_of t s in
    if ltb 0 s.ttl_seconds
    then drop_expired p t (map (λ e. e.0) (keep (is_expired now s.ttl_seconds) times)) times s
    else s

-- `count` of a tenant's memory, without making one.
unfoldable pub size : String → MultiTenantMemory → ℕ
size t s = elim (lookup t s.tenants) [ none ↦ 0 | some m ↦ Memory.count m ]

-- `_check_quota`: whether it raises.
unfoldable pub over_quota : String → MultiTenantMemory → Bool
unfolding Memory.count
over_quota t s = elim (lookup t s.tenants) [
  | none ↦ false
  | some m ↦ ltb 0 s.max_entries_per_tenant && not (ltb (Memory.count m) s.max_entries_per_tenant)
]

-- What `write` does when the quota allows it.
pub write_allowed :
    Embedder
    → ℕ
    → MemoryEntry
    → String
    → MultiTenantMemory
    → Result TenantError String × MultiTenantMemory
unfolding get_tenant_memory
write_allowed p now e t s =
    let (m, s₁) = get_tenant_memory t s in
    let (eid, m') = Memory.write p e m in
    let s₂ = record s₁ { tenants = insert t m' s₁.tenants } in
    elim (lookup t s₂.tenant_entry_times) [
      | none ↦ (raised no_times, s₂)
      | some times ↦ (
        ok eid,
        record s₂ { tenant_entry_times = insert t (insert eid now times) s₂.tenant_entry_times },
      )
    ]

-- `write`
unfoldable pub write :
    Embedder
    → ℕ
    → MemoryEntry
    → Option String
    → MultiTenantMemory
    → Result TenantError String × MultiTenantMemory
unfolding gc_tenant over_quota write_allowed tid
write p now e tenant_id s =
    let s₁ = gc_tenant p now (tid tenant_id) s in
    if over_quota (tid tenant_id) s₁
    then (raised quota_exceeded, s₁)
    else write_allowed p now e (tid tenant_id) s₁

-- `retrieve`
unfoldable pub retrieve :
    Embedder
    → ℕ
    → Text
    → ℕ
    → Option String
    → Option String
    → ℕ
    → MultiTenantMemory
    → List MemoryEntry × MultiTenantMemory
unfolding gc_tenant get_tenant_memory tid
retrieve p now query k tenant_id role min_confidence s =
    let (m, s₁) = get_tenant_memory (tid tenant_id) (gc_tenant p now (tid tenant_id) s) in
    let (found, m') = Memory.retrieve p query k role min_confidence m in
    (found, record s₁ { tenants = insert (tid tenant_id) m' s₁.tenants })

-- `count`
unfoldable pub count : Option String → MultiTenantMemory → ℕ × MultiTenantMemory
unfolding get_tenant_memory tid
count tenant_id s = let (m, s₁) = get_tenant_memory (tid tenant_id) s in (Memory.count m, s₁)

-- `clear`
unfoldable pub clear : Option String → MultiTenantMemory → MultiTenantMemory
unfolding tid
clear none s = record s {
  tenants = map (λ e. (e.0, Memory.clear e.1)) s.tenants;
  tenant_entry_times = [];
}
clear (some t) s = record s {
  tenants = elim (lookup (tid (some t)) s.tenants) [
    | none ↦ s.tenants
    | some m ↦ insert (tid (some t)) (Memory.clear m) s.tenants
  ];
  tenant_entry_times = erase (tid (some t)) s.tenant_entry_times;
}

-- `list_tenants`
unfoldable pub list_tenants : MultiTenantMemory → List String
list_tenants s = keep (λ t. not (t == "__default__")) (map (λ e. e.0) s.tenants)

sum_counts : Dict String InMemoryMemory → ℕ
sum_counts [] = 0
sum_counts ((t, m) ∷ d) = Memory.count m + sum_counts d

-- `total_entries`
unfoldable pub total_entries : MultiTenantMemory → ℕ
unfolding sum_counts
total_entries s = sum_counts s.tenants
