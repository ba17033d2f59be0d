-- ===== src/Memory/Shared.antt =====
-- The objects behind src/chen/core/memory.py: `write` keeps the caller's `MemoryEntry` itself, and
-- changes it later in place. A heap gives the object at an address.
pub mod Writes
use chen.Common.{
  ℕ, zero, suc, ◌≡◌, refl, sym, ap, ◌∙◌, inl, inr, String, Bool, false, none, some, List, [], ◌∷◌,
  ◌++◌, length, length-map, map, any, get_elem?, get_elem?-append_right, eqb, eqb_iff,
  if◌then◌else◌, arith, text_key, ◌==◌, Option-cases, Bool-cases,
}
use chen.Common.Dict.{Dict, lookup, insert, lookup-insert}
use chen.Memory.{MemoryEntry, Embedder, InMemoryMemory, id, embedded, overwrite, modify_at}
use chen.Memory

abbrev pub Heap : Type 0
Heap = ℕ → MemoryEntry

pub record SharedMemory : Type 0 where
  pub entries : List ℕ
  pub index : Dict String ℕ

unfoldable pub put : ℕ → MemoryEntry → Heap → Heap
put a e h b = if eqb b a then e else h b

-- `write` of the object at an address
unfoldable pub write : Embedder → ℕ → Heap → SharedMemory → String × Heap × SharedMemory
unfolding put embedded id overwrite
write p a h m =
    let e = embedded p (h a) in
    let h₁ = put a e h in
    elim (lookup (id p e) m.index) [
      | none ↦
          (id p e, h₁, record { entries = m.entries ++ a ∷ []; index = insert (id p e) a m.index })
      | some b ↦ (id p e, put b (overwrite e (h₁ b)) h₁, m)
    ]

abbrev pub occurs : ℕ → List ℕ → Bool
occurs a xs = any (λ b. eqb a b) xs

abbrev pub IsDistinct : List ℕ → Type 0
IsDistinct [] = Unit
IsDistinct (a ∷ xs) = (occurs a xs ≡ false) × IsDistinct xs

-- No address of the first list is in the second.
abbrev pub IsApart : List ℕ → List ℕ → Type 0
IsApart [] bs = Unit
IsApart (a ∷ xs) bs = (occurs a bs ≡ false) × IsApart xs bs

-- What a memory of entries that are values is for one of objects: it has their values, and its index
-- the place of the object that theirs gives.
pub record IsView (h : Heap) (m : SharedMemory) (v : InMemoryMemory) : Type 0 where
  pub entries : map h m.entries ≡ v.entries
  pub found :
      (i : String) (k : ℕ)
      → lookup i v.index ≡ some k
      → (b : ℕ) × (lookup i m.index ≡ some b) × (get_elem? m.entries k ≡ some b)
  pub missing : (i : String) → lookup i v.index ≡ none → lookup i m.index ≡ none
  pub distinct : IsDistinct m.entries

pub map-put :
    (a : ℕ) (e : MemoryEntry) (h : Heap) (xs : List ℕ)
    → occurs a xs ≡ false
    → map (put a e h) xs ≡ map h xs
unfolding put
map-put a e h [] new = refl
map-put a e h (b ∷ xs) new =
    let ih : occurs a xs ≡ false → map (put a e h) xs ≡ map h xs = map-put a e h xs in
    ground (arith, ih (ground (arith, new)), eqb_iff a b, eqb_iff b a, new)

pub occurs_other :
    (a : ℕ) (xs : List ℕ) (k b : ℕ)
    → occurs a xs ≡ false
    → get_elem? xs k ≡ some b
    → eqb a b ≡ false
occurs_other a [] k b new here = absurd (cc)
occurs_other a (c ∷ xs) zero b new here = ground (arith, new, here)
occurs_other a (c ∷ xs) (suc k) b new here = occurs_other a xs k b (ground (arith, new)) here

pub modify_at-map :
    (f : MemoryEntry → MemoryEntry) (h : Heap) (xs : List ℕ) (k b : ℕ)
    → IsDistinct xs
    → get_elem? xs k ≡ some b
    → modify_at k f (map h xs) ≡ map (put b (f (h b)) h) xs
unfolding modify_at put
modify_at-map f h [] k b is here = absurd (cc)
modify_at-map f h (a ∷ xs) zero b is here =
    let same : a ≡ b = ground (arith, here) in
    let rest = map-put b (f (h b)) h xs (ground (arith, is.0, same)) in
    ground (arith, same, rest, eqb_iff a b)
modify_at-map f h (a ∷ xs) (suc k) b is here =
    let other = occurs_other a xs k b is.0 here in
    let rest = modify_at-map f h xs k b is.1 here in ground (arith, other, rest)

pub IsApart-other :
    (xs bs : List ℕ) (k b : ℕ) → IsApart xs bs → get_elem? xs k ≡ some b → occurs b bs ≡ false
IsApart-other [] bs k b apart here = absurd (cc)
IsApart-other (a ∷ xs) bs zero b apart here = ground (arith, apart.0, here)
IsApart-other (a ∷ xs) bs (suc k) b apart here = IsApart-other xs bs k b apart.1 here

pub IsApart-snoc :
    (xs bs : List ℕ) (a : ℕ) → IsApart xs bs → occurs a bs ≡ false → IsApart (xs ++ a ∷ []) bs
IsApart-snoc [] bs a apart new = (new, tt)
IsApart-snoc (b ∷ xs) bs a apart new = (apart.0, IsApart-snoc xs bs a apart.1 new)

pub occurs-snoc :
    (b a : ℕ) (xs : List ℕ)
    → occurs b xs ≡ false
    → eqb b a ≡ false
    → occurs b (xs ++ a ∷ []) ≡ false
occurs-snoc b a [] new ne = ground (arith, ne)
occurs-snoc b a (c ∷ xs) new ne =
    let ih : occurs b xs ≡ false → occurs b (xs ++ a ∷ []) ≡ false = λ n. occurs-snoc b a xs n ne in
    ground (arith, ih (ground (arith, new)), new)

pub IsDistinct-snoc :
    (xs : List ℕ) (a : ℕ) → IsDistinct xs → occurs a xs ≡ false → IsDistinct (xs ++ a ∷ [])
IsDistinct-snoc [] a is new = (refl, tt)
IsDistinct-snoc (b ∷ xs) a is new = (
  occurs-snoc b a xs is.0 (ground (arith, new, eqb_iff a b, eqb_iff b a)),
  IsDistinct-snoc xs a is.1 (ground (arith, new)),
)

pub map-snoc : (h : Heap) (a : ℕ) (xs : List ℕ) → map h (xs ++ a ∷ []) ≡ map h xs ++ h a ∷ []
map-snoc h a [] = refl
map-snoc h a (x ∷ xs) = ap (λ es. h x ∷ es) (map-snoc h a xs)

pub get_elem?-snoc :
    (xs : List ℕ) (a k b : ℕ) → get_elem? xs k ≡ some b → get_elem? (xs ++ a ∷ []) k ≡ some b
get_elem?-snoc [] a k b here = absurd (cc)
get_elem?-snoc (x ∷ xs) a zero b here = here
get_elem?-snoc (x ∷ xs) a (suc k) b here = get_elem?-snoc xs a k b here
