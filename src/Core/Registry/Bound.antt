-- ===== src/Core/Registry/Bound.antt =====
-- A registered name keeps its factory (src/chen/backends/registry.py).
use chen.Common.{
  String, false, ◌≡◌, inl, inr, some, List, [], ◌∷◌, arith, Key, ◌==◌, text_key, Bool-cases,
  Option-cases,
}
use chen.Common.Result.{ok, raised}
use chen.Common.Dict.{Dict, lookup, lookup-insert}
use chen.Core.Registry.{already_registered, register_backend, get_backend}

module _ {K : Type 0} ⦃factory : Key K⦄ (lower : String → String) where
  unfoldable pub register_all : List (String × K) → Dict String K → Dict String K
  register_all [] registry = registry
  register_all ((name, k) ∷ rest) registry =
      register_all rest (register_backend lower name k registry).1

  register_backend-keeps :
      (name other : String) (k new : K) (registry : Dict String K)
      → lookup (lower name) registry ≡ some k
      → lookup (lower name) (register_backend lower other new registry).1 ≡ some k
  unfolding register_backend
  register_backend-keeps name other k new registry h =
      let put = lookup-insert (lower other) (lower name) new registry in
      elim (Option-cases (lookup (lower other) registry)) [
        | inl absent ↦ ground (arith, absent, put, h, text_key.same_iff (lower other) (lower name))
        | inr (old, found) ↦ elim (Bool-cases (old == new)) [
          | inl same ↦ ground (
            arith,
            found,
            same,
            put,
            h,
            factory.same_iff old new,
            text_key.same_iff (lower other) (lower name),
          )
          | inr differs ↦ ground (arith, found, differs, h)
        ]
      ]

  register_all-keeps :
      (name : String) (k : K) (rest : List (String × K)) (registry : Dict String K)
      → lookup (lower name) registry ≡ some k
      → lookup (lower name) (register_all rest registry) ≡ some k
  unfolding register_all
  register_all-keeps name k [] registry h = h
  register_all-keeps name k ((other, new) ∷ rest) registry h =
      register_all-keeps name k rest (register_backend lower other new registry).1
        (register_backend-keeps name other k new registry h)

-- Once a factory is registered under a name, the name stands for it in every spelling that
-- differs in case only, whatever is registered afterwards; registering another factory under such
-- a name raises.
pub get_backend-registered :
    {K : Type 0} ⦃factory : Key K⦄ (lower : String → String) (name name' : String) (k new : K)
    (rest : List (String × K)) (registry : Dict String K)
    → (register_backend lower name k registry).0 ≡ ok tt
    → lower name ≡ lower name'
    → (k == new) ≡ false
    → (get_backend lower name' (register_all lower rest (register_backend lower name k registry).1)
        ≡ ok k)
      × ((register_backend lower name' new
            (register_all lower rest (register_backend lower name k registry).1)).0
          ≡ raised already_registered)
unfolding register_backend get_backend
get_backend-registered lower name name' k new rest registry done spelt differs =
    let put = lookup-insert (lower name) (lower name) k registry in
    let first : lookup (lower name) (register_backend lower name k registry).1 ≡ some k =
      elim (Option-cases (lookup (lower name) registry)) [
        | inl absent ↦ ground (arith, absent, put, text_key.same_iff (lower name) (lower name))
        | inr (old, found) ↦ elim (Bool-cases (old == k)) [
          | inl same ↦ ground (arith, found, same, put, text_key.same_iff (lower name) (lower name))
          | inr other ↦ absurd (ground (arith, found, other, done))
        ]
      ] in
    let kept =
      register_all-keeps lower name k rest (register_backend lower name k registry).1 first in
    (ground (arith, kept, spelt), ground (arith, kept, spelt, differs))
