-- ===== src/Core/Registry.antt =====
-- src/chen/backends/registry.py: the backends by name. `K` stands for the factories, which are
-- compared by identity; `lower` is `str.lower` and `before` the order of strings.
pub mod Bound
use chen.Common.{
  ℕ, String, Bool, true, false, Option, none, some, List, [], ◌∷◌, map, if◌then◌else◌, Key, ◌==◌,
  text_key,
}
use chen.Common.Result.{Result, ok, raised}
use chen.Common.Dict.{Dict, lookup, insert}
use chen.Common.Sort.{sort}

pub data BackendError : Type 0 where
  already_registered unknown_backend : BackendError

module _ {K : Type 0} ⦃factory : Key K⦄ (lower : String → String) where
  -- `register_backend`
  unfoldable pub register_backend :
      String → K → Dict String K → Result BackendError (Unit {0}) × Dict String K
  register_backend name new registry = elim (lookup (lower name) registry) [
    | none ↦ (ok tt, insert (lower name) new registry)
    | some old ↦
        if old == new
        then (ok tt, insert (lower name) new registry)
        else (raised already_registered, registry)
  ]

  -- The factory that `get_backend` calls.
  unfoldable pub get_backend : String → Dict String K → Result BackendError K
  get_backend name registry = elim (lookup (lower name) registry) [
    | none ↦ raised unknown_backend
    | some k ↦ ok k
  ]

-- `list_backends`
unfoldable pub list_backends : {K : Type 0} → (String → String → Bool) → Dict String K → List String
list_backends before registry = sort before (map (λ e. e.0) registry)
