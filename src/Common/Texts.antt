-- ===== src/Common/Texts.antt =====
-- Texts in texts.
use Prim.Native.Nat.{ℕ}
use mathlib.Core.Bool.{Bool, true, false}
use mathlib.Core.List.{List, [], ◌∷◌}
use chen.Common.Tests.{eqb, if◌then◌else◌}

-- `text.startswith(prefix)`
unfoldable pub starts_with : List ℕ → List ℕ → Bool
starts_with [] text = true
starts_with (k ∷ prefix) [] = false
starts_with (k ∷ prefix) (c ∷ text) =
    let rest = starts_with prefix text in if eqb k c then rest else false

-- `part in text`
unfoldable pub occurs_in : List ℕ → List ℕ → Bool
unfolding starts_with
occurs_in part [] = starts_with part []
occurs_in part (c ∷ text) =
    let rest = occurs_in part text in if starts_with part (c ∷ text) then true else rest

unfoldable pub prepend : ℕ → List (List ℕ) → List (List ℕ)
prepend c [] = (c ∷ []) ∷ []
prepend c (part ∷ parts) = (c ∷ part) ∷ parts

-- `text.split(c)`
unfoldable pub split_at : ℕ → List ℕ → List (List ℕ)
unfolding prepend
split_at sep [] = [] ∷ []
split_at sep (c ∷ text) =
    let rest = split_at sep text in if eqb c sep then [] ∷ rest else prepend c rest

-- `text.replace(c, "")`
unfoldable pub without : ℕ → List ℕ → List ℕ
without sep [] = []
without sep (c ∷ text) = let rest = without sep text in if eqb c sep then rest else c ∷ rest
