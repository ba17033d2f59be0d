-- ===== src/Bench/Ratios.antt =====
-- Exact ratios for the floats of src/chen/benchmarks/kpis.py.
use chen.Common.{ℕ, ◌+◌, ◌-◌, ◌*◌, Bool, false, ltb, leb, if◌then◌else◌}
use chen.Store.{ℤ, pos, negsuc}

pub record Ratio : Type 0 where
  pub num : ℕ
  pub den : ℕ

pub record Signed : Type 0 where
  pub num : ℤ
  pub den : ℕ

unfoldable pub whole : ℕ → Ratio
whole n = record { num = n; den = 1 }

unfoldable pub plus : Ratio → Ratio → Ratio
plus a b = record { num = a.num * b.den + b.num * a.den; den = a.den * b.den }

unfoldable pub times : Ratio → Ratio → Ratio
times a b = record { num = a.num * b.num; den = a.den * b.den }

unfoldable pub over : Ratio → Ratio → Ratio
over a b = record { num = a.num * b.den; den = a.den * b.num }

unfoldable pub is_positive : Ratio → Bool
is_positive a = ltb 0 a.num

unfoldable pub at_least : Ratio → Ratio → Bool
at_least a b = leb (b.num * a.den) (a.num * b.den)

unfoldable pub minus : ℕ → ℕ → ℤ
minus m n = if leb n m then pos (m - n) else negsuc (n - m - 1)

unfoldable pub scale : ℤ → ℕ → ℤ
scale (pos n) k = pos (n * k)
scale (negsuc n) k = minus 0 ((n + 1) * k)

-- `(b - c) / b * 100`
unfoldable pub reduction : Ratio → Ratio → Signed
unfolding minus scale
reduction b c = record {
  num = scale (minus (b.num * c.den) (c.num * b.den)) (b.den * 100);
  den = b.den * c.den * b.num;
}

unfoldable pub at_least_pct : Signed → ℕ → Bool
at_least_pct a n = elim a.num [ pos m ↦ leb (n * a.den) m | negsuc m ↦ false ]

-- `a / b * k if b > 0 else 0.0`
unfoldable pub per : Ratio → Ratio → ℕ → Ratio
unfolding is_positive times over whole
per a b k = if is_positive b then times (over a b) (whole k) else whole 0
