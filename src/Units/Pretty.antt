-- ===== src/Units/Pretty.antt =====
-- How large a number `PrettyBytes` prints, and how well.
use locaccel.Prelude.{ℕ, ◌+◌, ◌*◌, ◌^◌, ◌≤◌, ◌<◌, String, ◌≡◌, ◌⊎◌}
use locaccel.Prelude.Panic.{Run, returns, panics}
use locaccel.Prelude.Text.{◌<+>◌}
use locaccel.Prelude.Text.Decimal.{itoa}
use locaccel.Units.{print_hundredths, unit_name}

-- The hundredths of the quotient by `m` are within half of one.
abbrev pub IsNear : ℕ → ℕ → ℕ → Type 0
IsNear h b m = (2 * (h * m) ≤ 200 * b + m) × (200 * b ≤ 2 * (h * m) + m)

-- What is printed: the number itself below the base; else a quotient by a power of it, which is at
-- least 1 and below the base, to the nearest hundredth. A number that is too large panics.
abbrev pub IsPretty : ℕ → Run String → Type 0
IsPretty b panics = 1024 ^ 5 ≤ b
IsPretty b (returns s) =
    ((b < 1024) × (s ≡ itoa b <+> "B"))
    ⊎ ((i : ℕ) × (h : ℕ) × (unit : String) × (0 < i)
        × (i < 5)
        × (1024 ^ i ≤ b)
        × (b < 1024 ^ (i + 1))
        × IsNear h b (1024 ^ i)
        × (unit_name i ≡ returns unit)
        × (s ≡ print_hundredths h <+> unit <+> "iB"))

-- What the loop ends with.
abbrev Scaled : ℕ → ℕ → Type 0
Scaled b i = (1024 ^ i ≤ b) × (b < 1024 ^ (i + 1))
