-- ===== src/Tests/Units.antt =====
-- Sizes, printed and read.
use locaccel.Prelude.{ℕ, ◌*◌, ◌-◌, ◌^◌, String, Option, none, some, ◌≡◌, refl, All, arith}
use locaccel.Prelude.Int.{ℤ, pos, negsuc, wrap64, ◌*ℤ◌}
use locaccel.Prelude.Text.{◌<+>◌, atoi}
use locaccel.Prelude.Text.Decimal.{itoa}
use locaccel.Units.{decode_bytes, span_digits, skip_spaces, unit_of}
use locaccel.Units.Decoded.{unit_sizes, decode_bytes-itoa}

abbrev no_float : String → ℕ → Option ℤ
no_float text multiplier = none

decode_bytes-itoa_example :
    All
      (λ (u : String × ℕ).
        (decode_bytes no_float (itoa 8_388_608 <+> u.0) ≡ some (wrap64 (pos (8_388_608 * u.1))))
        × (decode_bytes no_float (itoa 8_388_608 <+> " " <+> u.0)
            ≡ some (wrap64 (pos (8_388_608 * u.1)))))
      unit_sizes
decode_bytes-itoa_example = decode_bytes-itoa no_float 8_388_608 (omega arith)

-- A product that leaves the int64.
too_large : decode_bytes no_float "8388608TiB" ≡ some (negsuc (2 ^ 63 - 1))
unfolding decode_bytes span_digits skip_spaces unit_of wrap64 atoi ◌*ℤ◌
too_large = refl
