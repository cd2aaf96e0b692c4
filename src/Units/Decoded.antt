-- ===== src/Units/Decoded.antt =====
-- What `DecodeBytes` reads of a number and a unit.
use text.Mathlib.TextLemmas.{cons-append, nil-append, append-nil as append-empty}
use mathlib.Core.WellFounded
use native.Mathlib.Decide.{dec_lt}
use locaccel.Prelude.{
  ℕ, ◌*◌, ◌/◌, ◌%◌, ◌^◌, ◌<◌, Char, String, List, [], ◌∷◌, Option, some, true, false, eqb, ◌≡◌,
  refl, sym, ap, ◌∙◌, arith, All, Bool-cases, inl, inr, ltb,
}
use locaccel.Prelude.Int.{ℤ, pos, wrap64, ◌*ℤ◌}
use locaccel.Prelude.Order.{lt_wf}
use locaccel.Prelude.Text.{◌<+>◌, is_empty, is_digit, atoi, scan_number, scan_digits, number}
use locaccel.Prelude.Text.Decimal.{digit, digits, itoa, digits_step, code-digit, scan_digits-digits}
use locaccel.Units.{span_digits, skip_spaces, unit_of, fraction, decode_bytes}

is_digit-digit : (n : ℕ) → n < 10 → is_digit (digit n) ≡ true
is_digit-digit n h = ground (arith, code-digit n h)

span_digits-digits :
    (n : ℕ) (out ds rest : String)
    → span_digits out ≡ (ds, rest)
    → span_digits (digits n out) ≡ (digits n ds, rest)
unfolding span_digits dec_lt
span_digits-digits n =
    WellFounded.induction lt_wf
      {C = λ m.
        (out ds rest : String)
        → span_digits out ≡ (ds, rest)
        → span_digits (digits m out) ≡ (digits m ds, rest)}
      n
      λ m ih out ds rest h. elim (Bool-cases (ltb 0 m)) [
        | inr z ↦
            let zero_m : m ≡ 0 = ground (arith, z) in
            rw (digits_step m out, digits_step m ds, zero_m) h
        | inl p ↦
            let c = digit (m % 10) in
            let below : m / 10 < m = ground (arith, p) in
            let step : span_digits (String.◌∷◌ c out) ≡ (String.◌∷◌ c ds, rest) =
              ground (arith, is_digit-digit (m % 10), h) in
            grind (
              arith,
              digits_step m out,
              digits_step m ds,
              ih (m / 10) below (String.◌∷◌ c out) (String.◌∷◌ c ds) rest step,
            )
      ]

digits-append : (n : ℕ) (out u : String) → digits n out <+> u ≡ digits n (out <+> u)
digits-append n =
    WellFounded.induction lt_wf
      {C = λ m. (out u : String) → digits m out <+> u ≡ digits m (out <+> u)} n
      λ m ih out u. grind (
        arith,
        digits_step m out,
        digits_step m (out <+> u),
        cons-append (digit (m % 10)) out u,
        ih (m / 10),
      )

-- A text that begins with a digit.
abbrev BeginsDigit : String → Type 0
BeginsDigit s = (c : Char) × (rest : String) × (s ≡ String.◌∷◌ c rest) × (is_digit c ≡ true)

digits-BeginsDigit : (n : ℕ) (out : String) → BeginsDigit out → BeginsDigit (digits n out)
unfolding dec_lt
digits-BeginsDigit n =
    WellFounded.induction lt_wf
      {C = λ m. (out : String) → BeginsDigit out → BeginsDigit (digits m out)} n
      λ m ih out h. elim (Bool-cases (ltb 0 m)) [
        | inr z ↦ let zero_m : m ≡ 0 = ground (arith, z) in rw (digits_step m out, zero_m) h
        | inl p ↦
            let c = digit (m % 10) in
            let below : m / 10 < m = ground (arith, p) in
            let step : digits m out ≡ digits (m / 10) (String.◌∷◌ c out) =
              grind (arith, digits_step m out) in
            rw step (
              ih (m / 10) below (String.◌∷◌ c out)
                (c, out, refl, is_digit-digit (m % 10) (omega arith)))
      ]

itoa-BeginsDigit : (n : ℕ) → BeginsDigit (itoa n)
unfolding itoa
itoa-BeginsDigit n = elim (Bool-cases (eqb n 0)) [
  | inl z ↦ rw z ("0", "", refl, refl)
  | inr p ↦
      let c = digit (n % 10) in
      let step : digits n "" ≡ digits (n / 10) (String.◌∷◌ c "") =
        grind (arith, digits_step n "") in
      rw (p, step)
        (digits-BeginsDigit (n / 10) (String.◌∷◌ c "")
          (c, "", refl, is_digit-digit (n % 10) (omega arith)))
]

scan_digits-itoa : (n : ℕ) → n < 2 ^ 64 → scan_digits (itoa n) 0 ≡ number n
unfolding itoa scan_digits
scan_digits-itoa n h = elim (Bool-cases (eqb n 0)) [
  | inl z ↦ rw z (let zero_n : n ≡ 0 = ground (arith, z) in rw zero_n refl)
  | inr p ↦ rw p (scan_digits-digits n "" h)
]

atoi_digit :
    (s : String)
    → BeginsDigit s
    → (n : ℕ) → n < 2 ^ 63
    → scan_digits s 0 ≡ number n
    → atoi s ≡ (pos n, true)
unfolding atoi scan_number
atoi_digit s (c, rest, e, d) n h k =
    rw e (ground (arith, d, h, ap (λ t. scan_digits t 0) (sym e) ∙ k))

span_digits-itoa :
    (n : ℕ) (u : String) → span_digits u ≡ ("", u) → span_digits (itoa n <+> u) ≡ (itoa n, u)
unfolding itoa span_digits
span_digits-itoa n u h = elim (Bool-cases (eqb n 0)) [
  | inl z ↦
      rw (z, cons-append "0" "" u, nil-append u)
        (ap (λ (q : String × String). (String.◌∷◌ "0" q.0, q.1)) h)
  | inr p ↦ rw (p, digits-append n "" u, nil-append u) (span_digits-digits n u "" u h)
]

times : (n k : ℕ) → pos n *ℤ k ≡ pos (n * k)
unfolding ◌*ℤ◌
times n k = ground arith

not_empty : (s : String) → BeginsDigit s → is_empty s ≡ false
not_empty s (c, rest, e, d) = rw e refl

-- What `DecodeBytes` accepts behind a number, and how many bytes it is.
abbrev pub unit_sizes : List (String × ℕ)
unit_sizes =
    ("", 1)
    ∷ ("B", 1)
    ∷ ("KB", 1000)
    ∷ ("MB", 1_000_000)
    ∷ ("GB", 1_000_000_000)
    ∷ ("TB", 1_000_000_000_000)
    ∷ ("KiB", 1024)
    ∷ ("MiB", 1_048_576)
    ∷ ("GiB", 1_073_741_824)
    ∷ ("TiB", 1_099_511_627_776)
    ∷ []

module _ (scaled_float : String → ℕ → Option ℤ) (n : ℕ) (h : n < 2 ^ 63) where
  abbrev Reads : String → ℕ → Type 0
  Reads u size = decode_bytes scaled_float (itoa n <+> u) ≡ some (wrap64 (pos (n * size)))

  reads :
      (u v : String) (base exponent : ℕ)
      → span_digits u ≡ ("", u)
      → fraction u ≡ ("", u)
      → skip_spaces u ≡ v
      → unit_of v ≡ some (base, exponent)
      → Reads u (base ^ exponent)
  unfolding decode_bytes
  reads u v base exponent no_digits no_fraction spaces unit =
      let number_read =
        atoi_digit (itoa n) (itoa-BeginsDigit n) n h (scan_digits-itoa n (omega (arith, h))) in
      rw
        (
          span_digits-itoa n u no_digits,
          no_fraction,
          spaces,
          not_empty (itoa n) (itoa-BeginsDigit n),
          unit,
          append-empty (itoa n),
          number_read,
          times n (base ^ exponent),
        )
        refl

  -- A number below 2 to the 63rd, printed in digits, with each unit behind it, or behind a space, is
  -- read as so many times the unit's bytes, where the product is an int64 and wraps.
  pub decode_bytes-itoa :
      All
        (λ (u : String × ℕ).
          (decode_bytes scaled_float (itoa n <+> u.0) ≡ some (wrap64 (pos (n * u.1))))
          × (decode_bytes scaled_float (itoa n <+> " " <+> u.0) ≡ some (wrap64 (pos (n * u.1)))))
        unit_sizes
  unfolding span_digits skip_spaces unit_of
  decode_bytes-itoa = (
    (reads "" "" 1000 0 refl refl refl refl, reads " " "" 1000 0 refl refl refl refl),
    (
      (reads "B" "B" 1000 0 refl refl refl refl, reads " B" "B" 1000 0 refl refl refl refl),
      (
        (reads "KB" "KB" 1000 1 refl refl refl refl, reads " KB" "KB" 1000 1 refl refl refl refl),
        (
          (reads "MB" "MB" 1000 2 refl refl refl refl, reads " MB" "MB" 1000 2 refl refl refl refl),
          (
            (
              reads "GB" "GB" 1000 3 refl refl refl refl,
              reads " GB" "GB" 1000 3 refl refl refl refl,
            ),
            (
              (
                reads "TB" "TB" 1000 4 refl refl refl refl,
                reads " TB" "TB" 1000 4 refl refl refl refl,
              ),
              (
                (
                  reads "KiB" "KiB" 1024 1 refl refl refl refl,
                  reads " KiB" "KiB" 1024 1 refl refl refl refl,
                ),
                (
                  (
                    reads "MiB" "MiB" 1024 2 refl refl refl refl,
                    reads " MiB" "MiB" 1024 2 refl refl refl refl,
                  ),
                  (
                    (
                      reads "GiB" "GiB" 1024 3 refl refl refl refl,
                      reads " GiB" "GiB" 1024 3 refl refl refl refl,
                    ),
                    (
                      (
                        reads "TiB" "TiB" 1024 4 refl refl refl refl,
                        reads " TiB" "TiB" 1024 4 refl refl refl refl,
                      ),
                      tt,
                    ),
                  ),
                ),
              ),
            ),
          ),
        ),
      ),
    ),
  )
