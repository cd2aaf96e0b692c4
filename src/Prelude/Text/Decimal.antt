-- ===== src/Prelude/Text/Decimal.antt =====
-- The decimal print of a number, and that `atoi` reads it back.
use mathlib.Core.Logic.{ite, dite}
use mathlib.Core.WellFounded
use mathlib.Core.WellFounded.{Acc, Acc-prop}
use native.Mathlib.Decide.{dec_lt}
use locaccel.Prelude.{
  ℕ, zero, suc, ◌+◌, ◌/◌, ◌%◌, ◌^◌, ◌<◌, ◌≡◌, refl, Char, code, String, arith, eqb, if◌then◌else◌,
}
use locaccel.Prelude.Int.{ℤ, pos, negsuc}
use locaccel.Prelude.Order.{lt_wf}
use locaccel.Prelude.Text.{◌<+>◌, scan_digits}

pub digit : ℕ → Char
digit n =
    if eqb n 0
    then "0"
    else if eqb n 1
    then "1"
    else if eqb n 2
    then "2"
    else if eqb n 3
    then "3"
    else if eqb n 4
    then "4"
    else if eqb n 5
    then "5"
    else if eqb n 6
    then "6"
    else if eqb n 7
    then "7"
    else if eqb n 8
    then "8"
    else "9"

emit : (n : ℕ) → Acc ◌<◌ n → String → String
emit n (Acc.intro _ lower) out =
    dite (dec_lt 0 n)
      (λ h. emit (n / 10) (lower (n / 10) (omega arith)) (String.◌∷◌ (digit (n % 10)) out))
      (λ _. out)

-- the digits of a positive number, before `out`
pub digits : ℕ → String → String
unfolding emit digit lt_wf dec_lt
digits n = emit n (lt_wf.apply n)

-- `strconv.Itoa` of a number that is not negative
unfoldable pub itoa : ℕ → String
unfolding digits
itoa n = if eqb n 0 then "0" else digits n ""

-- and of any
unfoldable pub itoa_ℤ : ℤ → String
itoa_ℤ (pos n) = itoa n
itoa_ℤ (negsuc n) = "-" <+> itoa (n + 1)

itoa_runs : itoa_ℤ (negsuc 1200) ≡ "-1201"
unfolding itoa_ℤ itoa
itoa_runs = refl

pub code-digit : (n : ℕ) → n < 10 → code (digit n) ≡ b'0' + n
unfolding digit
code-digit zero h = refl
code-digit (suc zero) h = refl
code-digit (suc (suc zero)) h = refl
code-digit (suc (suc (suc zero))) h = refl
code-digit (suc (suc (suc (suc zero)))) h = refl
code-digit (suc (suc (suc (suc (suc zero))))) h = refl
code-digit (suc (suc (suc (suc (suc (suc zero)))))) h = refl
code-digit (suc (suc (suc (suc (suc (suc (suc zero))))))) h = refl
code-digit (suc (suc (suc (suc (suc (suc (suc (suc zero)))))))) h = refl
code-digit (suc (suc (suc (suc (suc (suc (suc (suc (suc zero))))))))) h = refl
code-digit (suc (suc (suc (suc (suc (suc (suc (suc (suc (suc n)))))))))) h = absurd (omega arith)

emit_step :
    (n : ℕ) (w : Acc ◌<◌ n) (w' : Acc ◌<◌ (n / 10)) (out : String)
    → emit n w out ≡ ite (dec_lt 0 n) (emit (n / 10) w' (String.◌∷◌ (digit (n % 10)) out)) out
unfolding emit
emit_step n (Acc.intro _ lower) w' out = λ i.
    dite (dec_lt 0 n)
      (λ h.
        emit (n / 10) (Acc-prop (lower (n / 10) (omega arith)) w' i)
          (String.◌∷◌ (digit (n % 10)) out))
      (λ _. out)

pub digits_step :
    (n : ℕ) (out : String)
    → digits n out ≡ ite (dec_lt 0 n) (digits (n / 10) (String.◌∷◌ (digit (n % 10)) out)) out
unfolding digits
digits_step n = emit_step n (lt_wf.apply n) (lt_wf.apply (n / 10))

scan_last :
    (n : ℕ) (out : String)
    → n < 2 ^ 64
    → scan_digits (String.◌∷◌ (digit (n % 10)) out) (n / 10) ≡ scan_digits out n
unfolding scan_digits
scan_last n out h = ground (arith, code-digit (n % 10))

pub scan_digits-digits :
    (n : ℕ) (out : String) → n < 2 ^ 64 → scan_digits (digits n out) 0 ≡ scan_digits out n
scan_digits-digits n =
    WellFounded.induction lt_wf
      {C = λ m. (out : String) → m < 2 ^ 64 → scan_digits (digits m out) 0 ≡ scan_digits out m} n
      λ m ih out h. grind (arith, digits_step m out, scan_last m out, ih (m / 10))
