-- ===== src/Registries/Slashes.antt =====
-- Upstreams with and without a slash at their end.
use text.Mathlib.TextLemmas.{cons-append}
use text.Mathlib.TextEquality.{Char-path}
use locaccel.Prelude.{
  code, Char, String, Bool, true, false, eqb, eqb_iff, ◌≡◌, refl, sym, ap, ◌∙◌, arith, inl, inr,
  ◌⊎◌,
}
use locaccel.Prelude.Panic.{Run, returns, panics}
use locaccel.Prelude.Text.{◌<+>◌}
use locaccel.Registries.{ends_with_slash, without_last, trim_slash, add_slash}

-- What is left of a text that is cut at the slash, and what it is with one.
unfoldable pub Cut : Run String → String → Type 0
Cut panics base = Unit
Cut (returns b) base = (b ≡ base) ⊎ (b <+> "/" ≡ base) ⊎ (b ≡ base <+> "/")

eq_of_slash : (c : Char) → eqb (code c) b'/' ≡ true → String.◌∷◌ c "" ≡ "/"
eq_of_slash c e = ap (λ d. String.◌∷◌ d "") (Char-path c "/" ((eqb_iff _ _).0 e))

without_last-slash : (s : String) → ends_with_slash s ≡ returns true → without_last s <+> "/" ≡ s
unfolding ends_with_slash without_last
without_last-slash String.[] e = cc
without_last-slash (String.◌∷◌ c String.[]) e = sym (eq_of_slash c (ground (arith, e)))
without_last-slash (String.◌∷◌ c (String.◌∷◌ d s)) e =
    rw cons-append (ap (λ t. String.◌∷◌ c t) (without_last-slash (String.◌∷◌ d s) e))

pub trim_slash-Cut : (s : String) (m : Run Bool) → ends_with_slash s ≡ m → Cut (trim_slash s) s
unfolding Cut trim_slash
trim_slash-Cut s panics e = rw e tt
trim_slash-Cut s (returns true) e = rw e (inr (inl (without_last-slash s e)))
trim_slash-Cut s (returns false) e = rw e (inl refl)

pub add_slash-Cut : (s : String) (m : Run Bool) → ends_with_slash s ≡ m → Cut (add_slash s) s
unfolding Cut add_slash
add_slash-Cut s panics e = rw e tt
add_slash-Cut s (returns true) e = rw e (inl refl)
add_slash-Cut s (returns false) e = rw e (inr (inr refl))

pub ends_with_slash_tail :
    (c d : Char) (s : String)
    → ends_with_slash (String.◌∷◌ d s <+> "/") ≡ returns true
    → ends_with_slash (String.◌∷◌ c (String.◌∷◌ d s) <+> "/") ≡ returns true
unfolding ends_with_slash
ends_with_slash_tail c d s h =
    rw (cons-append, cons-append) (ap ends_with_slash (sym (cons-append d s "/")) ∙ h)

pub ends_with_slash-append : (s : String) → ends_with_slash (s <+> "/") ≡ returns true
unfolding ends_with_slash
ends_with_slash-append String.[] = refl
ends_with_slash-append (String.◌∷◌ c String.[]) = rw cons-append refl
ends_with_slash-append (String.◌∷◌ c (String.◌∷◌ d s)) =
    ends_with_slash_tail c d s (ends_with_slash-append (String.◌∷◌ d s))

pub add_slash_cases :
    (s b : String) (m : Run Bool)
    → ends_with_slash s ≡ m
    → add_slash s ≡ returns b
    → ends_with_slash b ≡ returns true
unfolding add_slash
add_slash_cases s b panics e h = absurd (ground (arith, e, h))
add_slash_cases s b (returns true) e h = ground (arith, e, h)
add_slash_cases s b (returns false) e h = ground (arith, e, h, ends_with_slash-append s)

-- What a slash is added to ends with one.
pub add_slash-ends : (s b : String) → add_slash s ≡ returns b → ends_with_slash b ≡ returns true
add_slash-ends s b = add_slash_cases s b (ends_with_slash s) refl
