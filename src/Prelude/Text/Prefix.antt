-- ===== src/Prelude/Text/Prefix.antt =====
-- What a text with a prefix is.
use text.Mathlib.TextLemmas.{cons-append, nil-append}
use text.Mathlib.TextEquality.{Char-path}
use locaccel.Prelude.{
  code, String, some, true, eqb, eqb_iff, ◌≡◌, sym, ap₂, arith, Bool-cases, Option-cases, inl, inr,
}
use locaccel.Prelude.Text.{◌<+>◌, cut_prefix, has_prefix}

pub cut_prefix-append : (p s rest : String) → cut_prefix p s ≡ some rest → s ≡ p <+> rest
unfolding cut_prefix
cut_prefix-append String.[] s rest e = ground (arith, e, nil-append rest)
cut_prefix-append (String.◌∷◌ c p) String.[] rest e = cc
cut_prefix-append (String.◌∷◌ c p) (String.◌∷◌ d s) rest e =
    elim (Bool-cases (eqb (code c) (code d))) [
      | inl same ↦
          let e' : cut_prefix p s ≡ some rest = ground (arith, same, e) in
          rw cons-append (
            ap₂ (λ x t. String.◌∷◌ x t) (Char-path d c (sym ((eqb_iff (code c) (code d)).0 same)))
              (cut_prefix-append p s rest e'))
      | inr other ↦ absurd (ground (arith, other, e))
    ]

pub has_prefix-some :
    (p s : String) → has_prefix p s ≡ true → (rest : String) × (cut_prefix p s ≡ some rest)
unfolding has_prefix
has_prefix-some p s h = elim (Option-cases (cut_prefix p s)) [
  | inl e ↦ absurd (ground (arith, e, h))
  | inr found ↦ found
]
