-- ===== src/Prelude/Text/Split.antt =====
-- Splitting a text at a separator.
use text.Mathlib.TextLemmas.{cons-append, nil-append}
use text.Mathlib.TextEquality.{Char-path}
use locaccel.Prelude.{
  Char, code, String, List, [], ◌∷◌, ◌++◌, ◌≡◌, ◌≢◌, refl, sym, ap, ap₂, ◌∙◌, inl, inr, eqb,
  eqb_iff, Bool-cases, arith,
}
use locaccel.Prelude.Text.{◌<+>◌, split_seq, join, add_to_first}

module _ (sep : Char) where
  pub split_seq-ne-nil : (s : String) → split_seq (code sep) s ≢ []
  unfolding split_seq
  split_seq-ne-nil String.[] = cc
  split_seq-ne-nil (String.◌∷◌ c s) = ground (arith, split_seq-ne-nil s)

  -- Splitting two texts that a separator joins is splitting each.
  pub split_seq-append :
      (s t : String)
      → split_seq (code sep) (s <+> String.◌∷◌ sep t)
        ≡ split_seq (code sep) s ++ split_seq (code sep) t
  unfolding split_seq
  split_seq-append String.[] t = rw nil-append (ground arith)
  split_seq-append (String.◌∷◌ c s) t =
      rw cons-append (ground (arith, split_seq-append s t, split_seq-ne-nil s))

  -- Joining what was split.
  join-cons :
      (c : Char) (parts : List String)
      → parts ≢ []
      → join (String.◌∷◌ sep "") (add_to_first c parts)
        ≡ String.◌∷◌ c (join (String.◌∷◌ sep "") parts)
  unfolding join
  join-cons c [] h = absurd (h refl)
  join-cons c (s ∷ []) h = refl
  join-cons c (s ∷ t ∷ parts) h = cons-append c s _

  join-blank :
      (parts : List String)
      → parts ≢ []
      → join (String.◌∷◌ sep "") ("" ∷ parts) ≡ String.◌∷◌ sep (join (String.◌∷◌ sep "") parts)
  unfolding join
  join-blank [] h = absurd (h refl)
  join-blank (t ∷ parts) h =
      nil-append _ ∙ cons-append sep "" _ ∙ ap (λ s. String.◌∷◌ sep s) (nil-append _)

  pub join-split_seq : (s : String) → join (String.◌∷◌ sep "") (split_seq (code sep) s) ≡ s
  unfolding split_seq join
  join-split_seq String.[] = refl
  join-split_seq (String.◌∷◌ c s) = elim (Bool-cases (eqb (code c) (code sep))) [
    | inl e ↦ rw e (
        join-blank _ (split_seq-ne-nil s)
        ∙ ap₂ (λ x t. String.◌∷◌ x t) (sym (Char-path c sep ((eqb_iff (code c) (code sep)).0 e)))
            (join-split_seq s))
    | inr e ↦
        rw e (join-cons c _ (split_seq-ne-nil s) ∙ ap (λ t. String.◌∷◌ c t) (join-split_seq s))
  ]
