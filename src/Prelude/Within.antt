-- ===== src/Prelude/Within.antt =====
-- Properties of some member of a list, and of every one.
use locaccel.Prelude.{List, [], ◌∷◌, All, ◌⊎◌, inl, inr}

-- Some member has the property.
abbrev pub Some : {A : Type 0} → (A → Type 0) → List A → Type 0
Some P [] = ⊥
Some P (x ∷ xs) = P x ⊎ Some P xs

-- What holds of each member that is in the list.
module _ {E : Type 0} where
  unfoldable pub Within : List E → E → Type 1
  Within es e = (P : E → Type 0) → P e → Some P es

  All-weaken :
      (P : E → Type 1) (Q : E → Type 0)
      → ((e : E) → P e → Q e)
      → (es : List E) → All P es
      → All Q es
  All-weaken P Q f [] h = tt
  All-weaken P Q f (e ∷ es) (p, h) = (f e p, All-weaken P Q f es h)

  All-Within_cons : (x : E) (es all : List E) → All (Within all) es → All (Within (x ∷ all)) es
  unfolding Within
  All-Within_cons x [] all h = tt
  All-Within_cons x (e ∷ es) all (w, h) = (λ P p. inr (w P p), All-Within_cons x es all h)

  All-Within : (es : List E) → All (Within es) es
  unfolding Within
  All-Within [] = tt
  All-Within (e ∷ es) = (λ P p. inl p, All-Within_cons e es es (All-Within es))

  -- Whatever follows from being in the list holds of all of it.
  pub All-members : (Q : E → Type 0) (es : List E) → ((e : E) → Within es e → Q e) → All Q es
  All-members Q es f = All-weaken (Within es) Q f es (All-Within es)
