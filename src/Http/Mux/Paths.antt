-- ===== src/Http/Mux/Paths.antt =====
-- Paths that a pattern of literals and a rest takes.
use text.Mathlib.TextLemmas.{cons-append, nil-append}
use locaccel.Prelude.{
  ℕ, Char, code, String, List, [], ◌∷◌, ◌++◌, map, Bool, true, ◌&&◌, ◌||◌, leb, eqb, ◌≡◌, ◌≢◌, refl,
  ap, arith, All, Bool-cases, inl, inr, eq_refl,
}
use locaccel.Prelude.Text.{◌<+>◌, split_seq, add_to_first, join}
use locaccel.Http.Mux.{lit, multi, fits, path_value}

-- The characters that stand for themselves in a URL's path, which are those of base64 too.
unfoldable pub is_plain_char : Char → Bool
is_plain_char c =
    (leb b'a' (code c) && leb (code c) b'z')
    || (leb b'A' (code c) && leb (code c) b'Z')
    || (leb b'0' (code c) && leb (code c) b'9')
    || eqb (code c) b'/'
    || eqb (code c) b'+'
    || eqb (code c) b'='
    || eqb (code c) b'-'
    || eqb (code c) b'_'
    || eqb (code c) b'.'
    || eqb (code c) b'~'

unfoldable pub is_plain : String → Bool
is_plain String.[] = true
is_plain (String.◌∷◌ c s) = is_plain_char c && is_plain s

pub is_plain-append : (s t : String) → is_plain (s <+> t) ≡ (is_plain s && is_plain t)
unfolding is_plain
is_plain-append String.[] t = ap is_plain (nil-append t)
is_plain-append (String.◌∷◌ c s) t = rw cons-append (ground (arith, is_plain-append s t))

abbrev pub ArePlain : List String → Type 0
ArePlain = All (λ t. is_plain t ≡ true)

module _ (sep : ℕ) where
  add_to_first-ArePlain :
      (s : String) (c : Char) (parts : List String)
      → is_plain (String.◌∷◌ c s) ≡ true
      → ArePlain parts
      → ArePlain (add_to_first c parts)
  unfolding is_plain
  add_to_first-ArePlain s c [] h k = (ground (arith, h), tt)
  add_to_first-ArePlain s c (t ∷ parts) h (p, k) = (ground (arith, h, p), k)

  pub split_seq-ArePlain : (s : String) → is_plain s ≡ true → ArePlain (split_seq sep s)
  unfolding is_plain split_seq
  split_seq-ArePlain String.[] h = (refl, tt)
  split_seq-ArePlain (String.◌∷◌ c s) h =
      let rest = split_seq-ArePlain s (ground (arith, h)) in
      elim (Bool-cases (eqb (code c) sep)) [
        | inl e ↦ rw e (refl, rest)
        | inr e ↦ rw e (add_to_first-ArePlain s c _ h rest)
      ]

module _ (unescape : String → String) where
  abbrev pub AreKept : List String → Type 0
  AreKept = All (λ s. unescape s ≡ s)

  pub fits-append :
      (ps qs : List String)
      → AreKept ps
      → qs ≢ []
      → fits unescape (map lit ps ++ multi ∷ []) (ps ++ qs) ≡ true
  unfolding fits
  fits-append [] [] h k = absurd (k refl)
  fits-append [] (q ∷ qs) h k = refl
  fits-append (p ∷ ps) qs (e, h) k = rw (e, eq_refl p) (fits-append ps qs h k)

  pub path_value-append :
      (ps qs : List String)
      → qs ≢ []
      → path_value unescape (map lit ps ++ multi ∷ []) (ps ++ qs) ≡ unescape (join "/" qs)
  unfolding path_value
  path_value-append [] [] k = absurd (k refl)
  path_value-append [] (q ∷ qs) k = refl
  path_value-append (p ∷ ps) qs k = path_value-append ps qs k
