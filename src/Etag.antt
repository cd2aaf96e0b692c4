-- ===== src/Etag.antt =====
-- internal/httpheaders/etag.go: comparing entity tags.
use text.Mathlib.TextEquality.{Char-path}
use locaccel.Prelude.{
  Char, inl, inr, ◌<◌, String, code, Bool, true, false, ◌&&◌, ◌≡◌, ◌≢◌, ◌↔◌, ◌⊎◌, arith, ltb, eqb,
  ◌==◌, eq_iff, if◌then◌else◌, refl,
}
use locaccel.Prelude.Panic.{Run, returns, panics}

-- What the slice `etag[:2]` finds, and `etag[2:]` behind a "W/". The slice panics on a text of less
-- than two bytes; a character from U+0080 on has two bytes or more.
pub data Prefix : Type 0 where
  too_short strong : Prefix
  weak : String → Prefix

unfoldable pub prefix_of : String → Prefix
prefix_of String.[] = too_short
prefix_of (String.◌∷◌ c String.[]) = if ltb (code c) 128 then too_short else strong
prefix_of (String.◌∷◌ c (String.◌∷◌ d rest)) =
    if eqb (code c) b'W' && eqb (code d) b'/' then weak rest else strong

unfoldable pub etags_match : String → String → Run Bool
unfolding prefix_of
etags_match etag₁ etag₂ = if etag₁ == etag₂ then returns true else elim (prefix_of etag₁) [
  | too_short ↦ panics
  | weak rest ↦ returns (rest == etag₂)
  | strong ↦ elim (prefix_of etag₂) [
    | too_short ↦ panics
    | weak rest ↦ returns (etag₁ == rest)
    | strong ↦ returns false
  ]
]

-- The opaque tag of a well-formed entity tag begins with a quote and has a second one.
abbrev pub IsOpaque : String → Type 0
IsOpaque String.[] = ⊥
IsOpaque (String.◌∷◌ c String.[]) = ⊥
IsOpaque (String.◌∷◌ c (String.◌∷◌ d rest)) = code c ≡ b'"'

abbrev pub WellFormed : String → Prefix → Type 0
WellFormed etag too_short = ⊥
WellFormed etag strong = IsOpaque etag
WellFormed etag (weak rest) = IsOpaque rest

-- RFC 9110, 8.8.3: an opaque tag, perhaps marked as weak.
abbrev pub IsEtag : String → Type 0
IsEtag etag = WellFormed etag (prefix_of etag)

abbrev pub opaque_of : String → Prefix → String
opaque_of etag (weak rest) = rest
opaque_of etag _ = etag

-- The tag without its mark.
abbrev pub opaque : String → String
opaque etag = opaque_of etag (prefix_of etag)

-- An opaque tag is not marked.
prefix_of-IsOpaque : (etag : String) → IsOpaque etag → prefix_of etag ≡ strong
unfolding prefix_of
prefix_of-IsOpaque String.[] h = absurd h
prefix_of-IsOpaque (String.◌∷◌ c String.[]) h = absurd h
prefix_of-IsOpaque (String.◌∷◌ c (String.◌∷◌ d rest)) h = ground arith

marked : String → String
marked rest = String.◌∷◌ "W" (String.◌∷◌ "/" rest)

prefix_of-weak : (etag rest : String) → prefix_of etag ≡ weak rest → etag ≡ marked rest
unfolding prefix_of marked
prefix_of-weak String.[] rest h = cc
prefix_of-weak (String.◌∷◌ c String.[]) rest h = ground arith
prefix_of-weak (String.◌∷◌ c (String.◌∷◌ d s)) rest h =
    ground (arith, Char-path c "W", Char-path d "/")

compare_prefixes :
    (a b : String) (p q : Prefix)
    → prefix_of a ≡ p
    → prefix_of b ≡ q
    → WellFormed a p
    → WellFormed b q
    → etags_match a b ≡ returns (opaque_of a p == opaque_of b q)
unfolding etags_match
compare_prefixes a b too_short q e f ha hb = absurd ha
compare_prefixes a b p too_short e f ha hb = absurd hb
compare_prefixes a b strong strong e f ha hb = ground (arith, eq_iff a b)
compare_prefixes a b strong (weak y) e f ha hb = ground (arith, eq_iff a b, eq_iff a y)
compare_prefixes a b (weak x) strong e f ha hb = ground (arith, eq_iff a b, eq_iff x b)
compare_prefixes a b (weak x) (weak y) e f ha hb = ground (
  arith,
  eq_iff a b,
  eq_iff x y,
  eq_iff x b,
  prefix_of-weak a x e,
  prefix_of-weak b y f,
  prefix_of-IsOpaque x ha,
)

-- On well-formed tags the comparison does not panic, and it is the weak comparison of RFC 9110:
-- the tags match exactly when their opaque tags are the same.
pub etags_match-opaque :
    (a b : String) → IsEtag a → IsEtag b → etags_match a b ≡ returns (opaque a == opaque b)
etags_match-opaque a b ha hb = compare_prefixes a b (prefix_of a) (prefix_of b) refl refl ha hb

-- A text of less than two bytes: none, or a character of one byte.
abbrev pub IsShort : String → Type 0
IsShort etag = (etag ≡ "") ⊎ ((c : Char) × (code c < 128) × (etag ≡ String.◌∷◌ c ""))

abbrev pub begins_weak : String → Bool
begins_weak String.[] = false
begins_weak (String.◌∷◌ c String.[]) = false
begins_weak (String.◌∷◌ c (String.◌∷◌ d rest)) = eqb (code c) b'W' && eqb (code d) b'/'

too_short_iff : (etag : String) → (prefix_of etag ≡ too_short) ↔ IsShort etag
unfolding prefix_of
too_short_iff String.[] = (λ h. inl refl, λ h. refl)
too_short_iff (String.◌∷◌ c String.[]) = (
  λ h. inr (c, ground (arith, h), refl),
  λ s. elim s [ inl e ↦ cc | inr (d, lt, e) ↦ ground (arith, lt, e) ],
)
too_short_iff (String.◌∷◌ c (String.◌∷◌ d s)) =
    (λ h. absurd (ground (arith, h)), λ s. elim s [ inl e ↦ cc | inr (x, lt, e) ↦ cc ])

strong_not_weak : (etag : String) → prefix_of etag ≡ strong → begins_weak etag ≡ false
unfolding prefix_of
strong_not_weak String.[] h = cc
strong_not_weak (String.◌∷◌ c String.[]) h = refl
strong_not_weak (String.◌∷◌ c (String.◌∷◌ d s)) h = ground (arith, h)

not_weak :
    (etag : String)
    → begins_weak etag ≡ false
    → (prefix_of etag ≡ strong) ⊎ (prefix_of etag ≡ too_short)
unfolding prefix_of
not_weak String.[] h = inr refl
not_weak (String.◌∷◌ c String.[]) h = ground arith
not_weak (String.◌∷◌ c (String.◌∷◌ d s)) h = ground (arith, h)

panics_iff :
    (a b : String)
    → (etags_match a b ≡ panics) ↔ (
        (a ≢ b)
        × ((prefix_of a ≡ too_short) ⊎ ((prefix_of a ≡ strong) × (prefix_of b ≡ too_short))))
unfolding etags_match
panics_iff a b = (λ h. ground (arith, eq_iff a b), λ h. ground (arith, eq_iff a b))

-- The comparison panics exactly on different tags of which the first is shorter than two bytes, or
-- the first does not begin with "W/" and the second is shorter than two bytes.
pub etags_match-panics :
    (a b : String)
    → (etags_match a b ≡ panics) ↔ ((a ≢ b) × (IsShort a ⊎ ((begins_weak a ≡ false) × IsShort b)))
etags_match-panics a b = (
  λ h.
      let (ne, cause) = (panics_iff a b).0 h in
      (
        ne,
        elim cause [
          | inl e ↦ inl ((too_short_iff a).0 e)
          | inr (e, f) ↦ inr (strong_not_weak a e, (too_short_iff b).0 f)
        ],
      ),
  λ (ne, cause). elim cause [
    | inl s ↦ (panics_iff a b).1 (ne, inl ((too_short_iff a).1 s))
    | inr (u, s) ↦ elim (not_weak a u) [
      | inl e ↦ (panics_iff a b).1 (ne, inr (e, (too_short_iff b).1 s))
      | inr e ↦ (panics_iff a b).1 (ne, inl e)
    ]
  ],
)
