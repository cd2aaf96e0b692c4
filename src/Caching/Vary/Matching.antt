-- ===== src/Caching/Vary/Matching.antt =====
-- A stored response matches the requests that agree on every field that its Vary header names.
use locaccel.Prelude.{
  String, List, [], ◌∷◌, Option, none, some, Bool, true, false, not, ◌&&◌, ◌||◌, ◌≡◌, refl, arith,
  ◌==◌, eq_iff, any, all, All, ◌↔◌, ◌⊎◌, inl, inr,
}
use locaccel.Http.Headers.{Header, find, has, put, find-put}
use locaccel.Caching.Vary.{
  normalize_vary_headers, relevant, extract_from, extract_vary_headers, same_values,
  match_vary_headers, get_vary_header_names,
}

-- Every stored value is that of the request `req`.
abbrev IsFrom : Header → Header → Type 0
IsFrom req [] = Unit
IsFrom req ((name, vs) ∷ h) = (vs ≡ relevant req name) × IsFrom req h

-- A put adds the test of its entry to that of all.
module _ (req : Header) (p : String → List String → Bool) where
  all-put :
      (h : Header) (name : String)
      → IsFrom req h
      → all (λ e. p e.0 e.1) (put h name (relevant req name))
        ≡ (p name (relevant req name) && all (λ e. p e.0 e.1) h)
  unfolding put
  all-put [] name from = refl
  all-put ((key, vs) ∷ h) name (same, from) = ground (arith, eq_iff key name, all-put h name from)

  IsFrom-put :
      (h : Header) (name : String) → IsFrom req h → IsFrom req (put h name (relevant req name))
  unfolding put
  IsFrom-put [] name from = (refl, tt)
  IsFrom-put ((key, vs) ∷ h) name (same, from) =
      ground (arith, eq_iff key name, IsFrom-put h name from)

  all-extract_from :
      (names : List String) (h : Header)
      → IsFrom req h
      → all (λ e. p e.0 e.1) (extract_from req names h)
        ≡ (all (λ n. p n (relevant req n)) names && all (λ e. p e.0 e.1) h)
  unfolding extract_from
  all-extract_from [] h from = refl
  all-extract_from (name ∷ names) h from = ground (
    arith,
    all-put h name from,
    IsFrom-put h name from,
    all-extract_from names (put h name (relevant req name)),
  )

abbrev is_star : String → Bool
is_star name = name == "*"

has-put :
    (h : Header) (name : String) (vs : List String)
    → has (put h name vs) "*" ≡ (is_star name || has h "*")
unfolding has
has-put h name vs = rw (find-put h name vs "*", has) (ground arith)

has-extract_from :
    (req : Header) (names : List String) (h : Header)
    → has (extract_from req names h) "*" ≡ (any is_star names || has h "*")
unfolding extract_from
has-extract_from req [] h = refl
has-extract_from req (name ∷ names) h = ground (
  arith,
  has-put h name (relevant req name),
  has-extract_from req names (put h name (relevant req name)),
)

match_vary_headers-step :
    (req h : Header)
    → match_vary_headers req h
      ≡ (not (has h "*") && all (λ e. same_values (relevant req e.0) e.1) h)
unfolding match_vary_headers
match_vary_headers-step req [] = unfold has find in refl
match_vary_headers-step req (e ∷ h) = ground arith

-- A normalised entry has one value at most.
normalized :
    (o : Option (List String))
    → (normalize_vary_headers o ≡ []) ⊎ ((v : String) × (normalize_vary_headers o ≡ v ∷ []))
unfolding normalize_vary_headers
normalized none = inl refl
normalized (some []) = inr (_, refl)
normalized (some (v ∷ [])) = inr (v, refl)
normalized (some (v ∷ w ∷ vs)) = inr (_, refl)

same_one : (a b : String) → same_values (a ∷ []) (b ∷ []) ≡ (b == a)
unfolding same_values
same_one a b = ground arith

same_normalized :
    (xs ys : List String)
    → (xs ≡ []) ⊎ ((v : String) × (xs ≡ v ∷ []))
    → (ys ≡ []) ⊎ ((v : String) × (ys ≡ v ∷ []))
    → (same_values xs ys ≡ true) ↔ (xs ≡ ys)
unfolding same_values
same_normalized xs ys (inl e) (inl f) = rw (e, f) (λ _. refl, λ _. refl)
same_normalized xs ys (inl e) (inr (w, f)) = rw (e, f) (λ h. cc, λ h. cc)
same_normalized xs ys (inr (v, e)) (inl f) = rw (e, f) (λ h. cc, λ h. cc)
same_normalized xs ys (inr (v, e)) (inr (w, f)) =
    rw (e, f) (λ h. ground (arith, eq_iff w v), λ h. ground (arith, eq_iff w v))

same_relevant :
    (req req' : Header) (name : String)
    → (same_values (relevant req' name) (relevant req name) ≡ true)
      ↔ (relevant req' name ≡ relevant req name)
unfolding relevant
same_relevant req req' name = same_normalized _ _ (normalized _) (normalized _)

all_iff :
    (p : String → Bool) (P : String → Type 0)
    → ((n : String) → (p n ≡ true) ↔ P n)
    → (names : List String) → (all p names ≡ true) ↔ All P names
all_iff p P e [] = (λ _. tt, λ _. refl)
all_iff p P e (n ∷ names) =
    let ih = all_iff p P e names in
    (
      λ h. ((e n).0 (ground (arith, h)), ih.0 (ground (arith, h))),
      λ h. ground (arith, (e n).1 h.0, ih.1 h.1),
    )

-- The two requests agree on a header field: the field is missing in both, or its lines, joined by
-- commas, are the same text in both.
abbrev pub Agree : Header → Header → String → Type 0
Agree req req' name = relevant req name ≡ relevant req' name

has-nil : (name : String) → has [] name ≡ false
unfolding has find
has-nil name = refl

match-names :
    (req req' : Header) (names : List String)
    → match_vary_headers req' (extract_from req names [])
      ≡ (not (any is_star names) && all (λ n. same_values (relevant req' n) (relevant req n)) names)
match-names req req' names = ground (
  arith,
  match_vary_headers-step req' (extract_from req names []),
  has-extract_from req names [],
  all-extract_from req (λ n vs. same_values (relevant req' n) vs) names [] tt,
  has-nil "*",
)

-- What a request leaves with the response that answers it matches a request exactly if the Vary
-- header has no "*" and the two requests agree on each field that it names.
pub match-extract :
    (req req' resp : Header)
    → (match_vary_headers req' (extract_vary_headers req resp) ≡ true) ↔ (
        (any (λ name. name == "*") (get_vary_header_names resp) ≡ false)
        × All (Agree req' req) (get_vary_header_names resp))
unfolding extract_vary_headers
match-extract req req' resp =
    let names = get_vary_header_names resp in
    let each =
      all_iff (λ n. same_values (relevant req' n) (relevant req n)) (Agree req' req)
        (same_relevant req req') names in
    (
      λ h. (
        ground (arith, match-names req req' names),
        each.0 (ground (arith, match-names req req' names)),
      ),
      λ h. ground (arith, match-names req req' names, each.1 h.1),
    )
