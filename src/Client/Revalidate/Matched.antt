-- ===== src/Client/Revalidate/Matched.antt =====
-- Which stored response an answer 304 refreshes, and what is served of it.
use locaccel.Prelude.{
  ℕ, suc, ◌+◌, [], ◌∷◌, none, some, Bool, true, false, get_elem?, ◌==◌, eq_iff, if◌then◌else◌, ◌≡◌,
  ◌≢◌, ◌⊎◌, inl, inr, refl, arith, Bool-cases,
}
use locaccel.Prelude.Panic.{Run, returns, panics}
use locaccel.Prelude.Text.{is_empty}
use locaccel.Http.Headers.{Header, get}
use locaccel.Etag.{etags_match}
use locaccel.Client.{CachedResponse, CachedResponses}
use locaccel.Client.Revalidate.{
  Match, found_or, match_etag, match_last_modified, or_last_modified, run_map, find_match,
}

-- The stored response is one that the header of the answer is about: the header has an Etag, which
-- matches, or a Last-Modified, which is the same.
abbrev pub IsAbout : Header → CachedResponse → Type 0
IsAbout header cached =
    ((is_empty (get header "Etag") ≡ false)
      × (etags_match (get header "Etag") (get cached.headers "Etag") ≡ returns true))
    ⊎ ((is_empty (get header "Last-Modified") ≡ false)
        × (get header "Last-Modified" ≡ get cached.headers "Last-Modified"))

-- `m` is a place in `value`, counted from `start`, of a response that has `P`.
abbrev pub At : (CachedResponse → Type 0) → CachedResponses → ℕ → Match → Type 0
At P value start none = Unit
At P value start (some (idx, cached)) =
    (k : ℕ) × (idx ≡ start + k) × (get_elem? value k ≡ some cached) × P cached

abbrev pub RunAt : (CachedResponse → Type 0) → CachedResponses → ℕ → Run Match → Type 0
RunAt P value start panics = Unit
RunAt P value start (returns m) = At P value start m

At-cons :
    (P : CachedResponse → Type 0) (c : CachedResponse) (value : CachedResponses) (start : ℕ)
    (m : Match)
    → At P value (suc start) m
    → At P (c ∷ value) start m
At-cons P c value start none h = tt
At-cons P c value start (some (idx, cached)) (k, e, at, p) = (suc k, omega (arith, e), at, p)

RunAt-cons :
    (P : CachedResponse → Type 0) (c : CachedResponse) (value : CachedResponses) (start : ℕ)
    (r : Run Match)
    → RunAt P value (suc start) r
    → RunAt P (c ∷ value) start r
RunAt-cons P c value start panics h = tt
RunAt-cons P c value start (returns m) h = At-cons P c value start m h

module _ (P : CachedResponse → Type 0) (c : CachedResponse) (value : CachedResponses)
    (start : ℕ) where
  found_or-RunAt :
      (here : Run Bool) (rest : Run Match)
      → (here ≢ returns true) ⊎ P c
      → RunAt P value (suc start) rest
      → RunAt P (c ∷ value) start (found_or (some (start, c)) here rest)
  found_or-RunAt panics rest p h = tt
  found_or-RunAt (returns false) rest p h = RunAt-cons P c value start rest h
  found_or-RunAt (returns true) rest (inl ne) h = absurd (ne refl)
  found_or-RunAt (returns true) rest (inr p) h = (0, omega arith, refl, p)

  if-At :
      (b : Bool) (rest : Match)
      → (b ≡ false) ⊎ P c
      → At P value (suc start) rest
      → At P (c ∷ value) start (if b then some (start, c) else rest)
  if-At false rest p h = At-cons P c value start rest h
  if-At true rest (inl e) h = absurd (ground (arith, e))
  if-At true rest (inr p) h = (0, omega arith, refl, p)

Run-cases : (r : Run Bool) → (r ≢ returns true) ⊎ (r ≡ returns true)
Run-cases panics = inl (λ e. absurd (ground (arith, e)))
Run-cases (returns false) = inl (λ e. absurd (ground (arith, e)))
Run-cases (returns true) = inr refl

module _ (header : Header) where
  by_etag :
      is_empty (get header "Etag") ≡ false
      → (c : CachedResponse)
      → (etags_match (get header "Etag") (get c.headers "Etag") ≢ returns true) ⊎ IsAbout header c
  by_etag full c = elim (Run-cases (etags_match (get header "Etag") (get c.headers "Etag"))) [
    | inl ne ↦ inl ne
    | inr e ↦ inr (inl (full, e))
  ]

  by_last_modified :
      is_empty (get header "Last-Modified") ≡ false
      → (c : CachedResponse)
      → ((get header "Last-Modified" == get c.headers "Last-Modified") ≡ false) ⊎ IsAbout header c
  by_last_modified full c =
      elim (Bool-cases (get header "Last-Modified" == get c.headers "Last-Modified")) [
        | inr e ↦ inl e
        | inl e ↦ inr (inr (full, (eq_iff _ _).0 e))
      ]

  match_etag-RunAt :
      is_empty (get header "Etag") ≡ false
      → (value : CachedResponses) (start : ℕ)
      → RunAt (IsAbout header) value start (match_etag (get header "Etag") value start)
  unfolding match_etag
  match_etag-RunAt full [] start = tt
  match_etag-RunAt full (c ∷ value) start =
      found_or-RunAt (IsAbout header) c value start _ _ (by_etag full c)
        (match_etag-RunAt full value (suc start))

  match_last_modified-At :
      is_empty (get header "Last-Modified") ≡ false
      → (value : CachedResponses) (start : ℕ)
      → At
          (IsAbout header)
          value
          start
          (match_last_modified (get header "Last-Modified") value start)
  unfolding match_last_modified
  match_last_modified-At full [] start = tt
  match_last_modified-At full (c ∷ value) start =
      if-At (IsAbout header) c value start _ _ (by_last_modified full c)
        (match_last_modified-At full value (suc start))

  or_none-At :
      (b : Bool) (value : CachedResponses) (m : Match)
      → (b ≡ false → At (IsAbout header) value 0 m)
      → At (IsAbout header) value 0 (if b then none else m)
  or_none-At true value m h = tt
  or_none-At false value m h = h refl

  run_map-RunAt :
      (value : CachedResponses) (r : Run Match)
      → RunAt (IsAbout header) value 0 r
      → RunAt (IsAbout header) value 0 (run_map (or_last_modified header value) r)
  run_map-RunAt value panics h = tt
  run_map-RunAt value (returns (some m)) h = h
  run_map-RunAt value (returns none) h =
      or_none-At (is_empty (get header "Last-Modified")) value _
        (λ full. match_last_modified-At full value 0)

  or_none-RunAt :
      (b : Bool) (value : CachedResponses) (r : Run Match)
      → (b ≡ false → RunAt (IsAbout header) value 0 r)
      → RunAt (IsAbout header) value 0 (if b then returns none else r)
  or_none-RunAt true value r h = tt
  or_none-RunAt false value r h = h refl

  pub find_match-RunAt :
      (value : CachedResponses) → RunAt (IsAbout header) value 0 (find_match header value)
  unfolding find_match
  find_match-RunAt value =
      run_map-RunAt value _ (
        or_none-RunAt (is_empty (get header "Etag")) value _
          (λ full. match_etag-RunAt full value 0))
