-- ===== src/Client/Select/Served.antt =====
-- `serveFromCache` against its meaning: the first stored response that may be served.
use locaccel.Prelude.{
  String, [], ◌∷◌, Option, none, some, Bool, true, false, if◌then◌else◌, keep_if, arith, ◌≡◌, refl,
  sym, ◌∙◌, inl, inr, ◌⊎◌,
}
use locaccel.Prelude.Int.{pos}
use locaccel.Http.{Time, HttpDates}
use locaccel.Caching.Vary.{match_vary_headers}
use locaccel.Client.{CachedResponse, CachedResponses, HttpRequest, Response}
use locaccel.Client.Select.{
  select_response_candidates, select_most_recent_candidates, directives_of, age_of, served,
  is_usable, serve_first, serve_from_cached_candidates, serve_from_cache,
}
use locaccel.Client.Select.Recent.{of_date, latest_date, select_most_recent_candidates_lem}

-- A predicate holds of some member.
abbrev pub Some : (CachedResponse → Type 0) → CachedResponses → Type 0
Some P [] = ⊥
Some P (c ∷ cs) = P c ⊎ Some P cs

Some-map :
    (P Q : CachedResponse → Type 0) (cs : CachedResponses)
    → ((c : CachedResponse) → P c → Q c)
    → Some P cs
    → Some Q cs
Some-map P Q [] f h = elim h [ ]
Some-map P Q (c ∷ cs) f (inl h) = inl (f c h)
Some-map P Q (c ∷ cs) f (inr h) = inr (Some-map P Q cs f h)

Some-if :
    (P : CachedResponse → Type 0) (b : Bool) (c : CachedResponse) (cs : CachedResponses)
    → Some P (if b then c ∷ cs else cs)
    → (P c × (b ≡ true)) ⊎ Some P cs
Some-if P true c cs (inl h) = inl (h, refl)
Some-if P true c cs (inr h) = inr h
Some-if P false c cs h = inr h

Some-keep_if :
    (P : CachedResponse → Type 0) (p : CachedResponse → Bool) (cs : CachedResponses)
    → Some P (keep_if p cs)
    → Some (λ c. P c × (p c ≡ true)) cs
Some-keep_if P p [] h = h
Some-keep_if P p (c ∷ cs) h = elim (Some-if P (p c) c (keep_if p cs) h) [
  | inl k ↦ inl k
  | inr k ↦ inr (Some-keep_if P p cs k)
]

module _ (dates : HttpDates) (now : Time) (has_file : String → Bool) (force_stale : Bool)
    (req : HttpRequest) where
  -- the stored responses that match the request and have the latest date of those
  abbrev pub latest_candidates : CachedResponses → CachedResponses
  latest_candidates value =
      let candidates = select_response_candidates req value in
      of_date dates (latest_date dates (pos 0) candidates) candidates

  abbrev pub first_served : CachedResponses → Option Response
  first_served [] = none
  first_served (c ∷ cs) = some (served dates now has_file force_stale c)

  serve_first_lem :
      (cs : CachedResponses)
      → serve_first dates now has_file force_stale cs
        ≡ first_served (keep_if (is_usable dates now has_file force_stale) cs)
  unfolding serve_first
  serve_first_lem [] = refl
  serve_first_lem (c ∷ cs) = ground (arith, serve_first_lem cs)

  from_candidates :
      (cs : CachedResponses)
      → (elim cs as (λ x. Option Response) [
        | [] ↦ none
        | c ∷ cs' ↦ serve_from_cached_candidates dates now has_file force_stale (c ∷ cs')
      ])
        ≡ first_served (
            keep_if
              (is_usable dates now has_file force_stale)
              (of_date dates (latest_date dates (pos 0) cs) cs))
  unfolding serve_from_cached_candidates
  from_candidates [] = refl
  from_candidates (c ∷ cs) =
      rw (sym (select_most_recent_candidates_lem dates (c ∷ cs)))
        (serve_first_lem (select_most_recent_candidates dates (c ∷ cs)))

  -- What is served is the first usable one of the stored responses that match the request and have
  -- the latest date of those; nothing if there is none.
  pub serve_from_cache_lem :
      (value : CachedResponses)
      → serve_from_cache dates now has_file force_stale req value
        ≡ first_served
            (keep_if (is_usable dates now has_file force_stale) (latest_candidates value))
  unfolding serve_from_cache
  serve_from_cache_lem value = from_candidates (select_response_candidates req value)

  first_served-Some :
      (cs : CachedResponses) (r : Response)
      → first_served cs ≡ some r
      → Some (λ c. r ≡ served dates now has_file force_stale c) cs
  first_served-Some [] r h = absurd (ground arith)
  first_served-Some (c ∷ cs) r h = inl (ground arith)

-- The stored response `c` is allowed to be served for the request without asking the upstream, and
-- `r` is what it is served as.
abbrev pub MayServe :
    HttpDates → Time → (String → Bool) → HttpRequest → Response → CachedResponse → Type 0
MayServe dates now has_file req r c =
    (match_vary_headers req.header c.vary_headers ≡ true)
    × ((age_of dates now has_file false c).1 ≡ true)
    × ((directives_of dates c).no_cache ≡ false)
    × ((directives_of dates c).must_revalidate ≡ false)
    × (has_file c.content_hash ≡ true)
    × (r ≡ served dates now has_file false c)

is_usable_fresh :
    (dates : HttpDates) (now : Time) (has_file : String → Bool) (c : CachedResponse)
    → is_usable dates now has_file false c ≡ true
    → ((age_of dates now has_file false c).1 ≡ true)
      × ((directives_of dates c).no_cache ≡ false)
      × ((directives_of dates c).must_revalidate ≡ false)
      × (has_file c.content_hash ≡ true)
unfolding is_usable
is_usable_fresh dates now has_file c h = ground (arith, h)

-- A response that is served from the cache, where stale ones are not asked for, is one of the
-- stored responses: one that matches the request's headers, is fresh, has neither `no-cache` nor
-- `must-revalidate`, and whose body is in the cache.
pub serve_from_cache-MayServe :
    (dates : HttpDates) (now : Time) (has_file : String → Bool) (req : HttpRequest)
    (value : CachedResponses) (r : Response)
    → serve_from_cache dates now has_file false req value ≡ some r
    → Some (MayServe dates now has_file req r) value
unfolding select_response_candidates
serve_from_cache-MayServe dates now has_file req value r h =
    let candidates = select_response_candidates req value in
    let usable =
      first_served-Some dates now has_file false req
        (keep_if (is_usable dates now has_file false)
          (latest_candidates dates now has_file false req value))
        r (sym (serve_from_cache_lem dates now has_file false req value) ∙ h) in
    Some-map _ (MayServe dates now has_file req r) value
      (λ c (((e, u), d), m).
        let (fresh, no_cache, must_revalidate, file) = is_usable_fresh dates now has_file c u in
        (m, fresh, no_cache, must_revalidate, file, e))
      (Some-keep_if _ _ value (Some-keep_if _ _ candidates (Some-keep_if _ _ _ usable)))
