-- ===== src/Registries/Galaxy/Returned.antt =====
-- A download URL that was rewritten leads back to the file.
use locaccel.Prelude.{
  Char, code, String, List, [], ◌∷◌, ◌++◌, some, true, false, eqb, eqb_iff, ◌≡◌, ◌≢◌, ◌⊎◌, refl,
  sym, ap, ◌∙◌, arith, Bool-cases, Option-cases, inl, inr,
}
use mathlib.Core.Path.{subst}
use locaccel.Prelude.Panic.{returns}
use locaccel.Prelude.Text.{◌<+>◌, cut_prefix, split_seq}
use locaccel.Prelude.Text.Prefix.{cut_prefix-append}
use locaccel.Prelude.Text.Split.{split_seq-ne-nil}
use locaccel.Http.Mux.{
  Segment, lit, wild, multi, Pattern, ServerRequest, request_uri, without_slash, fits, parts,
  accepts, allows, narrower, more_specific, dispatch,
}
use locaccel.Client.{Url}
use locaccel.Registries.{Call, forwards, Handler, Json, fallback}
use locaccel.Registries.Galaxy.{CollectionVersion, rewritten_url, register_handler}

fits_all :
    (unescape : String → String) (ps : List String) → ps ≢ [] → fits unescape (multi ∷ []) ps ≡ true
unfolding fits
fits_all unescape [] h = absurd (h refl)
fits_all unescape (p ∷ ps) h = refl

allows_any : (method : String) → allows "" method ≡ true
unfolding allows
allows_any method = refl

allows_get : (method : String) → (method ≡ "GET") ⊎ (method ≡ "HEAD") → allows "GET" method ≡ true
unfolding allows
allows_get method (inl e) = rw e refl
allows_get method (inr e) = rw e refl

module _ {B : Type 0} (json : Json B CollectionVersion) (unescape : String → String)
    (galaxy_server : String) (caches : List Url) where
  abbrev server_routes : List (Pattern × Handler B)
  server_routes = register_handler json galaxy_server caches ++ fallback ∷ []

  -- The request is forwarded to the URL, by way of the upstream caches.
  abbrev pub LeadsTo : ServerRequest → String → Type 0
  LeadsTo r url =
      (route : Pattern × Handler B) × (c : Call B) × (dispatch unescape server_routes r
        ≡ some route)
      × (route.1 r ≡ returns (forwards c))
      × (c.upstream ≡ url)
      × (c.caches ≡ record { uris = caches; proxy = false })

  accepts_rest :
      (r : ServerRequest) (method : String)
      → allows method r.method ≡ true
      → accepts unescape (record { method = method; segments = multi ∷ [] }) r ≡ true
  unfolding accepts parts
  accepts_rest r method h =
      rw (h, fits_all unescape (split_seq b'/' (without_slash r.path)) (split_seq-ne-nil "/" _))
        refl

  abbrev version_segments : List Segment
  version_segments =
      lit "api" ∷ lit "v3" ∷ lit "collections" ∷ wild ∷ wild ∷ lit "versions" ∷ wild ∷ multi ∷ []

  get-LeadsTo :
      (r : ServerRequest)
      → allows "GET" r.method ≡ true
      → LeadsTo r (galaxy_server <+> request_uri r)
  unfolding dispatch register_handler more_specific narrower
  get-LeadsTo r get =
      elim (Bool-cases
        (accepts unescape (record { method = "GET"; segments = version_segments }) r)) [
          | inl e ↦
              rw (e, accepts_rest r "GET" get, accepts_rest r "" (allows_any r.method))
                (_, _, refl, refl, refl, refl)
          | inr e ↦
              rw (e, accepts_rest r "GET" get, accepts_rest r "" (allows_any r.method))
                (_, _, refl, refl, refl, refl)
        ]

  -- The URL of a collection version, from the server or, as a path alone, from another such cache.
  abbrev pub IsMoved : String → String → Type 0
  IsMoved url new =
      (url ≡ galaxy_server <+> new)
      ⊎ ((url ≡ new) × (c : Char) × (rest : String) × (new ≡ String.◌∷◌ c rest) × (code c ≡ b'/'))

  cut_prefix-IsMoved :
      (url new after : String)
      → cut_prefix galaxy_server url ≡ some after
      → after ≡ new
      → IsMoved url new
  cut_prefix-IsMoved url new after e same =
      inl (cut_prefix-append galaxy_server url after e ∙ ap (λ t. galaxy_server <+> t) same)

  rewritten_url-IsMoved :
      (url new : String) → rewritten_url galaxy_server url ≡ returns (some new) → IsMoved url new
  unfolding rewritten_url
  rewritten_url-IsMoved String.[] new h = elim (Option-cases (cut_prefix galaxy_server "")) [
    | inr (after, e) ↦ cut_prefix-IsMoved "" new after e (ground (arith, e, h))
    | inl e ↦ absurd (ground (arith, e, h))
  ]
  rewritten_url-IsMoved (String.◌∷◌ c s) new h =
      elim (Option-cases (cut_prefix galaxy_server (String.◌∷◌ c s))) [
        | inr (after, e) ↦ cut_prefix-IsMoved (String.◌∷◌ c s) new after e (ground (arith, e, h))
        | inl e ↦ elim (Bool-cases (eqb (code c) b'/')) [
          | inl slash ↦
              let same : String.◌∷◌ c s ≡ new = ground (arith, e, slash, h) in
              inr (same, c, s, sym same, (eqb_iff _ _).0 slash)
          | inr other ↦ absurd (ground (arith, e, other, h))
        ]
      ]

  -- A collection's download URL that is rewritten without a panic or an error is what follows the
  -- server in it, or it is a path and stays as it is. A GET or HEAD of the new URL, as path and query,
  -- is taken by a route that forwards it to the server with the new URL behind it, which in the first
  -- case is the URL that was rewritten, by way of the upstream caches.
  pub rewritten_url-LeadsTo :
      (url new : String) (r : ServerRequest)
      → rewritten_url galaxy_server url ≡ returns (some new)
      → (r.method ≡ "GET") ⊎ (r.method ≡ "HEAD")
      → request_uri r ≡ new
      → (LeadsTo r url × (url ≡ galaxy_server <+> new))
        ⊎ (LeadsTo r (galaxy_server <+> url)
            × (url ≡ new)
            × (c : Char) × (rest : String) × (url ≡ String.◌∷◌ c rest)
            × (code c ≡ b'/'))
  rewritten_url-LeadsTo url new r h method e =
      let led = get-LeadsTo r (allows_get r.method method) in
      elim (rewritten_url-IsMoved url new h) [
        | inl cut ↦ inl (subst (LeadsTo r) (ap (λ t. galaxy_server <+> t) e ∙ sym cut) led, cut)
        | inr (same, c, rest, split, slash) ↦ inr (
          subst (λ t. LeadsTo r (galaxy_server <+> t)) (e ∙ sym same) led,
          same,
          c,
          rest,
          same ∙ split,
          slash,
        )
      ]
