-- ===== src/Registries/Pypi/Below.antt =====
-- Which route takes a request below the path of the CDN, and where it leads.
use text.Mathlib.TextLemmas.{cons-append, nil-append, append_assoc as text_append_assoc}
use mathlib.Core.Path.{subst}
use locaccel.Prelude.{
  String, List, [], ◌∷◌, ◌++◌, none, some, true, false, ◌≡◌, ◌≢◌, refl, sym, ap, ◌∙◌, arith,
}
use locaccel.Prelude.Panic.{returns}
use locaccel.Prelude.Text.{◌<+>◌, split_seq}
use locaccel.Prelude.Text.Split.{split_seq-ne-nil, split_seq-append, join-split_seq}
use locaccel.Http.Mux.{
  Segment, lit, multi, Pattern, ServerRequest, fits, path_value, parts, without_slash, accepts,
  allows, narrower, more_specific, dispatch,
}
use locaccel.Http.Mux.Paths.{
  is_plain, is_plain_char, ArePlain, split_seq-ArePlain, AreKept, fits-append, path_value-append,
}
use locaccel.Client.{Url}
use locaccel.Registries.{Call, forwards, Handler, Json, fallback}
use locaccel.Registries.Pypi.{PypiProject, Urls, cdn_segments, routes, cdn_route}

narrower_rest : (ss : List Segment) → narrower (multi ∷ []) ss ≡ false
unfolding narrower
narrower_rest [] = refl
narrower_rest (s ∷ ss) = refl

ArePlain-AreKept :
    (unescape : String → String)
    → ((t : String) → is_plain t ≡ true → unescape t ≡ t)
    → (ps : List String) → ArePlain ps
    → AreKept unescape ps
ArePlain-AreKept unescape keeps [] h = tt
ArePlain-AreKept unescape keeps (p ∷ ps) (e, h) = (keeps p e, ArePlain-AreKept unescape keeps ps h)

-- The parts of the path of the CDN, and of a path below it.
cdn_parts : (enc : String) → parts ("/cdn/" <+> enc) ≡ "cdn" ∷ split_seq b'/' enc
unfolding parts without_slash split_seq
cdn_parts enc =
    ap (split_seq b'/') (
      ap without_slash (cons-append "/" "cdn/" enc)
      ∙ text_append_assoc "cdn" "/" enc
      ∙ ap (λ t. "cdn" <+> t)
          (cons-append "/" "" enc ∙ ap (λ t. String.◌∷◌ "/" t) (nil-append enc)))
    ∙ split_seq-append "/" "cdn" enc

below_parts :
    (enc p : String)
    → parts (("/cdn/" <+> enc) <+> "/" <+> p) ≡ parts ("/cdn/" <+> enc) ++ split_seq b'/' p
unfolding parts without_slash
below_parts enc p =
    ap (split_seq b'/') (
      ap without_slash (
        ap (λ t. t <+> "/" <+> p) (cons-append "/" "cdn/" enc)
        ∙ cons-append "/" ("cdn/" <+> enc) ("/" <+> p))
      ∙ ap (λ t. ("cdn/" <+> enc) <+> t)
          (cons-append "/" "" p ∙ ap (λ t. String.◌∷◌ "/" t) (nil-append p)))
    ∙ split_seq-append "/" ("cdn/" <+> enc) p
    ∙ ap (λ t. split_seq b'/' (without_slash t) ++ split_seq b'/' p)
        (sym (cons-append "/" "cdn/" enc))

-- `url.PathUnescape` leaves a plain text alone; and base64 has no character that is escaped.
module _ {B : Type 0} (json : Json B PypiProject) (urls : Urls)
    (encode_to_string unescape : String → String)
    (keeps : (t : String) → is_plain t ≡ true → unescape t ≡ t) (cdn : String)
    (code_plain : is_plain (encode_to_string cdn) ≡ true) (upstream : String)
    (caches : List Url) where
  abbrev enc : String
  enc = encode_to_string cdn

  abbrev pub encoded : String
  encoded = "/cdn/" <+> enc

  abbrev server_routes : List (Pattern × Handler B)
  server_routes = routes json urls encode_to_string unescape upstream cdn caches ++ fallback ∷ []

  cdn_parts-ArePlain : ArePlain (parts encoded)
  unfolding is_plain is_plain_char
  cdn_parts-ArePlain =
      subst ArePlain (sym (cdn_parts enc)) (refl, split_seq-ArePlain b'/' enc code_plain)

  abbrev get_request : String → String → ServerRequest
  get_request host path = record { method = "GET"; host = host; path = path; raw_query = "" }

  -- A GET of the path is forwarded to the URL, whose body is not modified.
  abbrev pub LeadsTo : String → String → Type 0
  LeadsTo path url =
      (host : String)
      → (route : Pattern × Handler B) × (c : Call B) × (dispatch unescape server_routes
            (get_request host path)
          ≡ some route)
        × (route.1 (get_request host path) ≡ returns (forwards c))
        × (c.upstream ≡ url)
        × (c.modify ≡ none)

  accepts_simple :
      (r : ServerRequest) (qs : List String)
      → parts r.path ≡ parts encoded ++ qs
      → accepts unescape (record { method = "GET"; segments = lit "simple" ∷ multi ∷ [] }) r ≡ false
  unfolding accepts fits is_plain is_plain_char
  accepts_simple r qs e = rw (e, cdn_parts enc, keeps "cdn" refl) (ground arith)

  accepts_cdn :
      (r : ServerRequest) (qs : List String)
      → r.method ≡ "GET"
      → parts r.path ≡ parts encoded ++ qs
      → qs ≢ []
      → accepts unescape (record { method = "GET"; segments = cdn_segments encoded }) r ≡ true
  unfolding accepts allows
  accepts_cdn r qs m e ne =
      rw
        (
          m,
          e,
          fits-append unescape (parts encoded) qs
              (ArePlain-AreKept unescape keeps (parts encoded) cdn_parts-ArePlain) ne,
        )
        refl

  accepts_rest :
      (r : ServerRequest) (qs : List String)
      → parts r.path ≡ parts encoded ++ qs
      → accepts unescape (record { method = ""; segments = multi ∷ [] }) r ≡ true
  unfolding accepts allows fits
  accepts_rest r qs e = rw (e, cdn_parts enc) refl

  not-more_specific :
      (ss : List Segment)
      → more_specific
          (record { method = ""; segments = multi ∷ [] })
          (record { method = "GET"; segments = ss })
        ≡ false
  unfolding more_specific
  not-more_specific ss = rw (narrower_rest ss) (ground arith)

  -- Of the routes, the simple one does not fit, and of the others that of the CDN is taken.
  dispatch_cdn :
      (r : ServerRequest) (qs : List String)
      → r.method ≡ "GET"
      → parts r.path ≡ parts encoded ++ qs
      → qs ≢ []
      → dispatch unescape server_routes r
        ≡ some (cdn_route json urls encode_to_string unescape cdn caches)
  unfolding dispatch
  dispatch_cdn r qs m e ne =
      rw
        (
          accepts_simple r qs e,
          accepts_cdn r qs m e ne,
          accepts_rest r qs e,
          not-more_specific (cdn_segments encoded),
        )
        refl

  -- A GET below the CDN's path is forwarded to the CDN.
  pub cdn-LeadsTo : (p : String) → is_plain p ≡ true → LeadsTo (encoded <+> "/" <+> p) (cdn <+> p)
  cdn-LeadsTo p plain host =
      let r = get_request host (encoded <+> "/" <+> p) in
      let ne = split_seq-ne-nil "/" p in
      let e = below_parts enc p in
      (
        cdn_route json urls encode_to_string unescape cdn caches,
        _,
        dispatch_cdn r (split_seq b'/' p) refl e ne,
        refl,
        ap (λ t. cdn <+> t)
            (ap (path_value unescape (cdn_segments encoded)) e
              ∙ path_value-append unescape (parts encoded) (split_seq b'/' p) ne
              ∙ ap unescape (join-split_seq "/" p)
              ∙ keeps p plain),
        refl,
      )
