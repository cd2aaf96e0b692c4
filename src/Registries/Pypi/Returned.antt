-- ===== src/Registries/Pypi/Returned.antt =====
-- A file's URL that was rewritten leads back to the file.
use text.Mathlib.TextLemmas.{append_assoc as text_append_assoc}
use mathlib.Core.Path.{subst}
use locaccel.Prelude.{
  String, List, [], ◌∷◌, Option, none, some, Bool, true, false, ◌≡◌, ◌⊎◌, refl, sym, ap, ◌∙◌, arith,
  Bool-cases, inl, inr,
}
use locaccel.Prelude.Text.{◌<+>◌, has_prefix}
use locaccel.Prelude.Text.Prefix.{cut_prefix-append, has_prefix-some}
use locaccel.Http.Mux.Paths.{is_plain, is_plain_char, is_plain-append}
use locaccel.Client.{Url}
use locaccel.Registries.{Json}
use locaccel.Registries.Pypi.{
  File, PypiProject, Urls, pointed, replaced, rewrite_files, rewritten_files, cdn_path,
}
use locaccel.Registries.Pypi.Below.{encoded, LeadsTo, cdn-LeadsTo}

-- `url.PathUnescape` leaves a plain text alone; and base64 has no character that is escaped.
module _ {B : Type 0} (json : Json B PypiProject) (urls : Urls)
    (encode_to_string unescape : String → String)
    (keeps : (t : String) → is_plain t ≡ true → unescape t ≡ t) (cdn : String)
    (code_plain : is_plain (encode_to_string cdn) ≡ true) (upstream : String)
    (caches : List Url) where
  abbrev led_here : String
  led_here = encoded json urls encode_to_string unescape keeps cdn code_plain upstream caches

  abbrev Leads : String → String → Type 0
  Leads = LeadsTo json urls encode_to_string unescape keeps cdn code_plain upstream caches

  -- The files with all else as it was; of a file whose name behind the CDN is plain, a GET of the new
  -- URL is forwarded to the old one.
  abbrev pub AreReturned : List File → List File → Type 0
  AreReturned [] [] = Unit
  AreReturned [] (g ∷ gs) = ⊥
  AreReturned (f ∷ fs) [] = ⊥
  AreReturned (f ∷ fs) (g ∷ gs) =
      (g.others ≡ f.others)
      × ((p : String) × (f.url ≡ cdn <+> p) × ((is_plain p ≡ false) ⊎ Leads g.url f.url))
      × AreReturned fs gs

  -- The CDN has a scheme and a host, and no path but the slash: this is how its URLs are parsed, and
  -- how a path alone is printed.
  module _ (scheme host : String)
      (parses : (p : String)
        → is_plain p ≡ true
        → urls.parse (cdn <+> p)
          ≡ some (record { scheme = scheme; host = host; path = "/" <+> p; rest = "" }))
      (prints : (q : String)
        → is_plain q ≡ true
        → urls.to_string (record { scheme = ""; host = ""; path = "/" <+> q; rest = "" })
          ≡ "/" <+> q) where
    literals : (is_plain "cdn/" ≡ true) × (is_plain "/" ≡ true)
    unfolding is_plain is_plain_char
    literals = (refl, refl)

    pointed-cdn :
        (p url : String)
        → is_plain p ≡ true
        → pointed urls led_here (urls.parse (cdn <+> p)) ≡ some url
        → url ≡ led_here <+> "/" <+> p
    pointed-cdn p url plain e =
        let q = ("cdn/" <+> encode_to_string cdn) <+> "/" <+> p in
        let assoc : led_here <+> "/" <+> p ≡ "/" <+> q =
          ap (λ t. t <+> "/" <+> p) (text_append_assoc "/" "cdn/" (encode_to_string cdn))
          ∙ text_append_assoc "/" ("cdn/" <+> encode_to_string cdn) ("/" <+> p) in
        let q_plain : is_plain q ≡ true = ground (
          arith,
          is_plain-append ("cdn/" <+> encode_to_string cdn) ("/" <+> p),
          is_plain-append "cdn/" (encode_to_string cdn),
          is_plain-append "/" p,
          literals,
          code_plain,
          plain,
        ) in
        let printed : pointed urls led_here (urls.parse (cdn <+> p))
            ≡ some (led_here <+> "/" <+> p) =
          ap (pointed urls led_here) (parses p plain)
          ∙ ap (λ t. some (urls.to_string (record { scheme = ""; host = ""; path = t; rest = "" })))
              assoc
          ∙ ap some (prints q q_plain ∙ sym assoc) in
        ground (arith, e, printed)

    returned_url :
        (url new p : String)
        → url ≡ cdn <+> p
        → pointed urls led_here (urls.parse url) ≡ some new
        → (b : Bool) → is_plain p ≡ b
        → (is_plain p ≡ false) ⊎ Leads new url
    returned_url url new p e h false plain = inl plain
    returned_url url new p e h true plain = inr (
        subst (Leads new) (sym e) (
          subst (λ t. Leads t (cdn <+> p))
            (sym (
              pointed-cdn p new plain (ap (λ t. pointed urls led_here (urls.parse t)) (sym e) ∙ h)))
            (cdn-LeadsTo json urls encode_to_string unescape keeps cdn code_plain upstream caches p
              plain)))

    -- A file that is rewritten, with the results of the others and of its own.
    one-AreReturned :
        (f : File) (fs out : List File) (rest : Option (List File)) (new : Option String)
        → has_prefix cdn f.url ≡ true
        → pointed urls led_here (urls.parse f.url) ≡ new
        → ((gs : List File) → rest ≡ some gs → AreReturned fs gs)
        → replaced f rest new ≡ some out
        → AreReturned (f ∷ fs) out
    one-AreReturned f fs out none none h q k e = cc
    one-AreReturned f fs out (some gs) none h q k e = cc
    one-AreReturned f fs out none (some url) h q k e = cc
    one-AreReturned f fs out (some gs) (some url) h q k e =
        let (p, c) = has_prefix-some cdn f.url h in
        let split = cut_prefix-append cdn f.url p c in
        let r : record f { url = url } ∷ gs ≡ out = ground (arith, e) in
        subst (AreReturned (f ∷ fs)) r
          (refl, (p, split, returned_url f.url url p split q (is_plain p) refl), k gs refl)

    rewrite_files-AreReturned :
        (fs out : List File) → rewrite_files urls cdn led_here fs ≡ some out → AreReturned fs out
    unfolding rewrite_files
    rewrite_files-AreReturned [] out e =
        let r : [] ≡ out = ground (arith, e) in subst (AreReturned []) r tt
    rewrite_files-AreReturned (f ∷ fs) out e = elim (Bool-cases (has_prefix cdn f.url)) [
      | inl h ↦
          one-AreReturned f fs out _ _ h refl (λ gs r. rewrite_files-AreReturned fs gs r)
            (ground (arith, h, e))
      | inr h ↦ absurd (ground (arith, h, e))
    ]

    -- Of a document whose first file is of the CDN, which is rewritten, all else of a file is kept;
    -- and if the name of a file, which is what follows the CDN in its URL, is plain, then a GET of the
    -- new URL is taken by the route of the CDN, and forwarded to the URL that the file had, unmodified.
    -- The CDN is a scheme and a host, and its base64 is plain; URLs are assumed to be parsed, printed
    -- and unescaped as this says of plain texts.
    pub rewritten_files-AreReturned :
        (first : File) (files out : List File)
        → has_prefix cdn first.url ≡ true
        → rewritten_files urls cdn (cdn_path encode_to_string cdn) (first ∷ files) ≡ some out
        → AreReturned (first ∷ files) out
    unfolding rewritten_files
    rewritten_files-AreReturned first files out h e =
        rewrite_files-AreReturned (first ∷ files) out (ground (arith, h, e))
