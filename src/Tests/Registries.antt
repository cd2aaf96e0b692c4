-- ===== src/Tests/Registries.antt =====
-- Documents of the registries, with URLs that are told apart by the CDN alone.
use text.Mathlib.TextLemmas.{cons-append, nil-append}
use locaccel.Prelude.{
  Char, code, ◌⊎◌, inl, String, List, [], ◌∷◌, Option, none, some, true, false, any, ◌==◌, ◌≡◌,
  refl, ap, arith,
}
use locaccel.Prelude.Text.{◌<+>◌, is_empty, cut_prefix, has_prefix}
use locaccel.Http.Mux.Paths.{is_plain, is_plain_char}
use locaccel.Client.{Url}
use locaccel.Registries.{Json}
use locaccel.Http.Mux.{ServerRequest, request_uri}
use locaccel.Registries.Galaxy.{CollectionVersion, rewritten_url}
use locaccel.Registries.Galaxy.Returned.{LeadsTo, rewritten_url-LeadsTo}
use locaccel.Registries.Npm.{
  Version, trim_prefix, find_remote, rewrite_versions, rewritten_versions,
}
use locaccel.Registries.Npm.Restored.{AreMoved, rewritten_versions-AreMoved}
use locaccel.Registries.Pypi.{File, PypiProject, Urls, rewrite_files, rewritten_files}
use locaccel.Registries.Pypi.Returned.{AreReturned, rewritten_files-AreReturned}

abbrev lodash : Version
lodash = record { tarball = "https://npm/lodash/-/a.tgz"; others = "1" }

abbrev elsewhere : Version
elsewhere = record { tarball = "https://other/a.tgz"; others = "2" }

abbrev rewritten : List (String × Version)
rewritten =
    ("1.0", record lodash { tarball = "http://here/lodash/-/a.tgz" })
    ∷ ("2.0", record elsewhere { tarball = "http://herehttps://other/a.tgz" })
    ∷ []

rewritten_versions-AreMoved_example :
    (remote : String) × (any (λ u. u == remote) ("https://npm" ∷ []) ≡ true)
    × (has_prefix remote lodash.tarball ≡ true)
    × (is_empty remote ≡ false)
    × AreMoved "http://here" remote (("1.0", lodash) ∷ ("2.0", elsewhere) ∷ []) rewritten
unfolding rewritten_versions find_remote rewrite_versions trim_prefix has_prefix cut_prefix
rewritten_versions-AreMoved_example =
    rewritten_versions-AreMoved "http://here" ("https://npm" ∷ []) "1.0" lodash
      (("2.0", elsewhere) ∷ []) rewritten refl

abbrev cdn : String
cdn = "https://cdn/"

abbrev of_path : Option String → Option Url
of_path none = none
of_path (some path) =
    some (record { scheme = "https"; host = "cdn"; path = "/" <+> path; rest = "" })

abbrev urls : Urls
urls = record { parse = λ s. of_path (cut_prefix cdn s); to_string = λ u. u.path }

abbrev no_json : Json String PypiProject
no_json = record { decode = λ b. none; encode = λ d. none }

cut_prefix_self : (p s : String) → cut_prefix p (p <+> s) ≡ some s
unfolding cut_prefix
cut_prefix_self String.[] s = ap some (nil-append s)
cut_prefix_self (String.◌∷◌ c p) s = rw cons-append (ground (arith, cut_prefix_self p s))

abbrev wheel : File
wheel = record { url = "https://cdn/packages/a-1.whl"; others = "1" }

abbrev pointed_wheel : File
pointed_wheel = record wheel { url = "/cdn/aGk=/packages/a-1.whl" }

code_plain : is_plain "aGk=" ≡ true
unfolding is_plain is_plain_char
code_plain = refl

rewritten_files-AreReturned_example :
    AreReturned no_json urls
      (λ s. "aGk=")
      (λ s. s)
      (λ t h. refl)
      cdn
      code_plain
      "https://pypi"
      []
      (wheel ∷ [])
      (pointed_wheel ∷ [])
unfolding rewritten_files rewrite_files has_prefix cut_prefix is_plain is_plain_char
rewritten_files-AreReturned_example =
    rewritten_files-AreReturned no_json urls (λ s. "aGk=") (λ s. s) (λ t h. refl) cdn code_plain
      "https://pypi" [] "https" "cdn" (λ p h. ap of_path (cut_prefix_self cdn p)) (λ q h. refl)
      wheel [] (pointed_wheel ∷ []) refl refl

abbrev no_version : Json String CollectionVersion
no_version = record { decode = λ b. none; encode = λ d. none }

abbrev download : ServerRequest
download = record { method = "GET"; host = "here"; path = "/download/a.tar.gz"; raw_query = "" }

abbrev published : String
published = "https://g/download/a.tar.gz"

abbrev moved_to : String
moved_to = "/download/a.tar.gz"

rewritten_url-LeadsTo_example :
    (LeadsTo no_version (λ t. t) "https://g" [] download published
      × (published ≡ "https://g" <+> moved_to))
    ⊎ (LeadsTo no_version (λ t. t) "https://g" [] download ("https://g" <+> published)
        × (published ≡ moved_to)
        × (c : Char) × (rest : String) × (published ≡ String.◌∷◌ c rest)
        × (code c ≡ b'/'))
unfolding rewritten_url cut_prefix request_uri
rewritten_url-LeadsTo_example =
    rewritten_url-LeadsTo no_version (λ t. t) "https://g" [] published moved_to download refl
      (inl refl) refl
