-- ===== src/Registries/Pypi.antt =====
-- internal/handlers/pypi/pypi.go
pub mod Below
pub mod Returned
use locaccel.Prelude.{
  ℕ, code, String, List, [], ◌∷◌, ◌++◌, map, Option, none, some, Bool, true, false, eqb, ◌==◌, ◌||◌,
  if◌then◌else◌,
}
use locaccel.Prelude.Panic.{Run, returns, panics, ◌>>=◌, ◌>>◌}
use locaccel.Prelude.Text.{◌<+>◌, cut_prefix, has_prefix, is_empty}
use locaccel.Http.Headers.{Header, set}
use locaccel.Http.Mux.{
  Segment, lit, wild, multi, Pattern, ServerRequest, request_uri, Mux, parts, path_value,
}
use locaccel.Client.{Url, UpstreamCache}
use locaccel.Handlers.{Incoming, Reply, ClientError}
use locaccel.Registries.{
  Call, Action, forwards, replies, Handler, Json, get_route, if_type, trim_slash, add_slash,
  slice_from,
}

-- The fields that are only copied are kept as one text.
pub record File : Type 0 where
  pub url : String
  pub others : String

pub record PypiProject : Type 0 where
  pub files : List File
  pub others : String

-- `url.Parse`, none for an error, and `URL.String`.
pub record Urls : Type 0 where
  pub parse : String → Option Url
  pub to_string : Url → String

abbrev pub replaced : File → Option (List File) → Option String → Option (List File)
replaced file rest none = none
replaced file none (some url) = none
replaced file (some files) (some url) = some (record file { url = url } ∷ files)

module _ (urls : Urls) where
  -- The URL that points here, with the path behind `prefix`.
  abbrev pub pointed : String → Option Url → Option String
  pointed prefix none = none
  pointed prefix (some uri) =
      some (urls.to_string (record uri { host = ""; scheme = ""; path = prefix <+> uri.path }))

  -- The files once the prefix is known that their URLs must have.
  unfoldable pub rewrite_files : String → String → List File → Option (List File)
  unfolding has_prefix
  rewrite_files expected_prefix prefix [] = some []
  rewrite_files expected_prefix prefix (file ∷ files) =
      let rest = rewrite_files expected_prefix prefix files in
      if has_prefix expected_prefix file.url
      then replaced file rest (pointed prefix (urls.parse file.url))
      else none

  -- The first file tells whether the document comes from the upstream or from another such cache,
  -- whose URLs stay as they are.
  unfoldable pub rewritten_files : String → String → List File → Option (List File)
  unfolding rewrite_files has_prefix
  rewritten_files expected_cdn encoded_cdn [] = some []
  rewritten_files expected_cdn encoded_cdn (file ∷ files) =
      if has_prefix expected_cdn file.url
      then rewrite_files expected_cdn encoded_cdn (file ∷ files)
      else if has_prefix encoded_cdn file.url
      then rewrite_files encoded_cdn "" (file ∷ files)
      else none

abbrev with_files : PypiProject → Option (List File) → Option PypiProject
with_files project none = none
with_files project (some files) = some (record project { files = files })

abbrev extend : String → Url → Url
extend suffix up = record up { path = up.path <+> suffix }

abbrev pub cdn_path : (String → String) → String → String
cdn_path encode_to_string expected_cdn = "/cdn/" <+> encode_to_string expected_cdn

abbrev pub cdn_segments : String → List Segment
cdn_segments encoded_cdn = map lit (parts encoded_cdn) ++ (multi ∷ [])

-- `base64.StdEncoding.EncodeToString`
module _ {B : Type 0} (json : Json B PypiProject) (urls : Urls) (encode_to_string : String → String)
    (unescape : String → String) where
  abbrev encoded : Option PypiProject → Option B
  encoded none = none
  encoded (some project) = json.encode project

  unfoldable pub rewrite_json_v1 : String → String → B → Run (Option B)
  unfolding rewritten_files
  rewrite_json_v1 expected_cdn encoded_cdn body = elim (json.decode body) [
    | none ↦ returns none
    | some project ↦
        returns (
          encoded
            (with_files project (rewritten_files urls expected_cdn encoded_cdn project.files)))
  ]

  abbrev call : String → Option (B → Incoming B → Run (Option B)) → List Url → Action B
  call upstream modify uris = forwards (record {
    upstream = upstream;
    modify = modify;
    recovery = none;
    caches = record { uris = uris; proxy = false };
  })

  abbrev pub simple_route : String → String → List Url → Pattern × Handler B
  simple_route upstream expected_cdn upstream_caches = get_route (lit "simple" ∷ multi ∷ []) (λ r.
      returns (
        call (upstream <+> request_uri r)
          (some (
            if_type "application/vnd.pypi.simple.v1+json"
              (rewrite_json_v1 expected_cdn (cdn_path encode_to_string expected_cdn))))
          upstream_caches))

  abbrev pub cdn_route : String → List Url → Pattern × Handler B
  cdn_route expected_cdn upstream_caches =
      let encoded_cdn = cdn_path encode_to_string expected_cdn in
      get_route (cdn_segments encoded_cdn) (λ r. returns (
        call (expected_cdn <+> path_value unescape (cdn_segments encoded_cdn) (parts r.path)) none
          (map (extend encoded_cdn) upstream_caches)))

  abbrev pub routes : String → String → List Url → Mux (Handler B)
  routes upstream expected_cdn upstream_caches =
      simple_route upstream expected_cdn upstream_caches
      ∷ cdn_route expected_cdn upstream_caches
      ∷ []

  unfoldable pub register_handler : String → String → List Url → Run (Mux (Handler B))
  unfolding trim_slash add_slash rewrite_json_v1 request_uri path_value parts
  register_handler upstream expected_cdn upstream_caches = trim_slash upstream >>= (λ upstream'.
      add_slash expected_cdn
      >>= (λ expected_cdn'. returns (routes upstream' expected_cdn' upstream_caches)))
