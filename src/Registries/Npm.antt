-- ===== src/Registries/Npm.antt =====
-- internal/handlers/npm/npm.go
pub mod Restored
use locaccel.Prelude.{
  ℕ, code, String, List, [], ◌∷◌, ◌++◌, map, Option, none, some, Bool, true, false, eqb, ◌==◌, ◌||◌,
  if◌then◌else◌,
}
use locaccel.Prelude.Panic.{Run, returns, panics, ◌>>=◌, ◌>>◌}
use locaccel.Prelude.Text.{◌<+>◌, cut_prefix, has_prefix, is_empty}
use locaccel.Http.Headers.{Header, set}
use locaccel.Http.Mux.{
  Segment, lit, wild, multi, Pattern, ServerRequest, request_uri, Mux, parts, path_value,
}
use locaccel.Client.{Url, UpstreamCache}
use locaccel.Handlers.{Incoming, Reply, ClientError}
use locaccel.Registries.{
  Call, Action, forwards, replies, Handler, Json, get_route, if_type, trim_slash, add_slash,
  slice_from,
}

-- The fields that are only copied are kept as one text.
pub record Version : Type 0 where
  pub tarball : String
  pub others : String

-- The versions are a map, and stand in the order in which it is walked.
pub record NpmProject : Type 0 where
  pub versions : List (String × Version)
  pub others : String

-- `strings.TrimPrefix`
unfoldable pub trim_prefix : String → String → String
unfolding cut_prefix
trim_prefix prefix s = elim (cut_prefix prefix s) [ none ↦ s | some rest ↦ rest ]

-- The first of the upstreams that the URL begins with, none if there is none.
unfoldable pub find_remote : List String → String → Option String
unfolding has_prefix
find_remote [] tarball = none
find_remote (upstream ∷ upstreams) tarball =
    let rest = find_remote upstreams tarball in
    if has_prefix upstream tarball then some upstream else rest

unfoldable pub rewrite_versions :
    String → String → List (String × Version) → List (String × Version)
unfolding trim_prefix
rewrite_versions here remote [] = []
rewrite_versions here remote ((name, version) ∷ versions) =
    (name, record version { tarball = here <+> trim_prefix remote version.tarball })
    ∷ rewrite_versions here remote versions

-- The first version tells where all of them come from; an empty upstream is read as none.
unfoldable pub rewritten_versions :
    String → List String → List (String × Version) → Option (List (String × Version))
unfolding find_remote rewrite_versions
rewritten_versions here upstreams [] = some []
rewritten_versions here upstreams ((name, version) ∷ versions) =
    elim (find_remote upstreams version.tarball) [
      | none ↦ none
      | some remote ↦
          if is_empty remote
          then none
          else some (rewrite_versions here remote ((name, version) ∷ versions))
    ]

abbrev with_versions : NpmProject → Option (List (String × Version)) → Option NpmProject
with_versions project none = none
with_versions project (some versions) = some (record project { versions = versions })

module _ {B : Type 0} (json : Json B NpmProject) (url_string : Url → String) where
  abbrev encoded : Option NpmProject → Option B
  encoded none = none
  encoded (some project) = json.encode project

  unfoldable pub rewrite_json : ServerRequest → String → String → List String → B → Run (Option B)
  unfolding rewritten_versions
  rewrite_json r upstream scheme upstream_caches body = elim (json.decode body) [
    | none ↦ returns none
    | some project ↦ returns (
        encoded (
          with_versions project (
            rewritten_versions (scheme <+> "://" <+> r.host) (upstream ∷ upstream_caches)
              project.versions)))
  ]

  abbrev pub call :
      String → List Url → ServerRequest → Option (B → Incoming B → Run (Option B)) → Action B
  call upstream upstream_caches r modify = forwards (record {
    upstream = upstream <+> request_uri r;
    modify = modify;
    recovery = none;
    caches = record { uris = upstream_caches; proxy = false };
  })

  abbrev pub routes : String → String → List Url → Mux (Handler B)
  routes upstream scheme upstream_caches =
      get_route (wild ∷ lit "-" ∷ wild ∷ []) (λ r. returns (call upstream upstream_caches r none))
      ∷ get_route (wild ∷ wild ∷ lit "-" ∷ wild ∷ [])
          (λ r. returns (call upstream upstream_caches r none))
      ∷ get_route (multi ∷ []) (λ r. returns (
          call upstream upstream_caches r (
            some (
              if_type "application/vnd.npm.install-v1+json"
                (rewrite_json r upstream scheme (map url_string upstream_caches))))))
      ∷ []

  unfoldable pub register_handler : String → String → List Url → Run (Mux (Handler B))
  unfolding trim_slash rewrite_json request_uri
  register_handler upstream scheme upstream_caches =
      trim_slash upstream >>= (λ upstream'. returns (routes upstream' scheme upstream_caches))
