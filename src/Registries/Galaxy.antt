-- ===== src/Registries/Galaxy.antt =====
-- internal/handlers/galaxy/galaxy.go
pub mod Returned
use locaccel.Prelude.{code, String, List, [], ◌∷◌, Option, none, some, false, eqb, if◌then◌else◌}
use locaccel.Prelude.Panic.{Run, returns, panics, ◌>>=◌}
use locaccel.Prelude.Text.{◌<+>◌, cut_prefix}
use locaccel.Http.Mux.{lit, wild, multi, ServerRequest, request_uri, Mux}
use locaccel.Client.{Url}
use locaccel.Handlers.{Incoming}
use locaccel.Registries.{Action, forwards, Handler, Json, get_route, if_type}

-- The fields that are only copied are kept as one text.
pub record CollectionVersion : Type 0 where
  pub download_url : String
  pub others : String

-- none is an error
unfoldable pub rewritten_url : String → String → Run (Option String)
unfolding cut_prefix
rewritten_url galaxy_server url = elim (cut_prefix galaxy_server url) [
  | some after ↦ returns (some after)
  | none ↦ elim url [
    | String.[] ↦ panics
    | String.◌∷◌ c s ↦ returns (if eqb (code c) b'/' then some (String.◌∷◌ c s) else none)
  ]
]

abbrev with_url : CollectionVersion → Option String → Option CollectionVersion
with_url version none = none
with_url version (some url) = some (record version { download_url = url })

module _ {B : Type 0} (json : Json B CollectionVersion) (galaxy_server : String) where
  abbrev pub encoded : Option CollectionVersion → Option B
  encoded none = none
  encoded (some version) = json.encode version

  unfoldable pub rewrite_collection_version_v3 : B → Run (Option B)
  unfolding rewritten_url
  rewrite_collection_version_v3 body = elim (json.decode body) [
    | none ↦ returns none
    | some version ↦
        rewritten_url galaxy_server version.download_url
        >>= (λ url. returns (encoded (with_url version url)))
  ]

  abbrev call : List Url → ServerRequest → Option (B → Incoming B → Run (Option B)) → Action B
  call upstream_caches r modify = forwards (record {
    upstream = galaxy_server <+> request_uri r;
    modify = modify;
    recovery = none;
    caches = record { uris = upstream_caches; proxy = false };
  })

  unfoldable pub register_handler : List Url → Mux (Handler B)
  unfolding rewrite_collection_version_v3 request_uri
  register_handler upstream_caches =
      get_route
        (lit "api"
          ∷ lit "v3"
          ∷ lit "collections"
          ∷ wild
          ∷ wild
          ∷ lit "versions"
          ∷ wild
          ∷ multi
          ∷ [])
        (λ r. returns (
          call upstream_caches r (some (if_type "application/json" rewrite_collection_version_v3))))
      ∷ get_route (multi ∷ []) (λ r. returns (call upstream_caches r none))
      ∷ []
