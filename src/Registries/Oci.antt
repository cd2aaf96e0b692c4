-- ===== src/Registries/Oci.antt =====
-- internal/handlers/oci/oci.go
use locaccel.Prelude.{String, List, [], ◌∷◌, Option, none, some, false, if◌then◌else◌}
use locaccel.Prelude.Panic.{returns}
use locaccel.Prelude.Text.{◌<+>◌, is_empty}
use locaccel.Http.Headers.{Header, set}
use locaccel.Http.Mux.{Segment, lit, multi, request_uri, Mux, parts, path_value}
use locaccel.Client.{Url}
use locaccel.Handlers.{Reply, ClientError}
use locaccel.Registries.{forwards, Handler, get_route}

abbrev pub path : List Segment
path = lit "v2" ∷ multi ∷ []

module _ {B : Type 0} where
  -- Whatever the error is, the registry is said to be there.
  unfoldable pub recovery : Header → ClientError → Option (Reply B)
  recovery writer err = some (record {
    status_code = 200;
    header =
        set
          (set (set writer "Docker-Distribution-API-Version" "registry/2.0") "Content-Type"
            "application/json")
          "Content-Length" "0";
    body = none;
  })

  unfoldable pub register_handler : (String → String) → String → List Url → Mux (Handler B)
  unfolding request_uri path_value parts recovery
  register_handler unescape registry upstream_caches =
      get_route path (λ r. returns (
        forwards (record {
          upstream = registry <+> request_uri r;
          modify = none;
          recovery =
              if is_empty (path_value unescape path (parts r.path)) then some recovery else none;
          caches = record { uris = upstream_caches; proxy = false };
        })))
      ∷ []
