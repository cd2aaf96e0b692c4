-- ===== src/Registries/Rubygem.antt =====
-- internal/handlers/rubygem/rubygem.go
use locaccel.Prelude.{String, List, [], ◌∷◌, none, false}
use locaccel.Prelude.Panic.{returns}
use locaccel.Prelude.Text.{◌<+>◌}
use locaccel.Http.Mux.{multi, request_uri, Mux}
use locaccel.Client.{Url}
use locaccel.Registries.{forwards, Handler, get_route}

module _ {B : Type 0} where
  unfoldable pub register_handler : String → List Url → Mux (Handler B)
  unfolding request_uri
  register_handler registry upstream_caches =
      get_route (multi ∷ []) (λ r. returns (
        forwards (record {
          upstream = registry <+> request_uri r;
          modify = none;
          recovery = none;
          caches = record { uris = upstream_caches; proxy = false };
        })))
      ∷ []
