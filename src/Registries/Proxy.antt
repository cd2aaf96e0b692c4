-- ===== src/Registries/Proxy.antt =====
-- internal/handlers/proxy/proxy.go
use locaccel.Prelude.{String, List, [], ◌∷◌, none, Bool, true, false, ◌==◌, ◌||◌, if◌then◌else◌}
use locaccel.Prelude.Panic.{returns}
use locaccel.Http.Mux.{multi, ServerRequest, Mux}
use locaccel.Client.{Url}
use locaccel.Registries.{Action, forwards, replies, Handler, get_route}

abbrev pub contains : List String → String → Bool
contains [] host = false
contains (name ∷ names) host = name == host || contains names host

module _ {B : Type 0} where
  -- `url_string` is `r.URL.String()`, of the URL as it came: an absolute one.
  abbrev pub action : (ServerRequest → String) → List String → List Url → ServerRequest → Action B
  action url_string allowed_hostnames upstream_caches r =
      if contains allowed_hostnames r.host
      then forwards (record {
        upstream = url_string r;
        modify = none;
        recovery = none;
        caches = record { uris = upstream_caches; proxy = true };
      })
      else replies 403

  unfoldable pub register_handler :
      (ServerRequest → String) → List String → List Url → Mux (Handler B)
  register_handler url_string allowed_hostnames upstream_caches =
      get_route (multi ∷ []) (λ r. returns (action url_string allowed_hostnames upstream_caches r))
      ∷ []
