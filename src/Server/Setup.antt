-- ===== src/Server/Setup.antt =====
-- `New`, and the set-up of each server.
pub mod Appended
pub mod Plan
pub mod Complete
pub mod Confined
pub mod Upstreams
pub mod Contacts
use locaccel.Prelude.{
  ℕ, ◌*◌, String, List, [], ◌∷◌, ◌++◌, Option, none, some, Bool, true, false, ◌&&◌, any, ◌==◌,
  if◌then◌else◌,
}
use locaccel.Prelude.Int.{ℤ, pos, ◌+ℤ◌, wrap64}
use locaccel.Prelude.Panic.{Run, returns, panics, ◌>>=◌}
use locaccel.Prelude.Text.{◌<+>◌, is_empty}
use locaccel.Prelude.Text.Decimal.{itoa}
use locaccel.Http.{Duration, second}
use locaccel.Http.Mux.{
  Segment, lit, wild, multi, Pattern, ServerRequest, Mux, dispatch, parts, path_value,
}
use locaccel.Client.{Url}
use locaccel.Config.{
  AnsibleGalaxy, GoProxy, NpmRegistry, OciRegistry, PypiRegistry, ProxyConf, RubyGemRegistry,
  Config,
}
use locaccel.Registries.{
  Handler, Action, replies, page, Page, profiling, metrics, static, healthcheck, index, hostname,
  remove, Json, get_route, fallback,
}
use locaccel.Registries.Galaxy
use locaccel.Registries.Goproxy
use locaccel.Registries.Npm
use locaccel.Registries.Oci
use locaccel.Registries.Proxy
use locaccel.Registries.Pypi
use locaccel.Registries.Rubygem
use locaccel.Registries.Galaxy.{CollectionVersion}
use locaccel.Registries.Npm.{NpmProject}
use locaccel.Registries.Pypi.{PypiProject, Urls}

-- What the handlers use of the standard library. `request_url` is `r.URL.String()`.
pub record Standard (B : Type 0) : Type 0 where
  pub galaxy_json : Json B CollectionVersion
  pub npm_json : Json B NpmProject
  pub pypi_json : Json B PypiProject
  pub urls : Urls
  pub encode_to_string : String → String
  pub unescape : String → String
  pub request_url : ServerRequest → String

-- An `http.Server` with its service's name; and whether its requests are counted in the statistics
-- that are saved.
pub record ServerInfo (B : Type 0) : Type 0 where
  pub address : String
  pub service_name : String
  pub mux : Mux (Handler B)
  pub read_timeout : Duration
  pub write_timeout : Duration
  pub counted : Bool

abbrev pub address_of : Config → ℕ → String
address_of conf port = conf.host <+> ":" <+> itoa port

module _ {B : Type 0} where
  unfoldable pub create_server : String → Mux (Handler B) → String → Config → Bool → ServerInfo B
  create_server address handler service_name conf counted = record {
    address = address;
    service_name = service_name;
    mux = handler ++ fallback ∷ [];
    read_timeout = pos (10 * second);
    write_timeout = wrap64 (conf.http_client.timeout +ℤ pos (10 * second));
    counted = counted;
  }

  -- newMetricsMiddleware: a second server of the same name registers the same metrics again, which
  -- panics. There is a registry exactly if the metrics are enabled.
  unfoldable pub new_metrics : Bool → List (ServerInfo B) → ServerInfo B → Run (ServerInfo B)
  new_metrics enabled servers server =
      if enabled && any (λ other. other.service_name == server.service_name) servers
      then panics
      else returns server

  -- A loop that appends a server for each entry.
  module _ {E : Type 0} (enabled : Bool) (setup : E → Run (ServerInfo B)) where
    unfoldable pub append_servers : List E → List (ServerInfo B) → Run (List (ServerInfo B))
    unfolding new_metrics
    append_servers [] servers = returns servers
    append_servers (e ∷ es) servers = setup e >>= (λ server.
        new_metrics enabled servers server >>= (λ s. append_servers es (servers ++ s ∷ [])))

module _ {B : Type 0} (std : Standard B) where
  unfoldable pub setup_galaxy : Config → AnsibleGalaxy → Run (ServerInfo B)
  unfolding create_server
  setup_galaxy conf galaxy = returns (
      create_server (address_of conf galaxy.port)
        (Galaxy.register_handler std.galaxy_json galaxy.upstream galaxy.upstream_caches)
        ("galaxy[" <+> galaxy.upstream <+> "]") conf true)

  unfoldable pub setup_go_proxy : Config → GoProxy → Run (ServerInfo B)
  unfolding create_server
  setup_go_proxy conf proxy =
      Goproxy.register_handler proxy.upstream proxy.sum_db_url proxy.upstream_caches >>= (λ handler.
        returns (
          create_server (address_of conf proxy.port) handler ("go[" <+> proxy.upstream <+> "]") conf
            true))

  unfoldable pub setup_oci_registry : Config → OciRegistry → Run (ServerInfo B)
  unfolding create_server
  setup_oci_registry conf registry = returns (
      create_server (address_of conf registry.port)
        (Oci.register_handler std.unescape registry.upstream registry.upstream_caches)
        ("oci[" <+> registry.upstream <+> "]") conf true)

  unfoldable pub setup_pypi_registry : Config → PypiRegistry → Run (ServerInfo B)
  unfolding create_server
  setup_pypi_registry conf registry =
      Pypi.register_handler std.pypi_json std.urls std.encode_to_string std.unescape
        registry.upstream registry.cdn registry.upstream_caches
      >>= (λ handler. returns (
          create_server (address_of conf registry.port) handler
            ("pypi[" <+> registry.upstream <+> "]") conf true))

  unfoldable pub setup_npm_registry : Config → NpmRegistry → Run (ServerInfo B)
  unfolding create_server
  setup_npm_registry conf registry =
      Npm.register_handler std.npm_json std.urls.to_string registry.upstream registry.scheme
        registry.upstream_caches
      >>= (λ handler. returns (
          create_server (address_of conf registry.port) handler
            ("npm[" <+> registry.upstream <+> "]") conf true))

  unfoldable pub setup_proxy : Config → ProxyConf → Run (ServerInfo B)
  unfolding create_server
  setup_proxy conf proxy = returns (
      create_server (address_of conf proxy.port)
        (Proxy.register_handler std.request_url proxy.allowed_upstreams proxy.upstream_caches)
        "proxy" conf true)

  unfoldable pub setup_ruby_gem_registry : Config → RubyGemRegistry → Run (ServerInfo B)
  unfolding create_server
  setup_ruby_gem_registry conf registry = returns (
      create_server (address_of conf registry.port)
        (Rubygem.register_handler registry.upstream registry.upstream_caches)
        ("rubygem[" <+> registry.upstream <+> "]") conf true)

  abbrev pub page_route : List Segment → (ServerRequest → Page) → Pattern × Handler B
  page_route segments shown = get_route segments (λ r. returns (page (shown r)))

  -- the last segment of the path, as `r.PathValue` reads it
  abbrev pub path_of : List Segment → ServerRequest → String
  path_of segments r = path_value std.unescape segments (parts r.path)

  -- The routes of admin.RegisterHandler, whose templates are sound.
  abbrev pub admin_routes : Mux (Handler B)
  admin_routes =
      page_route (lit "healthcheck" ∷ []) (λ r. healthcheck)
      ∷ page_route (lit "static" ∷ multi ∷ []) (λ r. static)
      ∷ page_route (lit "hostname" ∷ wild ∷ [])
          (λ r. hostname (path_of (lit "hostname" ∷ multi ∷ []) r))
      ∷ (
        record { method = "DELETE"; segments = lit "cache" ∷ wild ∷ [] },
        λ r. returns (page (remove (path_of (lit "cache" ∷ multi ∷ []) r))),
      )
      ∷ page_route (multi ∷ []) (λ r. index)
      ∷ []

  unfoldable pub setup_admin_interface : Config → Run (ServerInfo B)
  unfolding create_server path_value parts
  setup_admin_interface conf = returns (
      create_server conf.admin_interface
        ((if conf.enable_profiling
            then page_route (lit "-" ∷ lit "pprof" ∷ multi ∷ []) (λ r. profiling) ∷ []
            else [])
          ++ ((if conf.enable_metrics
                then page_route (lit "metrics" ∷ []) (λ r. metrics) ∷ []
                else [])
              ++ admin_routes))
        "admin" conf false)

  abbrev pub with_admin : Config → List (ServerInfo B) → Run (List (ServerInfo B))
  with_admin conf servers =
      if is_empty conf.admin_interface
      then returns servers
      else append_servers conf.enable_metrics setup_admin_interface (conf ∷ []) servers

  unfoldable pub new_servers : Config → Run (List (ServerInfo B))
  unfolding append_servers setup_galaxy setup_go_proxy setup_oci_registry setup_pypi_registry
      setup_npm_registry setup_proxy setup_ruby_gem_registry setup_admin_interface
  new_servers conf =
      let enabled = conf.enable_metrics in
      append_servers enabled (setup_galaxy conf) conf.ansible_galaxies [] >>= (λ s.
        append_servers enabled (setup_go_proxy conf) conf.go_proxies s >>= (λ s.
          append_servers enabled (setup_oci_registry conf) conf.oci_registries s >>= (λ s.
            append_servers enabled (setup_pypi_registry conf) conf.pypi_registries s >>= (λ s.
              append_servers enabled (setup_npm_registry conf) conf.npm_registries s >>= (λ s.
                append_servers enabled (setup_proxy conf) conf.proxies s >>= (λ s.
                  append_servers enabled (setup_ruby_gem_registry conf) conf.ruby_gem_registries s
                  >>= (λ s. with_admin conf s)))))))

  -- What a server does with a request; a request that no route takes gets a reply of the multiplexer.
  abbrev pub taken : Option (Pattern × Handler B) → ServerRequest → Run (Action B)
  taken none r = returns (replies 404)
  taken (some (p, handler)) r = handler r

  unfoldable pub serve : ServerInfo B → ServerRequest → Run (Action B)
  unfolding dispatch
  serve server r = taken (dispatch std.unescape server.mux r) r
