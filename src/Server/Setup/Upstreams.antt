-- ===== src/Server/Setup/Upstreams.antt =====
-- Where the server of each kind sends requests.
use locaccel.Prelude.{
  String, List, [], ◌∷◌, ◌++◌, Bool, true, false, if◌then◌else◌, ◌≡◌, refl, Bool-cases, inl, inr,
  ◌⊎◌,
}
use locaccel.Prelude.Panic.{Run, returns, panics, ◌>>=◌}
use locaccel.Prelude.Text.{◌<+>◌}
use locaccel.Http.Mux.{Pattern, ServerRequest, Mux, request_uri}
use locaccel.Client.{Url}
use locaccel.Config.{
  AnsibleGalaxy, GoProxy, NpmRegistry, OciRegistry, PypiRegistry, ProxyConf, RubyGemRegistry,
  Config,
}
use locaccel.Registries.Galaxy
use locaccel.Registries.Goproxy
use locaccel.Registries.Npm
use locaccel.Registries.Oci
use locaccel.Registries.Proxy
use locaccel.Registries.Proxy.{contains}
use locaccel.Registries.Pypi
use locaccel.Registries.Rubygem
use locaccel.Registries.{Handler, ends_with_slash, trim_slash, add_slash, slice_from}
use locaccel.Server.Setup.{
  Standard, setup_galaxy, setup_go_proxy, setup_oci_registry, setup_pypi_registry,
  setup_npm_registry, setup_proxy, setup_ruby_gem_registry, setup_admin_interface, admin_routes,
}
use locaccel.Server.Setup.Confined.{
  behind, Based, Configured, AllowedHost, IsConfined, AllConfined, SetUpConfined, create-Confined,
}
use locaccel.Registries.Slashes.{Cut, add_slash-ends}

module _ (conf : Config) {B : Type 0} (std : Standard B) where
  -- A URL that is a configured place and a rest.
  sent :
      (r : ServerRequest) (base b rest : String) (uris : List Url)
      → Configured conf base uris
      → Cut (returns b) base
      → ((rest ≡ request_uri r) ⊎ (ends_with_slash b ≡ returns true))
      → (base : String) × Configured conf base uris × Based r base (b <+> rest) × (false ≡ false)
  unfolding Cut
  sent r base b rest uris h cut e = (base, h, (b, rest, cut, e, refl), refl)

  Cut-self : (base : String) → Cut (returns base) base
  unfolding Cut
  Cut-self base = inl refl

  pub galaxy-Confined :
      (g : AnsibleGalaxy)
      → Configured conf g.upstream g.upstream_caches
      → SetUpConfined conf std (setup_galaxy std conf g)
  unfolding setup_galaxy Galaxy.register_handler
  galaxy-Confined g h =
      create-Confined conf std _ _
        (Galaxy.register_handler std.galaxy_json g.upstream g.upstream_caches) true
        (
          λ r. inl (sent r g.upstream g.upstream (request_uri r) _ h (Cut-self _) (inl refl)),
          (λ r. inl (sent r g.upstream g.upstream (request_uri r) _ h (Cut-self _) (inl refl)), tt),
        )

  sumdb-Confined :
      (base b : String) (m : Run String) (r : ServerRequest)
      → Configured conf base []
      → Cut (returns b) base
      → ends_with_slash b ≡ returns true
      → IsConfined conf std r (m >>= (λ rest. returns (Goproxy.call (b <+> rest) [])))
  sumdb-Confined base b panics r h c ends = tt
  sumdb-Confined base b (returns rest) r h c ends = inl (sent r base b rest [] h c (inr ends))

  pub go_routes-Confined :
      (p : GoProxy) (m : Run String)
      → Configured conf p.upstream p.upstream_caches
      → Configured conf p.sum_db_url []
      → add_slash p.sum_db_url ≡ m
      → Cut m p.sum_db_url
      → SetUpConfined conf std (setup_go_proxy std conf p)
  unfolding setup_go_proxy Goproxy.register_handler
  go_routes-Confined p panics h k e c = rw e tt
  go_routes-Confined p (returns b) h k e c = rw e (
      create-Confined conf std _ _ (Goproxy.routes p.upstream b p.upstream_caches) true (
        λ r.
            sumdb-Confined p.sum_db_url b (slice_from 7 (request_uri r)) r k c
              (add_slash-ends p.sum_db_url b e),
        (λ r. inl (sent r p.upstream p.upstream (request_uri r) _ h (Cut-self _) (inl refl)), tt),
      ))

  pub oci_registry-Confined :
      (g : OciRegistry)
      → Configured conf g.upstream g.upstream_caches
      → SetUpConfined conf std (setup_oci_registry std conf g)
  unfolding setup_oci_registry Oci.register_handler
  oci_registry-Confined g h =
      create-Confined conf std _ _ (Oci.register_handler std.unescape g.upstream g.upstream_caches)
        true
        (λ r. inl (sent r g.upstream g.upstream (request_uri r) _ h (Cut-self _) (inl refl)), tt)

  pub pypi_routes-Confined :
      (g : PypiRegistry) (m n : Run String)
      → Configured conf g.upstream g.upstream_caches
      → ((suffix : String) → Configured conf g.cdn (behind suffix g.upstream_caches))
      → trim_slash g.upstream ≡ m
      → add_slash g.cdn ≡ n
      → Cut m g.upstream
      → Cut n g.cdn
      → SetUpConfined conf std (setup_pypi_registry std conf g)
  unfolding setup_pypi_registry Pypi.register_handler
  pypi_routes-Confined g panics n h k e f c d = rw e tt
  pypi_routes-Confined g (returns u) panics h k e f c d = rw (e, f) tt
  pypi_routes-Confined g (returns u) (returns v) h k e f c d =
      rw (e, f)
        (create-Confined conf std _ _
          (Pypi.routes std.pypi_json std.urls std.encode_to_string std.unescape u v
            g.upstream_caches)
          true
          (
            λ r. inl (sent r g.upstream u (request_uri r) _ h c (inl refl)),
            (λ r. inl (sent r g.cdn v _ _ (k _) d (inr (add_slash-ends g.cdn v f))), tt),
          ))

  pub npm_routes-Confined :
      (g : NpmRegistry) (m : Run String)
      → Configured conf g.upstream g.upstream_caches
      → trim_slash g.upstream ≡ m
      → Cut m g.upstream
      → SetUpConfined conf std (setup_npm_registry std conf g)
  unfolding setup_npm_registry Npm.register_handler
  npm_routes-Confined g panics h e c = rw e tt
  npm_routes-Confined g (returns u) h e c = rw e (
      create-Confined conf std _ _
        (Npm.routes std.npm_json std.urls.to_string u g.scheme g.upstream_caches) true
        (
          λ r. inl (sent r g.upstream u (request_uri r) _ h c (inl refl)),
          (
            λ r. inl (sent r g.upstream u (request_uri r) _ h c (inl refl)),
            (λ r. inl (sent r g.upstream u (request_uri r) _ h c (inl refl)), tt),
          ),
        ))

  pub ruby_gem_registry-Confined :
      (g : RubyGemRegistry)
      → Configured conf g.upstream g.upstream_caches
      → SetUpConfined conf std (setup_ruby_gem_registry std conf g)
  unfolding setup_ruby_gem_registry Rubygem.register_handler
  ruby_gem_registry-Confined g h =
      create-Confined conf std _ _ (Rubygem.register_handler g.upstream g.upstream_caches) true
        (λ r. inl (sent r g.upstream g.upstream (request_uri r) _ h (Cut-self _) (inl refl)), tt)

  proxy_action-Confined :
      (p : ProxyConf) (r : ServerRequest)
      → (AllowedHost conf r.host p.upstream_caches ⊎ (contains p.allowed_upstreams r.host ≡ false))
      → IsConfined conf std r
          (returns (Proxy.action std.request_url p.allowed_upstreams p.upstream_caches r))
  proxy_action-Confined p r (inr e) = rw e tt
  proxy_action-Confined p r (inl h) = elim (Bool-cases (contains p.allowed_upstreams r.host)) [
    | inl e ↦ rw e (inr (h, refl, refl))
    | inr e ↦ rw e tt
  ]

  pub proxy-Confined :
      (p : ProxyConf)
      → ((host : String)
          → AllowedHost conf host p.upstream_caches ⊎ (contains p.allowed_upstreams host ≡ false))
      → SetUpConfined conf std (setup_proxy std conf p)
  unfolding setup_proxy Proxy.register_handler
  proxy-Confined p h =
      create-Confined conf std _ _
        (Proxy.register_handler std.request_url p.allowed_upstreams p.upstream_caches) true
        (λ r. proxy_action-Confined p r (h r.host), tt)

  pages-Confined :
      (b : Bool) (route : Pattern × Handler B) (mux : Mux (Handler B))
      → ((r : ServerRequest) → IsConfined conf std r (route.1 r))
      → AllConfined conf std mux
      → AllConfined conf std ((if b then route ∷ [] else []) ++ mux)
  pages-Confined true route mux h k = (h, k)
  pages-Confined false route mux h k = k

  admin_routes-Confined : AllConfined conf std (admin_routes std)
  admin_routes-Confined = (λ r. tt, (λ r. tt, (λ r. tt, (λ r. tt, (λ r. tt, tt)))))

  pub admin-Confined : SetUpConfined conf std (setup_admin_interface std conf)
  unfolding setup_admin_interface
  admin-Confined = create-Confined conf std _ _ _ false (
      pages-Confined conf.enable_profiling _ _ (λ r. tt)
        (pages-Confined conf.enable_metrics _ _ (λ r. tt) admin_routes-Confined))
