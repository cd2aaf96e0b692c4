-- ===== src/Server/Setup/Confined.antt =====
-- Where a server sends requests.
use locaccel.Prelude.{
  String, List, map, false, [], ◌∷◌, ◌++◌, Option, none, some, Bool, true, ◌≡◌, Bool-cases, inl,
  inr, ◌⊎◌, All, All-append,
}
use locaccel.Prelude.Panic.{Run, returns, panics}
use locaccel.Prelude.Text.{◌<+>◌}
use locaccel.Http.Mux.{
  Pattern, ServerRequest, Mux, dispatch, accepts, better, more_specific, request_uri,
}
use locaccel.Client.{Url}
use locaccel.Config.{
  AnsibleGalaxy, GoProxy, NpmRegistry, OciRegistry, PypiRegistry, ProxyConf, RubyGemRegistry,
  Config,
}
use locaccel.Registries.Proxy.{contains}
use locaccel.Registries.{
  Handler, Action, forwards, replies, page, fallback, not_implemented, ends_with_slash,
}
use locaccel.Server.Setup.{Standard, ServerInfo, create_server, serve, taken}
use locaccel.Prelude.Within.{Some}

-- The URL begins with the base, with or without a slash at its end; what follows is the request's
-- path and query, or comes behind a slash.
abbrev pub Based : ServerRequest → String → String → Type 0
Based r base url =
    (b : String) × (rest : String) × ((b ≡ base) ⊎ (b <+> "/" ≡ base) ⊎ (b ≡ base <+> "/"))
    × ((rest ≡ request_uri r) ⊎ (ends_with_slash b ≡ returns true))
    × (url ≡ b <+> rest)

-- The same URLs, with more behind their path.
abbrev pub behind : String → List Url → List Url
behind suffix us = map (λ (u : Url). record u { path = u.path <+> suffix }) us

module _ (conf : Config) where
  -- The upstreams, checksum databases and CDNs of the configuration, each with the upstream caches of
  -- its entry: a checksum database has none, and for a CDN, something follows their path.
  abbrev pub Configured : String → List Url → Type 0
  Configured base uris =
      Some (λ (g : AnsibleGalaxy). (g.upstream ≡ base) × (uris ≡ g.upstream_caches))
        conf.ansible_galaxies
      ⊎ Some
          (λ (p : GoProxy).
            ((p.upstream ≡ base) × (uris ≡ p.upstream_caches))
            ⊎ ((p.sum_db_url ≡ base) × (uris ≡ [])))
          conf.go_proxies
      ⊎ Some (λ (r : OciRegistry). (r.upstream ≡ base) × (uris ≡ r.upstream_caches))
          conf.oci_registries
      ⊎ Some
          (λ (r : PypiRegistry).
            ((r.upstream ≡ base) × (uris ≡ r.upstream_caches))
            ⊎ ((r.cdn ≡ base) × (suffix : String) × (uris ≡ behind suffix r.upstream_caches)))
          conf.pypi_registries
      ⊎ Some (λ (r : NpmRegistry). (r.upstream ≡ base) × (uris ≡ r.upstream_caches))
          conf.npm_registries
      ⊎ Some (λ (r : RubyGemRegistry). (r.upstream ≡ base) × (uris ≡ r.upstream_caches))
          conf.ruby_gem_registries

  -- A proxy allows the host, and has these upstream caches.
  abbrev pub AllowedHost : String → List Url → Type 0
  AllowedHost host uris =
      Some
        (λ (p : ProxyConf). (contains p.allowed_upstreams host ≡ true) × (uris ≡ p.upstream_caches))
        conf.proxies

  module _ {B : Type 0} (std : Standard B) where
    abbrev pub IsConfined : ServerRequest → Run (Action B) → Type 0
    IsConfined r panics = Unit
    IsConfined r (returns (replies n)) = Unit
    IsConfined r (returns (page p)) = Unit
    IsConfined r (returns (forwards c)) =
        ((base : String) × Configured base c.caches.uris
          × Based r base c.upstream
          × (c.caches.proxy ≡ false))
        ⊎ (AllowedHost r.host c.caches.uris
            × (c.upstream ≡ std.request_url r)
            × (c.caches.proxy ≡ true))

    abbrev pub AllConfined : Mux (Handler B) → Type 0
    AllConfined =
        All (λ (route : Pattern × Handler B). (r : ServerRequest) → IsConfined r (route.1 r))

    better-Confined :
        (r : ServerRequest) (route : Pattern × Handler B) (o : Option (Pattern × Handler B))
        → IsConfined r (route.1 r)
        → IsConfined r (taken std o r)
        → IsConfined r ((better route o).1 r)
    better-Confined r route none h k = h
    better-Confined r route (some other) h k = elim (Bool-cases (more_specific other.0 route.0)) [
      | inl e ↦ rw e k
      | inr e ↦ rw e h
    ]

    taken-Confined :
        (mux : Mux (Handler B)) (r : ServerRequest)
        → AllConfined mux
        → IsConfined r (taken std (dispatch std.unescape mux r) r)
    unfolding dispatch
    taken-Confined [] r h = tt
    taken-Confined ((p, handler) ∷ mux) r (h, k) = elim (Bool-cases (accepts std.unescape p r)) [
      | inl e ↦ rw e (
          better-Confined r (p, handler) (dispatch std.unescape mux r) (h r)
            (taken-Confined mux r k))
      | inr e ↦ rw e (taken-Confined mux r k)
    ]

    -- What is set up sends requests to configured places alone.
    abbrev pub SetUpConfined : Run (ServerInfo B) → Type 0
    SetUpConfined panics = Unit
    SetUpConfined (returns s) = (r : ServerRequest) → IsConfined r (serve std s r)

    pub create-Confined :
        (address name : String) (mux : Mux (Handler B)) (counted : Bool)
        → AllConfined mux
        → SetUpConfined (returns (create_server address mux name conf counted))
    unfolding create_server serve not_implemented
    create-Confined address name mux counted h r =
        taken-Confined (mux ++ fallback ∷ []) r (All-append _ mux (fallback ∷ []) h ((λ q. tt), tt))
