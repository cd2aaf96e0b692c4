-- ===== src/Server/Setup/Contacts.antt =====
-- Where the servers that `New` sets up send requests.
use locaccel.Prelude.{
  String, List, [], ◌∷◌, ◌++◌, true, false, ◌&&◌, any, ◌==◌, ◌≡◌, refl, Bool-cases, inl, inr, ◌⊎◌,
  All, All-append,
}
use locaccel.Prelude.Panic.{Run, returns, panics, ◌>>=◌}
use locaccel.Prelude.Text.{is_empty}
use locaccel.Http.Mux.{ServerRequest}
use locaccel.Config.{ProxyConf, Config}
use locaccel.Registries.Proxy.{contains}
use locaccel.Server.Setup.{
  Standard, ServerInfo, setup_galaxy, setup_go_proxy, setup_oci_registry, setup_pypi_registry,
  setup_npm_registry, setup_proxy, setup_ruby_gem_registry, setup_admin_interface, new_metrics,
  append_servers, with_admin, new_servers, serve,
}
use locaccel.Server.Setup.Confined.{behind, AllowedHost, IsConfined, SetUpConfined}
use locaccel.Registries.Slashes.{trim_slash-Cut, add_slash-Cut}
use locaccel.Server.Setup.Upstreams.{
  galaxy-Confined, go_routes-Confined, oci_registry-Confined, pypi_routes-Confined,
  npm_routes-Confined, ruby_gem_registry-Confined, proxy-Confined, admin-Confined,
}
use locaccel.Server.Setup.Complete.{
  from_go_proxy, from_oci_registry, from_pypi_registry, from_npm_registry, from_proxy,
  from_ruby_gem_registry,
}
use locaccel.Prelude.Within.{Within, All-members}

module _ (conf : Config) {B : Type 0} (std : Standard B) where
  abbrev AreConfined : List (ServerInfo B) → Type 0
  AreConfined =
      All (λ (s : ServerInfo B). (r : ServerRequest) → IsConfined conf std r (serve std s r))

  abbrev pub RunConfined : Run (List (ServerInfo B)) → Type 0
  RunConfined panics = Unit
  RunConfined (returns servers) =
      All (λ (s : ServerInfo B). (r : ServerRequest) → IsConfined conf std r (serve std s r))
        servers

  bind-Confined :
      (m : Run (List (ServerInfo B))) (k : List (ServerInfo B) → Run (List (ServerInfo B)))
      → RunConfined m
      → ((s : List (ServerInfo B)) → AreConfined s → RunConfined (k s))
      → RunConfined (m >>= k)
  bind-Confined panics k h g = tt
  bind-Confined (returns s) k h g = g s h

  module _ {E : Type 0} (setup : E → Run (ServerInfo B)) where
    append_one :
        (es : List E) (servers : List (ServerInfo B)) (m : Run (ServerInfo B))
        → SetUpConfined conf std m
        → AreConfined servers
        → ((s : List (ServerInfo B))
            → AreConfined s
            → RunConfined (append_servers conf.enable_metrics setup es s))
        → RunConfined (
            m >>= (λ s.
              new_metrics conf.enable_metrics servers s
              >>= (λ s. append_servers conf.enable_metrics setup es (servers ++ s ∷ []))))
    unfolding new_metrics
    append_one es servers panics h k g = tt
    append_one es servers (returns s) h k g =
        elim (Bool-cases
          (conf.enable_metrics && any (λ other. other.service_name == s.service_name) servers)) [
            | inl e ↦ rw e tt
            | inr e ↦ rw e (g (servers ++ s ∷ []) (All-append _ servers (s ∷ []) k (h, tt)))
          ]

    append-Confined :
        (es : List E) (servers : List (ServerInfo B))
        → All (λ e. SetUpConfined conf std (setup e)) es
        → AreConfined servers
        → RunConfined (append_servers conf.enable_metrics setup es servers)
    unfolding append_servers
    append-Confined [] servers h k = k
    append-Confined (e ∷ es) servers (h, hs) k =
        append_one es servers (setup e) h k (λ s. append-Confined es s hs)

  allowed :
      (p : ProxyConf)
      → Within conf.proxies p
      → (host : String)
      → AllowedHost conf host p.upstream_caches ⊎ (contains p.allowed_upstreams host ≡ false)
  unfolding Within
  allowed p w host = elim (Bool-cases (contains p.allowed_upstreams host)) [
    | inl e ↦ inl (
        w
          (λ q.
            (contains q.allowed_upstreams host ≡ true) × (p.upstream_caches ≡ q.upstream_caches))
          (e, refl))
    | inr e ↦ inr e
  ]

  with_admin-Confined :
      (s : List (ServerInfo B)) → AreConfined s → RunConfined (with_admin std conf s)
  with_admin-Confined s h = elim (Bool-cases (is_empty conf.admin_interface)) [
    | inl e ↦ rw e h
    | inr e ↦
        rw e (
          append-Confined (setup_admin_interface std) (conf ∷ []) s (admin-Confined conf std, tt) h)
  ]

  from_ruby_gem_registry-Confined :
      (s : List (ServerInfo B)) → AreConfined s → RunConfined (from_ruby_gem_registry conf std s)
  unfolding Within
  from_ruby_gem_registry-Confined s h =
      bind-Confined
        (append_servers conf.enable_metrics (setup_ruby_gem_registry std conf)
          conf.ruby_gem_registries s)
        (with_admin std conf)
        (append-Confined (setup_ruby_gem_registry std conf) conf.ruby_gem_registries s
          (All-members (λ g. SetUpConfined conf std (setup_ruby_gem_registry std conf g))
            conf.ruby_gem_registries
            (λ g w. ruby_gem_registry-Confined conf std g (
              inr (
                inr (
                  inr (
                    inr (
                      inr (
                        w (λ h. (h.upstream ≡ g.upstream) × (g.upstream_caches ≡ h.upstream_caches))
                          (refl, refl)))))))))
          h)
        with_admin-Confined

  from_proxy-Confined :
      (s : List (ServerInfo B)) → AreConfined s → RunConfined (from_proxy conf std s)
  unfolding Within
  from_proxy-Confined s h =
      bind-Confined (append_servers conf.enable_metrics (setup_proxy std conf) conf.proxies s)
        (from_ruby_gem_registry conf std)
        (append-Confined (setup_proxy std conf) conf.proxies s
          (All-members (λ g. SetUpConfined conf std (setup_proxy std conf g)) conf.proxies
            (λ p w. proxy-Confined conf std p (λ host. allowed p w host)))
          h)
        from_ruby_gem_registry-Confined

  from_npm_registry-Confined :
      (s : List (ServerInfo B)) → AreConfined s → RunConfined (from_npm_registry conf std s)
  unfolding Within
  from_npm_registry-Confined s h =
      bind-Confined
        (append_servers conf.enable_metrics (setup_npm_registry std conf) conf.npm_registries s)
        (from_proxy conf std)
        (append-Confined (setup_npm_registry std conf) conf.npm_registries s
          (All-members (λ g. SetUpConfined conf std (setup_npm_registry std conf g))
            conf.npm_registries
            (λ g w.
              npm_routes-Confined conf std g _
                (inr (
                  inr (
                    inr (
                      inr (
                        inl (
                          w
                            (λ h.
                              (h.upstream ≡ g.upstream) × (g.upstream_caches ≡ h.upstream_caches))
                            (refl, refl)))))))
                refl (trim_slash-Cut g.upstream _ refl)))
          h)
        from_proxy-Confined

  from_pypi_registry-Confined :
      (s : List (ServerInfo B)) → AreConfined s → RunConfined (from_pypi_registry conf std s)
  unfolding Within
  from_pypi_registry-Confined s h =
      bind-Confined
        (append_servers conf.enable_metrics (setup_pypi_registry std conf) conf.pypi_registries s)
        (from_npm_registry conf std)
        (append-Confined (setup_pypi_registry std conf) conf.pypi_registries s
          (All-members (λ g. SetUpConfined conf std (setup_pypi_registry std conf g))
            conf.pypi_registries
            (λ g w.
              pypi_routes-Confined conf std g _ _
                (inr (
                  inr (
                    inr (
                      inl (
                        w
                          (λ h.
                            ((h.upstream ≡ g.upstream) × (g.upstream_caches ≡ h.upstream_caches))
                            ⊎ ((h.cdn ≡ g.upstream)
                                × (suffix : String) × (g.upstream_caches
                                    ≡ behind suffix h.upstream_caches)))
                          (inl (refl, refl)))))))
                (λ suffix. inr (
                  inr (
                    inr (
                      inl (
                        w
                          (λ h.
                            ((h.upstream ≡ g.cdn)
                              × (behind suffix g.upstream_caches ≡ h.upstream_caches))
                            ⊎ ((h.cdn ≡ g.cdn)
                                × (more : String) × (behind suffix g.upstream_caches
                                    ≡ behind more h.upstream_caches)))
                          (inr (refl, suffix, refl)))))))
                refl refl (trim_slash-Cut g.upstream _ refl) (add_slash-Cut g.cdn _ refl)))
          h)
        from_npm_registry-Confined

  from_oci_registry-Confined :
      (s : List (ServerInfo B)) → AreConfined s → RunConfined (from_oci_registry conf std s)
  unfolding Within
  from_oci_registry-Confined s h =
      bind-Confined
        (append_servers conf.enable_metrics (setup_oci_registry std conf) conf.oci_registries s)
        (from_pypi_registry conf std)
        (append-Confined (setup_oci_registry std conf) conf.oci_registries s
          (All-members (λ g. SetUpConfined conf std (setup_oci_registry std conf g))
            conf.oci_registries
            (λ g w. oci_registry-Confined conf std g (
              inr (
                inr (
                  inl (
                    w (λ h. (h.upstream ≡ g.upstream) × (g.upstream_caches ≡ h.upstream_caches))
                      (refl, refl)))))))
          h)
        from_pypi_registry-Confined

  from_go_proxy-Confined :
      (s : List (ServerInfo B)) → AreConfined s → RunConfined (from_go_proxy conf std s)
  unfolding Within
  from_go_proxy-Confined s h =
      bind-Confined (append_servers conf.enable_metrics (setup_go_proxy std conf) conf.go_proxies s)
        (from_oci_registry conf std)
        (append-Confined (setup_go_proxy std conf) conf.go_proxies s
          (All-members (λ g. SetUpConfined conf std (setup_go_proxy std conf g)) conf.go_proxies
            (λ g w.
              go_routes-Confined conf std g _
                (inr (
                  inl (
                    w
                      (λ h.
                        ((h.upstream ≡ g.upstream) × (g.upstream_caches ≡ h.upstream_caches))
                        ⊎ ((h.sum_db_url ≡ g.upstream) × (g.upstream_caches ≡ [])))
                      (inl (refl, refl)))))
                (inr (
                  inl (
                    w
                      (λ h.
                        ((h.upstream ≡ g.sum_db_url) × ([] ≡ h.upstream_caches))
                        ⊎ ((h.sum_db_url ≡ g.sum_db_url) × ([] ≡ [])))
                      (inr (refl, refl)))))
                refl (add_slash-Cut g.sum_db_url _ refl)))
          h)
        from_oci_registry-Confined

  -- Whatever a server that `New` sets up is asked for, what it forwards goes to a URL that begins with
  -- an upstream, a checksum database or a CDN of an entry of the configuration, up to a slash at its
  -- end, behind which there is the request's path and query, or, after a slash, anything, by way of the
  -- upstream caches of this entry alone, which for a checksum database are none, and for a CDN get
  -- something behind their path, and none of which is a proxy; or to the request's own URL, if its
  -- host is one that a proxy of the configuration allows, by way of the upstream caches of this proxy,
  -- as proxies. All else is answered by the server itself, or panics.
  pub new_servers-Confined : RunConfined (new_servers std conf)
  unfolding new_servers Within
  new_servers-Confined =
      bind-Confined
        (append_servers conf.enable_metrics (setup_galaxy std conf) conf.ansible_galaxies [])
        (from_go_proxy conf std)
        (append-Confined (setup_galaxy std conf) conf.ansible_galaxies []
          (All-members (λ g. SetUpConfined conf std (setup_galaxy std conf g)) conf.ansible_galaxies
            (λ g w. galaxy-Confined conf std g (
              inl (
                w (λ h. (h.upstream ≡ g.upstream) × (g.upstream_caches ≡ h.upstream_caches))
                  (refl, refl)))))
          tt)
        from_go_proxy-Confined
