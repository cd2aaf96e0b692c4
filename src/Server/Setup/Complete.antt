-- ===== src/Server/Setup/Complete.antt =====
-- Which servers `New` sets up, and when it panics.
use locaccel.Prelude.{List, [], ◌∷◌, map, append-nil, false, refl, sym, Bool-cases, inl, inr}
use locaccel.Prelude.Panic.{Run, ◌>>=◌}
use locaccel.Prelude.Text.{is_empty}
use locaccel.Config.{Config}
use locaccel.Server.Setup.{
  Standard, ServerInfo, setup_galaxy, setup_go_proxy, setup_oci_registry, setup_pypi_registry,
  setup_npm_registry, setup_proxy, setup_ruby_gem_registry, setup_admin_interface, append_servers,
  with_admin, new_servers,
}
use locaccel.Server.Setup.Appended.{
  names_of, addresses_of, IsComplete, append_servers-IsComplete, bind-IsComplete,
}
use locaccel.Server.Setup.Plan.{
  plan_galaxy, plan_go_proxy, plan_oci_registry, plan_pypi_registry, plan_npm_registry, plan_proxy,
  plan_ruby_gem_registry, plan_admin, plan_from_ruby_gem_registry, plan_from_proxy,
  plan_from_npm_registry, plan_from_pypi_registry, plan_from_oci_registry, plan_from_go_proxy,
  plan_of, galaxy-IsSetUp, go_proxy-IsSetUp, oci_registry-IsSetUp, pypi_registry-IsSetUp,
  npm_registry-IsSetUp, proxy-IsSetUp, ruby_gem_registry-IsSetUp,
}

module _ (conf : Config) {B : Type 0} (std : Standard B) where
  with_admin-IsComplete :
      (servers : List (ServerInfo B))
      → IsComplete conf.enable_metrics (plan_admin conf) servers (with_admin std conf servers)
  unfolding setup_admin_interface
  with_admin-IsComplete servers = elim (Bool-cases (is_empty conf.admin_interface)) [
    | inl off ↦
        rw off (refl, sym (append-nil (names_of servers)), sym (append-nil (addresses_of servers)))
    | inr on ↦ rw on (
        append_servers-IsComplete conf.enable_metrics (setup_admin_interface std)
          (λ c. ("admin", c.admin_interface, false)) (λ c. (refl, refl, refl)) (conf ∷ []) servers)
  ]

  abbrev pub from_ruby_gem_registry : List (ServerInfo B) → Run (List (ServerInfo B))
  from_ruby_gem_registry s =
      append_servers conf.enable_metrics (setup_ruby_gem_registry std conf) conf.ruby_gem_registries
        s
      >>= (with_admin std conf)

  from_ruby_gem_registry-IsComplete :
      (s : List (ServerInfo B))
      → IsComplete conf.enable_metrics
          (plan_from_ruby_gem_registry conf)
          s
          (from_ruby_gem_registry s)
  from_ruby_gem_registry-IsComplete s =
      bind-IsComplete conf.enable_metrics
        (map (plan_ruby_gem_registry conf) conf.ruby_gem_registries) (plan_admin conf) s _
        (with_admin std conf)
        (append_servers-IsComplete conf.enable_metrics (setup_ruby_gem_registry std conf)
          (plan_ruby_gem_registry conf) (ruby_gem_registry-IsSetUp conf std)
          conf.ruby_gem_registries s)
        with_admin-IsComplete

  abbrev pub from_proxy : List (ServerInfo B) → Run (List (ServerInfo B))
  from_proxy s =
      append_servers conf.enable_metrics (setup_proxy std conf) conf.proxies s
      >>= from_ruby_gem_registry

  from_proxy-IsComplete :
      (s : List (ServerInfo B))
      → IsComplete conf.enable_metrics (plan_from_proxy conf) s (from_proxy s)
  from_proxy-IsComplete s =
      bind-IsComplete conf.enable_metrics (map (plan_proxy conf) conf.proxies)
        (plan_from_ruby_gem_registry conf) s _ from_ruby_gem_registry
        (append_servers-IsComplete conf.enable_metrics (setup_proxy std conf) (plan_proxy conf)
          (proxy-IsSetUp conf std) conf.proxies s)
        from_ruby_gem_registry-IsComplete

  abbrev pub from_npm_registry : List (ServerInfo B) → Run (List (ServerInfo B))
  from_npm_registry s =
      append_servers conf.enable_metrics (setup_npm_registry std conf) conf.npm_registries s
      >>= from_proxy

  from_npm_registry-IsComplete :
      (s : List (ServerInfo B))
      → IsComplete conf.enable_metrics (plan_from_npm_registry conf) s (from_npm_registry s)
  from_npm_registry-IsComplete s =
      bind-IsComplete conf.enable_metrics (map (plan_npm_registry conf) conf.npm_registries)
        (plan_from_proxy conf) s _ from_proxy
        (append_servers-IsComplete conf.enable_metrics (setup_npm_registry std conf)
          (plan_npm_registry conf) (npm_registry-IsSetUp conf std) conf.npm_registries s)
        from_proxy-IsComplete

  abbrev pub from_pypi_registry : List (ServerInfo B) → Run (List (ServerInfo B))
  from_pypi_registry s =
      append_servers conf.enable_metrics (setup_pypi_registry std conf) conf.pypi_registries s
      >>= from_npm_registry

  from_pypi_registry-IsComplete :
      (s : List (ServerInfo B))
      → IsComplete conf.enable_metrics (plan_from_pypi_registry conf) s (from_pypi_registry s)
  from_pypi_registry-IsComplete s =
      bind-IsComplete conf.enable_metrics (map (plan_pypi_registry conf) conf.pypi_registries)
        (plan_from_npm_registry conf) s _ from_npm_registry
        (append_servers-IsComplete conf.enable_metrics (setup_pypi_registry std conf)
          (plan_pypi_registry conf) (pypi_registry-IsSetUp conf std) conf.pypi_registries s)
        from_npm_registry-IsComplete

  abbrev pub from_oci_registry : List (ServerInfo B) → Run (List (ServerInfo B))
  from_oci_registry s =
      append_servers conf.enable_metrics (setup_oci_registry std conf) conf.oci_registries s
      >>= from_pypi_registry

  from_oci_registry-IsComplete :
      (s : List (ServerInfo B))
      → IsComplete conf.enable_metrics (plan_from_oci_registry conf) s (from_oci_registry s)
  from_oci_registry-IsComplete s =
      bind-IsComplete conf.enable_metrics (map (plan_oci_registry conf) conf.oci_registries)
        (plan_from_pypi_registry conf) s _ from_pypi_registry
        (append_servers-IsComplete conf.enable_metrics (setup_oci_registry std conf)
          (plan_oci_registry conf) (oci_registry-IsSetUp conf std) conf.oci_registries s)
        from_pypi_registry-IsComplete

  abbrev pub from_go_proxy : List (ServerInfo B) → Run (List (ServerInfo B))
  from_go_proxy s =
      append_servers conf.enable_metrics (setup_go_proxy std conf) conf.go_proxies s
      >>= from_oci_registry

  from_go_proxy-IsComplete :
      (s : List (ServerInfo B))
      → IsComplete conf.enable_metrics (plan_from_go_proxy conf) s (from_go_proxy s)
  from_go_proxy-IsComplete s =
      bind-IsComplete conf.enable_metrics (map (plan_go_proxy conf) conf.go_proxies)
        (plan_from_oci_registry conf) s _ from_oci_registry
        (append_servers-IsComplete conf.enable_metrics (setup_go_proxy std conf)
          (plan_go_proxy conf) (go_proxy-IsSetUp conf std) conf.go_proxies s)
        from_oci_registry-IsComplete

  -- `New` panics exactly if the plan has a server that cannot be set up: a go proxy with no sumdb_url,
  -- a pypi registry with no upstream or no cdn, an npm registry with no upstream, or, with the metrics
  -- enabled, a server whose service has the name of an earlier one. Otherwise there is one server for
  -- each entry of the configuration and one for the admin interface, unless it has no address, in
  -- this order, each with its service's name and its address.
  pub new_servers-IsComplete :
      IsComplete conf.enable_metrics (plan_of conf) [] (new_servers std conf)
  unfolding new_servers
  new_servers-IsComplete =
      bind-IsComplete conf.enable_metrics (map (plan_galaxy conf) conf.ansible_galaxies)
        (plan_from_go_proxy conf) [] _ from_go_proxy
        (append_servers-IsComplete conf.enable_metrics (setup_galaxy std conf) (plan_galaxy conf)
          (galaxy-IsSetUp conf std) conf.ansible_galaxies [])
        from_go_proxy-IsComplete
