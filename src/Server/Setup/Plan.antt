-- ===== src/Server/Setup/Plan.antt =====
-- The servers that a configuration asks for, and that each is set up as planned.
use locaccel.Prelude.{
  String, List, [], ◌∷◌, ◌++◌, map, Bool, true, false, ◌||◌, if◌then◌else◌, ◌≡◌, refl, inl, inr,
  ◌⊎◌,
}
use locaccel.Prelude.Panic.{returns, panics}
use locaccel.Prelude.Text.{◌<+>◌, is_empty}
use locaccel.Config.{
  AnsibleGalaxy, GoProxy, NpmRegistry, OciRegistry, PypiRegistry, ProxyConf, RubyGemRegistry,
  Config,
}
use locaccel.Registries.Goproxy
use locaccel.Registries.Npm
use locaccel.Registries.Pypi
use locaccel.Registries.{ends_with_slash}
use locaccel.Server.Setup.{
  Standard, address_of, setup_galaxy, setup_go_proxy, setup_oci_registry, setup_pypi_registry,
  setup_npm_registry, setup_proxy, setup_ruby_gem_registry,
}
use locaccel.Server.Setup.Appended.{Planned, IsSetUp}

ends_with_slash-cases :
    (s : String)
    → ((ends_with_slash s ≡ panics) × (is_empty s ≡ true))
      ⊎ ((b : Bool) × (ends_with_slash s ≡ returns b) × (is_empty s ≡ false))
unfolding ends_with_slash
ends_with_slash-cases String.[] = inl (refl, refl)
ends_with_slash-cases (String.◌∷◌ c String.[]) = inr (_, refl, refl)
ends_with_slash-cases (String.◌∷◌ c (String.◌∷◌ d s)) =
    elim (ends_with_slash-cases (String.◌∷◌ d s)) [
      | inl (e, empty) ↦ cc
      | inr (b, e, full) ↦ inr (b, e, refl)
    ]

module _ (conf : Config) where
  abbrev pub plan_galaxy : AnsibleGalaxy → Planned
  plan_galaxy g = ("galaxy[" <+> g.upstream <+> "]", address_of conf g.port, false)

  abbrev pub plan_go_proxy : GoProxy → Planned
  plan_go_proxy p = ("go[" <+> p.upstream <+> "]", address_of conf p.port, is_empty p.sum_db_url)

  abbrev pub plan_oci_registry : OciRegistry → Planned
  plan_oci_registry r = ("oci[" <+> r.upstream <+> "]", address_of conf r.port, false)

  abbrev pub plan_pypi_registry : PypiRegistry → Planned
  plan_pypi_registry r = (
    "pypi[" <+> r.upstream <+> "]",
    address_of conf r.port,
    is_empty r.upstream || is_empty r.cdn,
  )

  abbrev pub plan_npm_registry : NpmRegistry → Planned
  plan_npm_registry r = ("npm[" <+> r.upstream <+> "]", address_of conf r.port, is_empty r.upstream)

  abbrev pub plan_proxy : ProxyConf → Planned
  plan_proxy p = ("proxy", address_of conf p.port, false)

  abbrev pub plan_ruby_gem_registry : RubyGemRegistry → Planned
  plan_ruby_gem_registry r = ("rubygem[" <+> r.upstream <+> "]", address_of conf r.port, false)

  abbrev pub plan_admin : List Planned
  plan_admin =
      if is_empty conf.admin_interface then [] else ("admin", conf.admin_interface, false) ∷ []

  abbrev pub plan_from_ruby_gem_registry : List Planned
  plan_from_ruby_gem_registry = map plan_ruby_gem_registry conf.ruby_gem_registries ++ plan_admin

  abbrev pub plan_from_proxy : List Planned
  plan_from_proxy = map plan_proxy conf.proxies ++ plan_from_ruby_gem_registry

  abbrev pub plan_from_npm_registry : List Planned
  plan_from_npm_registry = map plan_npm_registry conf.npm_registries ++ plan_from_proxy

  abbrev pub plan_from_pypi_registry : List Planned
  plan_from_pypi_registry = map plan_pypi_registry conf.pypi_registries ++ plan_from_npm_registry

  abbrev pub plan_from_oci_registry : List Planned
  plan_from_oci_registry = map plan_oci_registry conf.oci_registries ++ plan_from_pypi_registry

  abbrev pub plan_from_go_proxy : List Planned
  plan_from_go_proxy = map plan_go_proxy conf.go_proxies ++ plan_from_oci_registry

  -- A server for each entry of the configuration, in the order of `New`.
  abbrev pub plan_of : List Planned
  plan_of = map plan_galaxy conf.ansible_galaxies ++ plan_from_go_proxy

  module _ {B : Type 0} (std : Standard B) where
    pub galaxy-IsSetUp : (g : AnsibleGalaxy) → IsSetUp (plan_galaxy g) (setup_galaxy std conf g)
    unfolding setup_galaxy
    galaxy-IsSetUp g = (refl, refl, refl)

    pub go_proxy-IsSetUp : (p : GoProxy) → IsSetUp (plan_go_proxy p) (setup_go_proxy std conf p)
    unfolding setup_go_proxy Goproxy.register_handler
    go_proxy-IsSetUp p = elim (ends_with_slash-cases p.sum_db_url) [
      | inl (e, empty) ↦ rw e empty
      | inr (b, e, full) ↦ rw e (full, refl, refl)
    ]

    pub oci_registry-IsSetUp :
        (r : OciRegistry) → IsSetUp (plan_oci_registry r) (setup_oci_registry std conf r)
    unfolding setup_oci_registry
    oci_registry-IsSetUp r = (refl, refl, refl)

    pub pypi_registry-IsSetUp :
        (r : PypiRegistry) → IsSetUp (plan_pypi_registry r) (setup_pypi_registry std conf r)
    unfolding setup_pypi_registry Pypi.register_handler
    pypi_registry-IsSetUp r = elim (ends_with_slash-cases r.upstream) [
      | inl (e, empty) ↦ rw (e, empty) refl
      | inr (b, e, full) ↦
          rw (e, full)
            (elim (ends_with_slash-cases r.cdn) [
              | inl (e', empty) ↦ rw e' empty
              | inr (b', e', full') ↦ rw e' (full', refl, refl)
            ])
    ]

    pub npm_registry-IsSetUp :
        (r : NpmRegistry) → IsSetUp (plan_npm_registry r) (setup_npm_registry std conf r)
    unfolding setup_npm_registry Npm.register_handler
    npm_registry-IsSetUp r = elim (ends_with_slash-cases r.upstream) [
      | inl (e, empty) ↦ rw e empty
      | inr (b, e, full) ↦ rw e (full, refl, refl)
    ]

    pub proxy-IsSetUp : (p : ProxyConf) → IsSetUp (plan_proxy p) (setup_proxy std conf p)
    unfolding setup_proxy
    proxy-IsSetUp p = (refl, refl, refl)

    pub ruby_gem_registry-IsSetUp :
        (r : RubyGemRegistry)
        → IsSetUp (plan_ruby_gem_registry r) (setup_ruby_gem_registry std conf r)
    unfolding setup_ruby_gem_registry
    ruby_gem_registry-IsSetUp r = (refl, refl, refl)
