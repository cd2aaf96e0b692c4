-- ===== src/Config/Defaults.antt =====
-- The configuration that the program has without one.
use locaccel.Prelude.{ℕ, ◌*◌, String, [], ◌∷◌, Option, none, some, true, false}
use locaccel.Prelude.Int.{pos}
use locaccel.Http.{second}
use locaccel.Config.{DiskQuota, Config}

-- `os.LookupEnv`
abbrev pub Env : Type 0
Env = String → Option String

abbrev pub or_default : Option String → String → String
or_default none default = default
or_default (some value) default = value

abbrev pub new_disk_quota_in_percent : ℕ → DiskQuota
new_disk_quota_in_percent percent = record {
  bytes = pos 0;
  percent = record { digits = percent; places = 0 };
}

unfoldable pub get_base_config : Env → Config
get_base_config env = record {
  host = "localhost";
  cache = record {
    path = or_default (env "LOCACCEL_DEFAULT_CACHE_PATH") "_cache/";
    private = false;
    quota_low = new_disk_quota_in_percent 10;
    quota_high = new_disk_quota_in_percent 20;
  };
  http_client = record { timeout = pos (300 * second); headers_timeout = pos (10 * second) };
  admin_interface = "localhost:3130";
  enable_metrics = true;
  enable_profiling = false;
  log = record { level = pos 1; format = "json" };
  ansible_galaxies = [];
  go_proxies = [];
  npm_registries = [];
  oci_registries = [];
  pypi_registries = [];
  proxies = [];
  ruby_gem_registries = [];
}

-- The registries of `Default`.
unfoldable pub with_default_registries : Config → Config
with_default_registries c = record c {
  ansible_galaxies =
      record { upstream = "https://galaxy.ansible.com"; port = 3147; upstream_caches = [] } ∷ [];
  go_proxies =
      record {
        upstream = "https://proxy.golang.org";
        sum_db_url = "https://sum.golang.org/";
        port = 3143;
        upstream_caches = [];
      }
      ∷ [];
  oci_registries =
      record { upstream = "https://registry-1.docker.io"; port = 3131; upstream_caches = [] }
      ∷ record { upstream = "https://gcr.io"; port = 3132; upstream_caches = [] }
      ∷ record { upstream = "https://quay.io"; port = 3133; upstream_caches = [] }
      ∷ record { upstream = "https://ghcr.io"; port = 3134; upstream_caches = [] }
      ∷ [];
  npm_registries =
      record {
        upstream = "https://registry.npmjs.org/";
        scheme = "http";
        port = 3144;
        upstream_caches = [];
      }
      ∷ [];
  pypi_registries =
      record {
        upstream = "https://pypi.org/";
        cdn = "https://files.pythonhosted.org";
        port = 3145;
        upstream_caches = [];
      }
      ∷ [];
  proxies =
      record {
        allowed_upstreams = "deb.debian.org" ∷ "archive.ubuntu.com" ∷ "security.ubuntu.com" ∷ [];
        port = 3142;
        upstream_caches = [];
      }
      ∷ [];
  ruby_gem_registries =
      record { upstream = "https://rubygems.org"; port = 3146; upstream_caches = [] } ∷ [];
}
