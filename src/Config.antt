-- ===== src/Config.antt =====
-- internal/config/config.go, and loadConfig of cmd/locaccel/locaccel.go: the types of a configuration.
pub mod Defaults
pub mod Source
pub mod Overrides
pub mod Load
use locaccel.Prelude.{
  ℕ, ◌*◌, String, List, [], ◌∷◌, Option, none, some, Bool, true, false, ◌==◌, if◌then◌else◌,
}
use locaccel.Prelude.Int.{ℤ, pos}
use locaccel.Prelude.Panic.{Run, returns, panics, ◌>>=◌}
use locaccel.Http.{Duration, second}
use locaccel.Client.{Url}

-- A float64 as it is written: its digits, and how many of them are decimals.
pub record Decimal : Type 0 where
  pub digits : ℕ
  pub places : ℕ

pub record DiskQuota : Type 0 where
  pub bytes : ℤ
  pub percent : Decimal

pub record AnsibleGalaxy : Type 0 where
  pub upstream : String
  pub port : ℕ
  pub upstream_caches : List Url

pub record GoProxy : Type 0 where
  pub upstream : String
  pub sum_db_url : String
  pub port : ℕ
  pub upstream_caches : List Url

pub record NpmRegistry : Type 0 where
  pub upstream : String
  pub scheme : String
  pub port : ℕ
  pub upstream_caches : List Url

pub record OciRegistry : Type 0 where
  pub upstream : String
  pub port : ℕ
  pub upstream_caches : List Url

pub record PypiRegistry : Type 0 where
  pub upstream : String
  pub cdn : String
  pub port : ℕ
  pub upstream_caches : List Url

pub record ProxyConf : Type 0 where
  pub allowed_upstreams : List String
  pub port : ℕ
  pub upstream_caches : List Url

pub record RubyGemRegistry : Type 0 where
  pub upstream : String
  pub port : ℕ
  pub upstream_caches : List Url

-- A level of zerolog is an int8.
pub record Log : Type 0 where
  pub level : ℤ
  pub format : String

pub record CacheConf : Type 0 where
  pub path : String
  pub private : Bool
  pub quota_low : DiskQuota
  pub quota_high : DiskQuota

pub record HttpClient : Type 0 where
  pub timeout : Duration
  pub headers_timeout : Duration

pub record Config : Type 0 where
  pub host : String
  pub cache : CacheConf
  pub http_client : HttpClient
  pub admin_interface : String
  pub enable_metrics : Bool
  pub enable_profiling : Bool
  pub log : Log
  pub ansible_galaxies : List AnsibleGalaxy
  pub go_proxies : List GoProxy
  pub npm_registries : List NpmRegistry
  pub oci_registries : List OciRegistry
  pub pypi_registries : List PypiRegistry
  pub proxies : List ProxyConf
  pub ruby_gem_registries : List RubyGemRegistry
