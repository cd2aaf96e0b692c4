-- ===== src/Config/Source.antt =====
-- Where the configuration comes from: `Parse`, `Default`, the overrides, and loadConfig.
use locaccel.Prelude.{String, Option, none, some, Bool, true, false, ◌==◌, if◌then◌else◌}
use locaccel.Prelude.Int.{ℤ}
use locaccel.Config.{Config}
use locaccel.Config.Defaults.{Env, or_default, get_base_config, with_default_registries}

-- What `Parse` and `loadConfig` may return beside the configuration.
pub data ConfigError : Type 0 where
  not_exist open_failed invalid_document : ConfigError
  invalid_level : String → ConfigError

abbrev pub override_profiling : Option String → Config → Config
override_profiling none c = c
override_profiling (some value) c = if value == "1" then record c { enable_profiling = true } else c

-- The overrides behind that of the level: a variable that is set is assigned.
abbrev pub override_rest : Env → Config → Config
override_rest env c = record c {
  log = record c.log { format = or_default (env "LOCACCEL_LOG_FORMAT") c.log.format };
  cache = record c.cache { path = or_default (env "LOCACCEL_CACHE_PATH") c.cache.path };
  host = or_default (env "LOCACCEL_HOST") c.host;
  admin_interface = or_default (env "LOCACCEL_ADMIN_INTERFACE") c.admin_interface;
}

-- `zerolog.ParseLevel` is a parameter: none is an error, with which the rest is left as it was.
module _ (parse_level : String → Option ℤ) where
  abbrev pub leveled : Env → Config → String → Option ℤ → Config × Option ConfigError
  leveled env c value none = (c, some (invalid_level value))
  leveled env c value (some level) =
      (override_rest env (record c { log = record c.log { level = level } }), none)

  abbrev pub with_level : Env → Config → Option String → Config × Option ConfigError
  with_level env c none = (override_rest env c, none)
  with_level env c (some value) = leveled env c value (parse_level value)

  unfoldable pub apply_overrides : Env → Config → Config × Option ConfigError
  apply_overrides env conf =
      with_level env (override_profiling (env "LOCACCEL_ENABLE_PROFILING") conf)
        (env "LOCACCEL_LOG_LEVEL")

  unfoldable pub default_config : Env → Config × Option ConfigError
  unfolding get_base_config with_default_registries apply_overrides
  default_config env = apply_overrides env (with_default_registries (get_base_config env))

  -- `os.Open`: the document, or an error that is `fs.ErrNotExist` or not; and the strict decoder of
  -- `yaml`, which fills a configuration in, and says whether it did.
  module _ {D : Type 0} (open_file : String → Option D × Bool)
      (decode : D → Config → Config × Bool) where
    abbrev pub decoded : Env → Config × Bool → Config × Option ConfigError
    decoded env (c, false) = (c, some invalid_document)
    decoded env (c, true) = apply_overrides env c

    abbrev pub opened : Env → Config → Option D × Bool → Config × Option ConfigError
    opened env c (none, true) = (c, some not_exist)
    opened env c (none, false) = (c, some open_failed)
    opened env c (some document, absent) = decoded env (decode document c)

    unfoldable pub parse : String → Env → Config × Option ConfigError
    unfolding get_base_config apply_overrides
    parse config_path env = opened env (get_base_config env) (open_file config_path)

    abbrev pub is_not_exist : Option ConfigError → Bool
    is_not_exist (some not_exist) = true
    is_not_exist (some open_failed) = false
    is_not_exist (some invalid_document) = false
    is_not_exist (some (invalid_level value)) = false
    is_not_exist none = false

    abbrev pub config_path : Env → String
    config_path env = elim (env "LOCACCEL_CONFIG_PATH") [
      | some path ↦ path
      | none ↦ or_default (env "LOCACCEL_DEFAULT_CONFIG_PATH") "./locaccel.yaml"
    ]

    abbrev pub default_if :
        Env → Config × Option ConfigError → Bool → Config × Bool × Option ConfigError
    default_if env (conf, err) false = (conf, false, err)
    default_if env (conf, err) true =
        let (default, default_err) = default_config env in (default, true, default_err)

    abbrev pub chosen :
        Env → Option String → Config × Option ConfigError → Config × Bool × Option ConfigError
    chosen env (some path) (conf, err) = (conf, is_not_exist err, err)
    chosen env none (conf, err) = default_if env (conf, err) (is_not_exist err)

    -- The configuration, whether its file was not found, and the error.
    unfoldable pub load_config : Env → Config × Bool × Option ConfigError
    unfolding parse default_config
    load_config env = chosen env (env "LOCACCEL_CONFIG_PATH") (parse (config_path env) env)
