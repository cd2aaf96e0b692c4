-- ===== src/Tests/Config.antt =====
-- A configuration with no file, and an environment that sets the host.
use locaccel.Prelude.{String, Option, none, some, Bool, true, ◌==◌, if◌then◌else◌, ◌⊎◌, refl}
use locaccel.Prelude.Int.{ℤ, pos}
use locaccel.Config.{Config}
use locaccel.Config.Defaults.{Env}
use locaccel.Config.Source.{apply_overrides, default_config, parse, load_config}
use locaccel.Config.Load.{FromDefault, FromFile, load_config-IsOverridden}

abbrev everywhere : Env
everywhere name =
    if name == "LOCACCEL_HOST"
    then some "0.0.0.0"
    else if name == "LOCACCEL_LOG_LEVEL"
    then some "debug"
    else none

abbrev parse_level : String → Option ℤ
parse_level level = if level == "debug" then some (pos 0) else none

abbrev no_file : String → Option String × Bool
no_file path = (none, true)

abbrev decode : String → Config → Config × Bool
decode document c = (c, true)

load_config-IsOverridden_example :
    FromDefault parse_level no_file decode everywhere
      (load_config parse_level no_file decode everywhere)
    ⊎ FromFile parse_level no_file decode everywhere
        (load_config parse_level no_file decode everywhere)
unfolding load_config parse default_config apply_overrides
load_config-IsOverridden_example =
    load_config-IsOverridden parse_level no_file decode everywhere refl
