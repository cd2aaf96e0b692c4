-- ===== src/Config/Load.antt =====
-- Which configuration `loadConfig` returns.
use locaccel.Prelude.{
  String, Option, none, some, Bool, true, false, ◌≡◌, ◌⊎◌, refl, arith, ap, ◌∙◌, sym, inl, inr,
  Option-cases,
}
use mathlib.Core.Path.{subst}
use locaccel.Prelude.Int.{ℤ}
use locaccel.Config.{Config}
use locaccel.Config.Defaults.{Env, get_base_config, with_default_registries}
use locaccel.Config.Source.{
  ConfigError, apply_overrides, with_level, default_config, decoded, opened, parse, is_not_exist,
  chosen, config_path, load_config,
}
use locaccel.Config.Overrides.{IsOverridden, apply_overrides-IsOverridden}

module _ (parse_level : String → Option ℤ) {D : Type 0} (open_file : String → Option D × Bool)
    (decode : D → Config → Config × Bool) where
  -- Where the configuration came from: the registries that are built in, if no path is set and the
  -- file is not there; or the file. The environment overrides either.
  abbrev pub FromDefault : Env → Config × Bool × Option ConfigError → Type 0
  FromDefault env (conf, not_found, err) =
      (env "LOCACCEL_CONFIG_PATH" ≡ none)
      × (open_file (config_path parse_level open_file decode env) ≡ (none, true))
      × IsOverridden parse_level env (with_default_registries (get_base_config env)) conf
      × (not_found ≡ true)

  abbrev pub FromFile : Env → Config × Bool × Option ConfigError → Type 0
  FromFile env (conf, not_found, err) =
      (document : D) × (absent : Bool) × (c : Config) × (open_file
          (config_path parse_level open_file decode env)
        ≡ (some document, absent))
      × (decode document (get_base_config env) ≡ (c, true))
      × IsOverridden parse_level env c conf
      × (not_found ≡ false)

  with_level_exists :
      (env : Env) (c : Config) (o : Option String)
      → is_not_exist parse_level open_file decode (with_level parse_level env c o).1 ≡ false
  with_level_exists env c none = refl
  with_level_exists env c (some value) = elim (Option-cases (parse_level value)) [
    | inl e ↦ rw e refl
    | inr (level, e) ↦ rw e refl
  ]

  chosen_applied :
      (env : Env) (p : Option String) (r : Config × Option ConfigError)
      → is_not_exist parse_level open_file decode r.1 ≡ false
      → chosen parse_level open_file decode env p r ≡ (r.0, false, r.1)
  chosen_applied env (some path) (c, err) e = ground arith
  chosen_applied env none (c, err) e = ground arith

  default_config-IsOverridden :
      (env : Env)
      → (default_config parse_level env).1 ≡ none
      → IsOverridden parse_level env
          (with_default_registries (get_base_config env))
          (default_config parse_level env).0
  unfolding default_config
  default_config-IsOverridden env h = apply_overrides-IsOverridden parse_level env _ h

  decoded_source :
      (env : Env) (p : Option String) (document : D) (absent : Bool) (d : Config × Bool)
      → open_file (config_path parse_level open_file decode env) ≡ (some document, absent)
      → decode document (get_base_config env) ≡ d
      → (chosen parse_level open_file decode env p (decoded parse_level open_file decode env d)).2
        ≡ none
      → FromFile env
          (chosen parse_level open_file decode env p (decoded parse_level open_file decode env d))
  unfolding apply_overrides
  decoded_source env (some path) document absent (c, false) o e h = cc
  decoded_source env none document absent (c, false) o e h = cc
  decoded_source env p document absent (c, true) o e h =
      let same =
        chosen_applied env p (apply_overrides parse_level env c) (with_level_exists env _ _) in
      subst (FromFile env) (sym same) (
        document,
        absent,
        c,
        o,
        e,
        apply_overrides-IsOverridden parse_level env c (ap (λ q. q.2) (sym same) ∙ h),
        refl,
      )

  opened_source :
      (env : Env) (p : Option String) (o : Option D × Bool)
      → env "LOCACCEL_CONFIG_PATH" ≡ p
      → open_file (config_path parse_level open_file decode env) ≡ o
      → (chosen parse_level open_file decode env p
          (opened parse_level open_file decode env (get_base_config env) o)).2
        ≡ none
      → FromDefault env (
          chosen parse_level open_file decode env p
            (opened parse_level open_file decode env (get_base_config env) o))
        ⊎ FromFile env (
            chosen parse_level open_file decode env p
              (opened parse_level open_file decode env (get_base_config env) o))
  opened_source env (some path) (none, true) e q h = cc
  opened_source env none (none, true) e q h = inl (e, q, default_config-IsOverridden env h, refl)
  opened_source env (some path) (none, false) e q h = cc
  opened_source env none (none, false) e q h = cc
  opened_source env p (some document, absent) e q h =
      inr (decoded_source env p document absent (decode document (get_base_config env)) q refl h)

  -- If `loadConfig` returns no error, then the configuration is that of the file, over the defaults;
  -- or, exactly if no path is set and the file is not found, that of the registries which are built
  -- in. In it, each variable of the environment that overrides a field and is set is what the field
  -- has, and every other field is as it was. In the second case alone the flag is returned.
  pub load_config-IsOverridden :
      (env : Env)
      → (load_config parse_level open_file decode env).2 ≡ none
      → FromDefault env (load_config parse_level open_file decode env)
        ⊎ FromFile env (load_config parse_level open_file decode env)
  unfolding load_config parse
  load_config-IsOverridden env h = opened_source env _ _ refl refl h
