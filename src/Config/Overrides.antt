-- ===== src/Config/Overrides.antt =====
-- The variables of the environment win.
use locaccel.Prelude.{
  true, ◌⊎◌, inl, inr, eq_iff, Bool-cases, ap, ◌∙◌, String, Option, none, some, Bool, false, ◌==◌,
  ◌≡◌, refl, sym,
}
use mathlib.Core.Path.{subst}
use locaccel.Prelude.Int.{ℤ}
use locaccel.Config.{Config}
use locaccel.Config.Defaults.{Env, or_default}
use locaccel.Config.Source.{
  override_profiling, override_rest, leveled, with_level, apply_overrides, ConfigError,
}

-- A field holds what a variable is set to, or what it had.
abbrev pub Holds {ℓ} : {A : Type ℓ} → Option String → (String → A) → A → A → Type ℓ
Holds none read old field = field ≡ old
Holds (some value) read old field = field ≡ read value

-- The variable turns profiling on.
abbrev pub Profiled : Option String → Bool → Bool → Type 0
Profiled none old profiling = profiling ≡ old
Profiled (some value) old profiling =
    ((value ≡ "1") × (profiling ≡ true)) ⊎ (((value == "1") ≡ false) × (profiling ≡ old))

module _ (parse_level : String → Option ℤ) where
  -- In `c'` each variable that is set is what its field has; all else is as in `c`.
  pub record IsOverridden (env : Env) (c c' : Config) : Type 0 where
    pub profiling :
        Profiled (env "LOCACCEL_ENABLE_PROFILING") c.enable_profiling c'.enable_profiling
    pub level : Holds (env "LOCACCEL_LOG_LEVEL") parse_level (some c.log.level) (some c'.log.level)
    pub format : Holds (env "LOCACCEL_LOG_FORMAT") (λ value. value) c.log.format c'.log.format
    pub path : Holds (env "LOCACCEL_CACHE_PATH") (λ value. value) c.cache.path c'.cache.path
    pub host : Holds (env "LOCACCEL_HOST") (λ value. value) c.host c'.host
    pub admin :
        Holds (env "LOCACCEL_ADMIN_INTERFACE") (λ value. value) c.admin_interface c'.admin_interface
    pub others : c' ≡ record c {
      enable_profiling = c'.enable_profiling;
      log = c'.log;
      cache = record c.cache { path = c'.cache.path };
      host = c'.host;
      admin_interface = c'.admin_interface;
    }

  or_default-Holds :
      (o : Option String) (old : String) → Holds o (λ value. value) old (or_default o old)
  or_default-Holds none old = refl
  or_default-Holds (some v) old = refl

  override_profiling_lem :
      (o : Option String) (c : Config)
      → Profiled o c.enable_profiling (override_profiling o c).enable_profiling
        × (override_profiling o c
            ≡ record c { enable_profiling = (override_profiling o c).enable_profiling })
  override_profiling_lem none c = (refl, refl)
  override_profiling_lem (some v) c = elim (Bool-cases (v == "1")) [
    | inl e ↦ rw e (inl ((eq_iff v "1").0 e, refl), refl)
    | inr e ↦ rw e (inr (refl, refl), refl)
  ]

  rest-IsOverridden :
      (env : Env) (c : Config) (profiling : Bool) (level : ℤ)
      → Profiled (env "LOCACCEL_ENABLE_PROFILING") c.enable_profiling profiling
      → Holds (env "LOCACCEL_LOG_LEVEL") parse_level (some c.log.level) (some level)
      → IsOverridden env c (
          override_rest env
            (record c { enable_profiling = profiling; log = record c.log { level = level } }))
  rest-IsOverridden env c profiling level p l = record {
    profiling = p;
    level = l;
    format = or_default-Holds _ _;
    path = or_default-Holds _ _;
    host = or_default-Holds _ _;
    admin = or_default-Holds _ _;
    others = refl;
  }

  leveled-IsOverridden :
      (env : Env) (c : Config) (profiling : Bool) (value : String) (o : Option ℤ)
      → env "LOCACCEL_LOG_LEVEL" ≡ some value
      → parse_level value ≡ o
      → Profiled (env "LOCACCEL_ENABLE_PROFILING") c.enable_profiling profiling
      → (leveled parse_level env (record c { enable_profiling = profiling }) value o).1 ≡ none
      → IsOverridden env c
          (leveled parse_level env (record c { enable_profiling = profiling }) value o).0
  leveled-IsOverridden env c profiling value none e q p h = cc
  leveled-IsOverridden env c profiling value (some level) e q p h =
      rest-IsOverridden env c profiling level p
        (subst (λ o. Holds o parse_level (some c.log.level) (some level)) (sym e) (sym q))

  with_level-IsOverridden :
      (env : Env) (c : Config) (profiling : Bool) (o : Option String)
      → env "LOCACCEL_LOG_LEVEL" ≡ o
      → Profiled (env "LOCACCEL_ENABLE_PROFILING") c.enable_profiling profiling
      → (with_level parse_level env (record c { enable_profiling = profiling }) o).1 ≡ none
      → IsOverridden env c
          (with_level parse_level env (record c { enable_profiling = profiling }) o).0
  with_level-IsOverridden env c profiling none e p h =
      rest-IsOverridden env c profiling c.log.level p
        (subst (λ o. Holds o parse_level (some c.log.level) (some c.log.level)) (sym e) refl)
  with_level-IsOverridden env c profiling (some value) e p h =
      leveled-IsOverridden env c profiling value (parse_level value) e refl p h

  pub apply_overrides-IsOverridden :
      (env : Env) (c : Config)
      → (apply_overrides parse_level env c).1 ≡ none
      → IsOverridden env c (apply_overrides parse_level env c).0
  unfolding apply_overrides
  apply_overrides-IsOverridden env c h =
      let (p, same) = override_profiling_lem (env "LOCACCEL_ENABLE_PROFILING") c in
      let run : (Config → Config × Option ConfigError) =
        λ c'. with_level parse_level env c' (env "LOCACCEL_LOG_LEVEL") in
      subst (λ c'. IsOverridden env c (run c').0) (sym same)
        (with_level-IsOverridden env c _ _ refl p (ap (λ c'. (run c').1) (sym same) ∙ h))
