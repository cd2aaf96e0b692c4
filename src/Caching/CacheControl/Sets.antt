-- ===== src/Caching/CacheControl/Sets.antt =====
-- What each directive sets, one name at a time.
use locaccel.Prelude.{
  String, none, some, ◌≡◌, refl, arith, ◌==◌, eq_iff, if◌then◌else◌, Bool-cases, inl, inr, Bool,
  true, false,
}
use locaccel.Caching.CacheControl.{CacheControlResponseDirective, apply_argument, apply_bare}
use locaccel.Caching.CacheControl.Fields.{bare_flag, any_flag, delta_seconds}

module _ (b : Bool) (x y : CacheControlResponseDirective) where
  if-max_age : (if b then x else y).max_age ≡ (if b then x.max_age else y.max_age)
  if-max_age =
      elim b as (λ c. (if c then x else y).max_age ≡ (if c then x.max_age else y.max_age)) [
        | true ↦ refl
        | false ↦ refl
      ]

  if-s_max_age : (if b then x else y).s_max_age ≡ (if b then x.s_max_age else y.s_max_age)
  if-s_max_age =
      elim b as (λ c. (if c then x else y).s_max_age ≡ (if c then x.s_max_age else y.s_max_age)) [
        | true ↦ refl
        | false ↦ refl
      ]

if_same {ℓ} : {A : Type ℓ} (b : Bool) (a : A) → (if b then a else a) ≡ a
if_same true a = refl
if_same false a = refl

module _ (key : String) (r : CacheControlResponseDirective) where
  keeps_max_age : (apply_bare key r).max_age ≡ r.max_age
  unfolding apply_bare
  keeps_max_age = simp (if-max_age, if_same)

  keeps_s_max_age : (apply_bare key r).s_max_age ≡ r.s_max_age
  unfolding apply_bare
  keeps_s_max_age = simp (if-s_max_age, if_same)

  pub bare-no_store :
      (apply_bare key r).no_store
      ≡ (if key == "no-store" then bare_flag none r.no_store else r.no_store)
  unfolding apply_bare
  bare-no_store = elim (Bool-cases (key == "no-store")) [
    | inl e ↦ rw ((eq_iff key "no-store").0 e) refl
    | inr e ↦ rw e (ground (arith, e))
  ]

  pub bare-no_cache :
      (apply_bare key r).no_cache
      ≡ (if key == "no-cache" then any_flag none r.no_cache else r.no_cache)
  unfolding apply_bare
  bare-no_cache = elim (Bool-cases (key == "no-cache")) [
    | inl e ↦ rw ((eq_iff key "no-cache").0 e) refl
    | inr e ↦ rw e (ground (arith, e))
  ]

  pub bare-private :
      (apply_bare key r).private ≡ (if key == "private" then any_flag none r.private else r.private)
  unfolding apply_bare
  bare-private = elim (Bool-cases (key == "private")) [
    | inl e ↦ rw ((eq_iff key "private").0 e) refl
    | inr e ↦ rw e (ground (arith, e))
  ]

  pub bare-must_revalidate :
      (apply_bare key r).must_revalidate
      ≡ (if key == "must-revalidate" then bare_flag none r.must_revalidate else r.must_revalidate)
  unfolding apply_bare
  bare-must_revalidate = elim (Bool-cases (key == "must-revalidate")) [
    | inl e ↦ rw ((eq_iff key "must-revalidate").0 e) refl
    | inr e ↦ rw e (ground (arith, e))
  ]

  pub bare-public :
      (apply_bare key r).public ≡ (if key == "public" then bare_flag none r.public else r.public)
  unfolding apply_bare
  bare-public = elim (Bool-cases (key == "public")) [
    | inl e ↦ rw ((eq_iff key "public").0 e) refl
    | inr e ↦ rw e (ground (arith, e))
  ]

  pub bare-max_age :
      (apply_bare key r).max_age
      ≡ (if key == "max-age" then delta_seconds none r.max_age else r.max_age)
  bare-max_age = rw keeps_max_age (simp if_same)

  pub bare-s_max_age :
      (apply_bare key r).s_max_age
      ≡ (if key == "s-maxage" then delta_seconds none r.s_max_age else r.s_max_age)
  bare-s_max_age = rw keeps_s_max_age (simp if_same)

module _ (key v : String) (r r' : CacheControlResponseDirective)
    (set : apply_argument key v r ≡ some r') where
  pub argument-no_store :
      r'.no_store ≡ (if key == "no-store" then bare_flag (some v) r.no_store else r.no_store)
  unfolding apply_argument
  argument-no_store = elim (Bool-cases (key == "no-store")) [
    | inl e ↦
        let h = rw ((eq_iff key "no-store").0 e) at set in
        rw ((eq_iff key "no-store").0 e) (ground (arith, h))
    | inr e ↦ rw e (ground (arith, e))
  ]

  pub argument-no_cache :
      r'.no_cache ≡ (if key == "no-cache" then any_flag (some v) r.no_cache else r.no_cache)
  unfolding apply_argument
  argument-no_cache = elim (Bool-cases (key == "no-cache")) [
    | inl e ↦
        let h = rw ((eq_iff key "no-cache").0 e) at set in
        rw ((eq_iff key "no-cache").0 e) (ground (arith, h))
    | inr e ↦ rw e (ground (arith, e))
  ]

  pub argument-private :
      r'.private ≡ (if key == "private" then any_flag (some v) r.private else r.private)
  unfolding apply_argument
  argument-private = elim (Bool-cases (key == "private")) [
    | inl e ↦
        let h = rw ((eq_iff key "private").0 e) at set in
        rw ((eq_iff key "private").0 e) (ground (arith, h))
    | inr e ↦ rw e (ground (arith, e))
  ]

  pub argument-must_revalidate : r'.must_revalidate ≡ (
      if key == "must-revalidate" then bare_flag (some v) r.must_revalidate else r.must_revalidate)
  unfolding apply_argument
  argument-must_revalidate = elim (Bool-cases (key == "must-revalidate")) [
    | inl e ↦
        let h = rw ((eq_iff key "must-revalidate").0 e) at set in
        rw ((eq_iff key "must-revalidate").0 e) (ground (arith, h))
    | inr e ↦ rw e (ground (arith, e))
  ]

  pub argument-public :
      r'.public ≡ (if key == "public" then bare_flag (some v) r.public else r.public)
  unfolding apply_argument
  argument-public = elim (Bool-cases (key == "public")) [
    | inl e ↦
        let h = rw ((eq_iff key "public").0 e) at set in
        rw ((eq_iff key "public").0 e) (ground (arith, h))
    | inr e ↦ rw e (ground (arith, e))
  ]

  pub argument-max_age :
      r'.max_age ≡ (if key == "max-age" then delta_seconds (some v) r.max_age else r.max_age)
  unfolding apply_argument
  argument-max_age = elim (Bool-cases (key == "max-age")) [
    | inl e ↦
        let h = rw ((eq_iff key "max-age").0 e) at set in
        rw ((eq_iff key "max-age").0 e) (ground (arith, h))
    | inr e ↦ rw e (ground (arith, e))
  ]

  pub argument-s_max_age :
      r'.s_max_age ≡ (if key == "s-maxage" then delta_seconds (some v) r.s_max_age else r.s_max_age)
  unfolding apply_argument
  argument-s_max_age = elim (Bool-cases (key == "s-maxage")) [
    | inl e ↦
        let h = rw ((eq_iff key "s-maxage").0 e) at set in
        rw ((eq_iff key "s-maxage").0 e) (ground (arith, h))
    | inr e ↦ rw e (ground (arith, e))
  ]
