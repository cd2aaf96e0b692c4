-- ===== src/Caching/CacheControl/Fields.antt =====
-- Each directive that was parsed is what the first directive of its name says.
use locaccel.Prelude.{
  String, List, [], ◌∷◌, Option, none, some, Bool, true, ◌||◌, ◌≡◌, arith, ◌==◌, eq_iff,
  if◌then◌else◌, Bool-cases, Option-cases, inl, inr,
}
use locaccel.Prelude.Text.{atoi}
use locaccel.Http.{Duration}
use locaccel.Caching.CacheControl.{
  Scan, contains, key_and_value, scan_directive, scan_directives, seconds, apply, applied,
  apply_argument, apply_bare, CacheControlResponseDirective,
}
use locaccel.Caching.CacheControl.Joined.{scan_directives-invalid}
use locaccel.Caching.CacheControl.Duplicates.{key_of}

-- What stands behind the name of a directive: nothing, or an argument.
abbrev pub value_of : String → Option String
value_of directive = (key_and_value directive).1

-- The first directive of a name.
unfoldable pub first : String → List String → Option (Option String)
first k [] = none
first k (d ∷ ds) = if key_of d == k then some (value_of d) else first k ds

abbrev pub or_else {ℓ} : {A : Type ℓ} → (Option String → A → A) → A → Option (Option String) → A
or_else says a none = a
or_else says a (some v) = says v a

-- A field of the response that only the directive `k` sets.
module _ {ℓ} {A : Type ℓ} (field : CacheControlResponseDirective → A) (k : String)
    (says : Option String → A → A)
    (bare_sets : (key : String) (r : CacheControlResponseDirective)
      → field (apply_bare key r) ≡ (if key == k then says none (field r) else field r))
    (argument_sets : (key v : String) (r r' : CacheControlResponseDirective)
      → apply_argument key v r ≡ some r'
      → field r' ≡ (if key == k then says (some v) (field r) else field r)) where
  seen-scan_directive :
      (d : String) (s : Scan)
      → contains (scan_directive d s).seen k ≡ (key_of d == k || contains s.seen k)
  unfolding scan_directive
  seen-scan_directive d s = ground (arith, eq_iff (key_of d) k)

  field-applied :
      (key : String) (v : Option String) (s : Scan)
      → (applied key s (apply key v s.response)).valid ≡ true
      → field (applied key s (apply key v s.response)).response
        ≡ (if key == k then says v (field s.response) else field s.response)
  field-applied key none s valid = bare_sets key s.response
  field-applied key (some v) s valid = elim (Option-cases (apply_argument key v s.response)) [
    | inl e ↦ absurd (ground (arith, e))
    | inr (r', e) ↦ rw e (argument_sets key v s.response r' e)
  ]

  set_by :
      (d : String) (s : Scan)
      → s.valid ≡ true
      → (scan_directive d s).valid ≡ true
      → field (scan_directive d s).response ≡ (
          if contains s.seen k
          then field s.response
          else if key_of d == k
          then says (value_of d) (field s.response)
          else field s.response)
  unfolding scan_directive
  set_by d s valid after = elim (Bool-cases (contains s.seen (key_of d))) [
    | inl e ↦ rw e (ground (arith, eq_iff (key_of d) k))
    | inr e ↦ rw e (
        ground
          (arith, eq_iff (key_of d) k, field-applied (key_of d) (value_of d) s (rw e at after)))
  ]

  pub field-scan_directives :
      (ds : List String) (s : Scan)
      → (scan_directives ds s).valid ≡ true
      → field (scan_directives ds s).response ≡ (
          if contains s.seen k
          then field s.response
          else or_else says (field s.response) (first k ds))
  unfolding scan_directives first
  field-scan_directives [] s v = ground arith
  field-scan_directives (d ∷ ds) s v = ground (
    arith,
    set_by d s,
    seen-scan_directive d s,
    field-scan_directives ds (scan_directive d s),
    scan_directives-invalid ds (scan_directive d s),
  )

-- A flag that only the bare directive sets, and one that an argument sets too.
abbrev pub bare_flag : Option String → Bool → Bool
bare_flag none b = true
bare_flag (some v) b = b

abbrev pub any_flag : Option String → Bool → Bool
any_flag v b = true

abbrev or_zero : Duration → Option Duration → Duration
or_zero b none = b
or_zero b (some d) = d

-- A number of seconds. (A scan with no error has only arguments that `strconv.Atoi` accepts.)
abbrev pub delta_seconds : Option String → Duration → Duration
delta_seconds none b = b
delta_seconds (some v) b = if (atoi v).1 then seconds (atoi v).0 else b
