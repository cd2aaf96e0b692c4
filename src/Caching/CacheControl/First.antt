-- ===== src/Caching/CacheControl/First.antt =====
-- The parsed directives, by the first directive of each name.
use locaccel.Prelude.{String, List, true, false, ◌≡◌}
use locaccel.Prelude.Int.{pos}
use locaccel.Caching.CacheControl.{
  CacheControlResponseDirective, no_scan, parse_cache_control_directive,
}
use locaccel.Caching.CacheControl.Duplicates.{directives_of, scan_headers-flat}
use locaccel.Caching.CacheControl.Fields.{
  first, or_else, bare_flag, any_flag, delta_seconds, field-scan_directives,
}
use locaccel.Caching.CacheControl.Sets.{
  bare-no_store, argument-no_store, bare-no_cache, argument-no_cache, bare-private,
  argument-private, bare-must_revalidate, argument-must_revalidate, bare-public, argument-public,
  bare-max_age, argument-max_age, bare-s_max_age, argument-s_max_age,
}

-- The fields by which the cache decides are those of the first directive of their name.
abbrev pub ReadsFirst : CacheControlResponseDirective → List String → Type 0
ReadsFirst r ds =
    (r.no_store ≡ or_else bare_flag (false) (first "no-store" ds))
    × (r.no_cache ≡ or_else any_flag (false) (first "no-cache" ds))
    × (r.private ≡ or_else any_flag (false) (first "private" ds))
    × (r.must_revalidate ≡ or_else bare_flag (false) (first "must-revalidate" ds))
    × (r.public ≡ or_else bare_flag (false) (first "public" ds))
    × (r.max_age ≡ or_else delta_seconds (pos 0) (first "max-age" ds))
    × (r.s_max_age ≡ or_else delta_seconds (pos 0) (first "s-maxage" ds))

-- Where the header parses, the fields by which the cache decides are those of the first directive
-- of their name, wherever it stands: no-store, must-revalidate and public are set exactly by a bare
-- directive, no-cache and private by one with or without an argument, and max-age and s-maxage are
-- the number of seconds of the argument, and zero if there is none.
pub parse-first :
    (header : List String)
    → (parse_cache_control_directive header).1 ≡ true
    → ReadsFirst (parse_cache_control_directive header).0 (directives_of header)
unfolding parse_cache_control_directive
parse-first header valid =
    let ds = directives_of header in
    let flat = scan_headers-flat header no_scan in
    rw flat (
      field-scan_directives (λ r. r.no_store) "no-store" bare_flag bare-no_store argument-no_store
          ds no_scan (rw flat at valid),
      field-scan_directives (λ r. r.no_cache) "no-cache" any_flag bare-no_cache argument-no_cache ds
          no_scan (rw flat at valid),
      field-scan_directives (λ r. r.private) "private" any_flag bare-private argument-private ds
          no_scan (rw flat at valid),
      field-scan_directives (λ r. r.must_revalidate) "must-revalidate" bare_flag
          bare-must_revalidate argument-must_revalidate ds no_scan (rw flat at valid),
      field-scan_directives (λ r. r.public) "public" bare_flag bare-public argument-public ds
          no_scan (rw flat at valid),
      field-scan_directives (λ r. r.max_age) "max-age" delta_seconds bare-max_age argument-max_age
          ds no_scan (rw flat at valid),
      field-scan_directives (λ r. r.s_max_age) "s-maxage" delta_seconds bare-s_max_age
          argument-s_max_age ds no_scan (rw flat at valid),
    )
