-- ===== src/Caching/CacheControl.antt =====
-- cachecontrol.go: the directives of the Cache-Control header of a response.
pub mod Joined
pub mod Duplicates
pub mod Fields
pub mod Sets
pub mod First
use locaccel.Prelude.{
  ℕ, String, List, [], ◌∷◌, Option, none, some, Bool, true, false, ◌||◌, ◌==◌, if◌then◌else◌, any,
  ◌≡◌, refl,
}
use locaccel.Prelude.Int.{ℤ, pos, ◌*ℤ◌, wrap64}
use locaccel.Prelude.Text.{split_seq, trim_space, cut, atoi}
use locaccel.Http.{Duration, second}

pub record CacheControlResponseDirective : Type 0 where
  pub immutable : Bool
  pub max_age : Duration
  pub must_revalidate : Bool
  pub must_understand : Bool
  pub no_cache : Bool
  pub no_store : Bool
  pub no_transform : Bool
  pub private : Bool
  pub proxy_revalidate : Bool
  pub public : Bool
  pub s_max_age : Duration
  pub stale_while_revalidate : Duration
  pub stale_if_error : Duration

abbrev pub no_directive : CacheControlResponseDirective
no_directive = record {
  immutable = false;
  max_age = pos 0;
  must_revalidate = false;
  must_understand = false;
  no_cache = false;
  no_store = false;
  no_transform = false;
  private = false;
  proxy_revalidate = false;
  public = false;
  s_max_age = pos 0;
  stale_while_revalidate = pos 0;
  stale_if_error = pos 0;
}

-- `time.Duration(v) * time.Second`, in int64
unfoldable pub seconds : ℤ → Duration
unfolding wrap64 ◌*ℤ◌
seconds v = wrap64 (v *ℤ second)

abbrev pub with_seconds :
    ℤ × Bool → (Duration → CacheControlResponseDirective) → Option CacheControlResponseDirective
with_seconds (v, false) f = none
with_seconds (v, true) f = some (f (seconds v))

-- a directive `key=val`; `none` is the error of an invalid argument
unfoldable pub apply_argument :
    String → String → CacheControlResponseDirective → Option CacheControlResponseDirective
apply_argument key val r =
    if key == "max-age"
    then with_seconds (atoi val) (λ d. record r { max_age = d })
    else if key == "no-cache"
    then some (record r { no_cache = true })
    else if key == "private"
    then some (record r { private = true })
    else if key == "s-maxage"
    then with_seconds (atoi val) (λ d. record r { s_max_age = d })
    else if key == "stale-while-revalidate"
    then with_seconds (atoi val) (λ d. record r { stale_while_revalidate = d })
    else if key == "stale-if-error"
    then with_seconds (atoi val) (λ d. record r { stale_if_error = d })
    else some r

-- a directive with no `=`
unfoldable pub apply_bare : String → CacheControlResponseDirective → CacheControlResponseDirective
apply_bare key r =
    if key == "must-revalidate"
    then record r { must_revalidate = true }
    else if key == "must-understand"
    then record r { must_understand = true }
    else if key == "no-cache"
    then record r { no_cache = true }
    else if key == "no-store"
    then record r { no_store = true }
    else if key == "no-transform"
    then record r { no_transform = true }
    else if key == "private"
    then record r { private = true }
    else if key == "proxy-revalidate"
    then record r { proxy_revalidate = true }
    else if key == "public"
    then record r { public = true }
    else if key == "immutable"
    then record r { immutable = true }
    else r

abbrev pub apply :
    String → Option String → CacheControlResponseDirective → Option CacheControlResponseDirective
apply key (some val) r = apply_argument key val r
apply key none r = some (apply_bare key r)

abbrev pub contains : List String → String → Bool
contains seen key = any (λ k. k == key) seen

-- The variables of the loops: `valid` is false from the first error on.
pub record Scan : Type 0 where
  pub response : CacheControlResponseDirective
  pub seen : List String
  pub valid : Bool

abbrev pub applied : String → Scan → Option CacheControlResponseDirective → Scan
applied key s none = record s { seen = key ∷ s.seen; valid = false }
applied key s (some r) = record s { response = r; seen = key ∷ s.seen }

-- `strings.Cut(strings.TrimSpace(directive), "=")`
unfoldable pub key_and_value : String → String × Option String
unfolding trim_space cut
key_and_value directive = cut b'=' (trim_space directive)

-- one directive of the list
unfoldable pub scan_directive : String → Scan → Scan
scan_directive directive s =
    let (key, val) = key_and_value directive in
    if contains s.seen key then s else applied key s (apply key val s.response)

-- the inner loop; an error returns at once
unfoldable pub scan_directives : List String → Scan → Scan
scan_directives [] s = s
scan_directives (d ∷ ds) s = elim s.valid [
  | true ↦ scan_directives ds (scan_directive d s)
  | false ↦ s
]

-- the outer loop
unfoldable pub scan_headers : List String → Scan → Scan
scan_headers [] s = s
scan_headers (hdr ∷ header) s = scan_headers header (scan_directives (split_seq b',' hdr) s)

abbrev pub no_scan : Scan
no_scan = record { response = no_directive; seen = []; valid = true }

-- The response that was read so far is returned beside the error too: `valid` is `err == nil`.
unfoldable pub parse_cache_control_directive : List String → CacheControlResponseDirective × Bool
parse_cache_control_directive header = let s = scan_headers header no_scan in (s.response, s.valid)

parse_runs :
    parse_cache_control_directive ("no-store, max-age=60" ∷ "max-age=x" ∷ [])
    ≡ (record no_directive { no_store = true; max_age = pos 60_000_000_000 }, true)
unfolding parse_cache_control_directive scan_headers scan_directives scan_directive apply_argument
    apply_bare key_and_value split_seq atoi seconds
parse_runs = refl
