-- ===== src/Cache/Usage/Totals.antt =====
-- The usage that `GetStatistics` reports of a host is that of all its entries.
use locaccel.Prelude.{
  ℕ, ◌+◌, String, List, [], ◌∷◌, ◌++◌, Option, none, some, Bool, true, false, length, length-append,
  ◌==◌, eq_iff, if◌then◌else◌, ◌≡◌, refl, sym, ap, ◌∙◌, arith,
}
use locaccel.Database.{Badger, Codec, Entry, iterate, send, applied, streamed}
use locaccel.Client.{CachedResponse, CachedResponses}
use locaccel.FileCache.Listing.{Statistics}
use locaccel.Cache.{Stat, exists, not_exist, stat_failed}
use locaccel.Cache.Usage.{
  HostUsage, Usage, usage_at, put_usage, add_sizes, CacheStatistics, count_entry, counted, sized,
  with_usage, get_cache_statistics,
}

usage_at-put_usage :
    (usage : Usage) (host : String) (u : HostUsage) (other : String)
    → usage_at (put_usage usage host u) other ≡ (if host == other then u else usage_at usage other)
unfolding usage_at put_usage
usage_at-put_usage [] host u other = refl
usage_at-put_usage ((h, v) ∷ usage) host u other =
    ground (
      arith,
      eq_iff h host,
      eq_iff host other,
      eq_iff h other,
      usage_at-put_usage usage host u other,
    )

module _ (stat : String → Stat) where
  abbrev pub size_of : Stat → ℕ
  size_of (exists size) = size
  size_of not_exist = 0
  size_of stat_failed = 0

  -- the sizes of the files that are there
  abbrev pub total_size : CachedResponses → ℕ
  total_size [] = 0
  total_size (resp ∷ value) = size_of (stat resp.content_hash) + total_size value

  total_size-append :
      (xs ys : CachedResponses) → total_size (xs ++ ys) ≡ total_size xs + total_size ys
  total_size-append [] ys = omega arith
  total_size-append (x ∷ xs) ys = omega (arith, total_size-append xs ys)

  abbrev Adds : CachedResponses → ℕ → ℕ × Bool → Type 0
  Adds value size (n, false) = Unit
  Adds value size (n, true) = n ≡ size + total_size value

  Adds-cons :
      (resp : CachedResponse) (value : CachedResponses) (size n : ℕ) (sum : ℕ × Bool)
      → n ≡ size + size_of (stat resp.content_hash)
      → Adds value n sum
      → Adds (resp ∷ value) size sum
  Adds-cons resp value size n (k, false) e h = tt
  Adds-cons resp value size n (k, true) e h = omega (arith, e, h)

  add_sizes-step :
      (s : Stat) (resp : CachedResponse) (value : CachedResponses) (size : ℕ)
      → stat resp.content_hash ≡ s
      → ((n : ℕ) → Adds value n (add_sizes stat value n))
      → Adds (resp ∷ value) size (add_sizes stat (resp ∷ value) size)
  unfolding add_sizes
  add_sizes-step (exists k) resp value size e ih =
      rw (add_sizes, e)
        (Adds-cons resp value size (size + k) _ (ap (λ s. size + size_of s) (sym e))
          (ih (size + k)))
  add_sizes-step not_exist resp value size e ih =
      rw (add_sizes, e) (Adds-cons resp value size size _ (omega (arith, ap size_of e)) (ih size))
  add_sizes-step stat_failed resp value size e ih = rw (add_sizes, e) tt

  -- Without an error the sizes of the files that are there are added.
  add_sizes-Adds :
      (value : CachedResponses) (size : ℕ) → Adds value size (add_sizes stat value size)
  unfolding add_sizes
  add_sizes-Adds [] size = omega arith
  add_sizes-Adds (resp ∷ value) size =
      add_sizes-step (stat resp.content_hash) resp value size refl (add_sizes-Adds value)

module _ (hostname : String → Option String) (host : String) where
  abbrev is_host : Option String → Bool
  is_host none = false
  is_host (some h) = h == host

  module _ {B : Type 0} (codec : Codec CachedResponses B) where
    -- the responses of all the entries of the host
    abbrev pub responses_of : List (String × B × ℕ) → CachedResponses
    responses_of [] = []
    responses_of ((key, bytes, version) ∷ kvs) =
        (if is_host (hostname key) then (codec.unmarshal bytes []).0 else []) ++ responses_of kvs

  module _ (stat : String → Stat) where
    -- Unless there was an error, the host's usage is `u` and that of the responses.
    abbrev Grown : HostUsage → CachedResponses → Usage × Bool → Type 0
    Grown u rs (usage, false) = Unit
    Grown u rs (usage, true) =
        usage_at usage host
        ≡ record { entries = u.entries + length rs; size = u.size + total_size stat rs }

    Grown-append :
        (u : HostUsage) (here more : CachedResponses) (usage : Usage) (r : Usage × Bool)
        → Grown u here (usage, true)
        → Grown (usage_at usage host) more r
        → Grown u (here ++ more) r
    Grown-append u here more usage (usage', false) h k = tt
    Grown-append u here more usage (usage', true) h k =
        ground (arith, h, k, length-append here more, total_size-append stat here more)

    sized-Grown :
        (usage : Usage) (h : String) (value : CachedResponses) (sum : ℕ × Bool)
        → Adds stat value (usage_at usage h).size sum
        → Grown
            (usage_at usage host)
            (if h == host then value else [])
            (sized hostname usage h ((usage_at usage h).entries + length value) sum)
    sized-Grown usage h value (n, false) a = tt
    sized-Grown usage h value (n, true) a = ground (
      arith,
      a,
      eq_iff h host,
      usage_at-put_usage usage h
          (record { entries = (usage_at usage h).entries + length value; size = n }) host,
    )

    counted-Grown :
        (responses : Entry CachedResponses) (usage : Usage) (o : Option String)
        → Grown
            (usage_at usage host)
            (if is_host o then responses.value else [])
            (counted hostname stat responses usage o)
    counted-Grown responses usage none = tt
    counted-Grown responses usage (some h) =
        sized-Grown usage h responses.value _
          (add_sizes-Adds stat responses.value (usage_at usage h).size)

    module _ {B : Type 0} (codec : Codec CachedResponses B) where
      abbrev Counts : Usage → CachedResponses → Usage × Bool → Type 0
      Counts usage rs r = Grown (usage_at usage host) rs r

      applied-Grown :
          (key : String) (version : ℕ) (d : CachedResponses × Bool) (usage : Usage)
          → Counts usage
              (if is_host (hostname key) then d.0 else [])
              (applied codec [] (count_entry hostname stat) key version d usage)
      unfolding count_entry
      applied-Grown key version (value, false) usage = tt
      applied-Grown key version (value, true) usage =
          counted-Grown (record { value = value; version = version }) usage (hostname key)

      then_send :
          (usage : Usage) (here : CachedResponses) (r : Usage × Bool) (kvs : List (String × B × ℕ))
          → Counts usage here r
          → ((usage' : Usage)
              → Counts usage'
                  (responses_of codec kvs)
                  (send codec [] (count_entry hostname stat) kvs usage'))
          → Counts usage
              (here ++ responses_of codec kvs)
              (if r.1 then send codec [] (count_entry hostname stat) kvs r.0 else (r.0, false))
      then_send usage here (usage', false) kvs h ih = tt
      then_send usage here (usage', true) kvs h ih =
          Grown-append (usage_at usage host) here (responses_of codec kvs) usage' _ h (ih usage')

      send-Grown :
          (kvs : List (String × B × ℕ)) (usage : Usage)
          → Counts usage
              (responses_of codec kvs)
              (send codec [] (count_entry hostname stat) kvs usage)
      unfolding send
      send-Grown [] usage = ground arith
      send-Grown ((key, bytes, version) ∷ kvs) usage =
          then_send usage _
            (applied codec [] (count_entry hostname stat) key version (codec.unmarshal bytes [])
              usage)
            kvs (applied-Grown key version (codec.unmarshal bytes []) usage) (send-Grown kvs)

reported :
    (hostname : String → Option String) (badger : Badger)
    (codec : Codec CachedResponses badger.Bytes) (db_statistics : ℕ × ℕ) (files : Statistics)
    (ok : Bool) (stat : String → Stat) (s : CacheStatistics) (host : String) (rs : CachedResponses)
    (r : Usage × Bool)
    → Grown hostname host stat (record { entries = 0; size = 0 }) rs r
    → (if ok then with_usage hostname badger codec db_statistics files r else none) ≡ some s
    → usage_at s.usage_per_host_name host
      ≡ record { entries = length rs; size = total_size stat rs }
reported hostname badger codec db_statistics files false stat s host rs r g h =
    absurd (ground (arith, h))
reported hostname badger codec db_statistics files true stat s host rs (u, false) g h =
    absurd (ground (arith, h))
reported hostname badger codec db_statistics files true stat s host rs (u, true) g h =
    let same : u ≡ s.usage_per_host_name = ground (arith, h) in
    ap (λ v. usage_at v host) (sym same) ∙ ground (arith, g)

-- The statistics report of each host the number of the responses in all its entries, and the sizes
-- of those of their files that are there; unless there is an error.
pub get_cache_statistics-totals :
    (hostname : String → Option String) (badger : Badger)
    (codec : Codec CachedResponses badger.Bytes) (db_statistics : ℕ × ℕ) (files : Statistics)
    (stat : String → Stat) (db : badger.Db) (s : CacheStatistics)
    (kvs : List (String × badger.Bytes × ℕ)) (host : String)
    → badger.stream db ≡ some kvs
    → get_cache_statistics hostname badger codec (some db_statistics) files stat db ≡ some s
    → usage_at s.usage_per_host_name host ≡ record {
      entries = length (responses_of hostname host codec kvs);
      size = total_size stat (responses_of hostname host codec kvs);
    }
unfolding get_cache_statistics iterate usage_at
get_cache_statistics-totals hostname badger codec db_statistics files stat db s kvs host streams h =
    reported hostname badger codec db_statistics files files.ok stat s host
      (responses_of hostname host codec kvs) (send codec [] (count_entry hostname stat) kvs [])
      (send-Grown hostname host stat codec kvs [])
      (ap
          (λ o.
            if files.ok
            then with_usage hostname badger codec db_statistics files
                (streamed codec [] (count_entry hostname stat) o [])
            else none)
          (sym streams)
        ∙ h)
