-- ===== src/Cache/Usage.antt =====
-- `Cache.GetStatistics` and `Cache.List`: what the cache holds for each host.
pub mod Totals
use locaccel.Prelude.{
  ℕ, ◌+◌, String, List, [], ◌∷◌, Option, none, some, Bool, true, false, length, ◌==◌, if◌then◌else◌,
}
use locaccel.Prelude.Text.{cut}
use locaccel.Database.{Badger, Codec, Entry, iterate}
use locaccel.Client.{CachedResponse, CachedResponses}
use locaccel.FileCache.Listing.{Statistics}
use locaccel.Cache.{Stat, exists, not_exist, stat_failed}

pub record HostUsage : Type 0 where
  pub entries : ℕ
  pub size : ℕ

-- the map `usagePerHostname`
abbrev pub Usage : Type 0
Usage = List (String × HostUsage)

unfoldable pub usage_at : Usage → String → HostUsage
usage_at [] host = record { entries = 0; size = 0 }
usage_at ((h, u) ∷ usage) host = let rest = usage_at usage host in if h == host then u else rest

unfoldable pub put_usage : Usage → String → HostUsage → Usage
put_usage [] host u = (host, u) ∷ []
put_usage ((h, v) ∷ usage) host u =
    let rest = put_usage usage host u in if h == host then (host, u) ∷ usage else (h, v) ∷ rest

-- the loop over the responses of an entry: an error of `Stat` ends it
unfoldable pub add_sizes : (String → Stat) → CachedResponses → ℕ → ℕ × Bool
add_sizes stat [] size = (size, true)
add_sizes stat (resp ∷ value) size = elim (stat resp.content_hash) [
  | exists n ↦ add_sizes stat value (size + n)
  | not_exist ↦ add_sizes stat value size
  | stat_failed ↦ (size, false)
]

pub record CacheStatistics : Type 0 where
  pub database_size : ℕ
  pub database_entries : ℕ
  pub file_cache_size : ℕ
  pub file_cache_entries : ℕ
  pub usage_per_host_name : Usage

-- the map from a path to the map from a method to the responses
abbrev pub CacheList : Type 0
CacheList = List (String × List (String × CachedResponses))

abbrev methods_at : CacheList → String → List (String × CachedResponses)
methods_at [] path = []
methods_at ((p, methods) ∷ list) path =
    let rest = methods_at list path in if p == path then methods else rest

-- `m[key] = v`
abbrev assign : {V : Type 0} → List (String × V) → String → V → List (String × V)
assign [] key v = (key, v) ∷ []
assign ((k, w) ∷ m) key v =
    let rest = assign m key v in if k == key then (key, v) ∷ m else (k, w) ∷ rest

-- `hostname` is that of a key which parses as a URL.
module _ (hostname : String → Option String) where
  abbrev pub sized : Usage → String → ℕ → ℕ × Bool → Usage × Bool
  sized usage host entries (size, false) = (usage, false)
  sized usage host entries (size, true) =
      (put_usage usage host (record { entries = entries; size = size }), true)

  abbrev pub counted :
      (String → Stat) → Entry CachedResponses → Usage → Option String → Usage × Bool
  counted stat responses usage none = (usage, false)
  counted stat responses usage (some host) =
      let u = usage_at usage host in
      sized usage host (u.entries + length responses.value) (add_sizes stat responses.value u.size)

  -- the callback of `GetStatistics`
  unfoldable pub count_entry :
      (String → Stat) → String → Entry CachedResponses → Usage → Usage × Bool
  unfolding usage_at put_usage add_sizes
  count_entry stat key responses usage = counted stat responses usage (hostname key)

  abbrev path_after : Option String → String
  path_after none = ""
  path_after (some path) = path

  abbrev listed :
      String → String → Entry CachedResponses → CacheList → Option String → CacheList × Bool
  listed host key responses list none = (list, false)
  listed host key responses list (some h) =
      let (method, rest) = cut b'+' key in
      let path = path_after rest in
      (
        if h == host
            then assign list path (assign (methods_at list path) method responses.value)
            else list,
        true,
      )

  -- the callback of `List`
  unfoldable pub list_entry : String → String → Entry CachedResponses → CacheList → CacheList × Bool
  list_entry host key responses list = listed host key responses list (hostname key)

  module _ (badger : Badger) (codec : Codec CachedResponses badger.Bytes) where
    -- The list as far as it was made is returned beside an error.
    unfoldable pub list_host : String → badger.Db → CacheList × Bool
    unfolding list_entry
    list_host host db = iterate badger codec [] (list_entry host) db []

    abbrev pub with_usage : ℕ × ℕ → Statistics → Usage × Bool → Option CacheStatistics
    with_usage db_statistics files (usage, false) = none
    with_usage (entries, size) files (usage, true) = some (record {
      database_size = size;
      database_entries = entries;
      file_cache_size = files.total_size;
      file_cache_entries = files.count;
      usage_per_host_name = usage;
    })

    -- What the database and the file cache count, or an error of theirs.
    unfoldable pub get_cache_statistics :
        Option (ℕ × ℕ) → Statistics → (String → Stat) → badger.Db → Option CacheStatistics
    unfolding count_entry
    get_cache_statistics none files stat db = none
    get_cache_statistics (some db_statistics) files stat db =
        if files.ok
        then with_usage db_statistics files (iterate badger codec [] (count_entry stat) db [])
        else none
