-- ===== src/Middleware.antt =====
-- internal/middleware: the state of a request that the client sets, and the counters that the access
-- log keeps.
pub mod Counted
use locaccel.Prelude.{
  ℕ, ◌+◌, ◌%◌, ◌^◌, String, List, [], ◌∷◌, Bool, true, false, eqb, leb, ◌==◌, if◌then◌else◌,
}
use locaccel.Prelude.Int.{ℤ, pos, negsuc}
use locaccel.Prelude.Panic.{Run, returns, panics}
use locaccel.Prelude.Text.{is_empty}

-- The counters are uint64, whose addition wraps.
pub record Statistics : Type 0 where
  pub cache_hits : ℕ
  pub cache_misses : ℕ
  pub un_cacheable : ℕ
  pub revalidated : ℕ
  pub bytes_served : ℕ
  pub bytes_downloaded : ℕ

abbrev pub add_uint64 : ℕ → ℕ → ℕ
add_uint64 a b = (a + b) % 2 ^ 64

-- `SetCacheState`, for each state that is notified; the state of a request is empty at first.
unfoldable pub set_cache_states : String → List String → String
set_cache_states state [] = state
set_cache_states state (value ∷ values) = set_cache_states value values

unfoldable pub get_cache_state : String → String
get_cache_state cache = if is_empty cache then "N/A" else cache

pub data Level : Type 0 where
  info warn error : Level

unfoldable pub level_of : ℕ → Level
level_of status = if eqb status 0 then error else if leb 500 status then warn else info

-- The part of the access handler that counts: the state is what `GetCacheState` gives.
abbrev pub served : ℕ → Statistics → Statistics
served size s = record s { bytes_served = add_uint64 s.bytes_served size }

abbrev pub counted : Statistics → String → ℕ → Run Statistics
counted s cache_state size =
    if cache_state == "N/A"
    then returns (
        served size (record s {
          un_cacheable = add_uint64 s.un_cacheable 1;
          bytes_downloaded = add_uint64 s.bytes_downloaded size;
        }))
    else if cache_state == "hit"
    then returns (served size (record s { cache_hits = add_uint64 s.cache_hits 1 }))
    else if cache_state == "miss"
    then returns (
        served size (record s {
          cache_misses = add_uint64 s.cache_misses 1;
          bytes_downloaded = add_uint64 s.bytes_downloaded size;
        }))
    else if cache_state == "revalidated"
    then returns (served size (record s { revalidated = add_uint64 s.revalidated 1 }))
    else panics

unfoldable pub access : Statistics → String → ℤ → Run Statistics
access s cache_state (pos size) = counted s cache_state size
access s cache_state (negsuc n) = panics

-- A request through the state handler and the access log: the states that the client notified, and
-- the size of the reply.
unfoldable pub handle : Statistics → List String → ℤ → Run Statistics
unfolding set_cache_states get_cache_state access
handle s notified size = access s (get_cache_state (set_cache_states "" notified)) size
