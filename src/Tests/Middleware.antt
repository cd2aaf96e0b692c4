-- ===== src/Tests/Middleware.antt =====
-- A request that is served from the cache, while the counters wrap.
use locaccel.Prelude.{◌-◌, ◌^◌, none, refl}
use locaccel.Prelude.Int.{pos}
use locaccel.Client.{CachedResponses}
use locaccel.Client.Request.{do_request}
use locaccel.Middleware.{Statistics, handle}
use locaccel.Middleware.Counted.{IsCounted, handle-do_request}
use locaccel.Tests.Store.{shelf_laws, same_laws}
use locaccel.Tests.Fixtures.{env, req, busy, pooled, caches}

abbrev full : Statistics
full = record {
  cache_hits = 2 ^ 64 - 1;
  cache_misses = 0;
  un_cacheable = 3;
  revalidated = 0;
  bytes_served = 2 ^ 64 - 5;
  bytes_downloaded = 9;
}

handle-do_request_example :
    IsCounted full 7
      (do_request (env none) pooled req caches busy).1.notified
      (handle full (do_request (env none) pooled req caches busy).1.notified (pos 7))
handle-do_request_example =
    handle-do_request (env none) (shelf_laws CachedResponses) (same_laws CachedResponses) pooled req
      caches busy full 7 refl
