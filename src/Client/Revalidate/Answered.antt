-- ===== src/Client/Revalidate/Answered.antt =====
-- What `updateCache` answers and writes.
use locaccel.Prelude.{ℕ, String, some, true, length, get_elem?, ◌≡◌}
use locaccel.Http.{Time}
use locaccel.Http.Headers.{find}
use locaccel.Database.{Entry, save}
use locaccel.Client.{CachedResponse, CachedResponses, Response, Env, World}
use locaccel.Client.Forward.{Forwarded}
use locaccel.Client.Revalidate.{refreshed, revalidated, replace_at}
use locaccel.Client.Revalidate.Matched.{IsAbout}

module _ (env : Env) (cache_key : String) (db_entry : Entry CachedResponses) (f : Forwarded)
    (resp : Response) (w : World env.badger.Db) where
  abbrev now : Time
  now = env.now (length w.sent)

  -- the world after the entry is saved with `cached` refreshed at its place
  abbrev pub written : ℕ → CachedResponse → World env.badger.Db
  written idx cached = record w {
    db =
        (save env.badger env.codec w.db cache_key (record db_entry {
          value = replace_at idx (refreshed env f resp now cached) db_entry.value;
        })).0;
  }

  -- `r` is what the stored response at `idx` is served as, once it is refreshed.
  abbrev pub Answers : Response → World env.badger.Db → Type 0
  Answers r w' =
      (idx : ℕ) × (cached : CachedResponse) × (get_elem? db_entry.value idx ≡ some cached)
      × IsAbout resp.header cached
      × (env.has_file (length w.sent) cached.content_hash ≡ true)
      × (r ≡ revalidated env (refreshed env f resp now cached) now)
      × (find r.header "Content-Length" ≡ find cached.headers "Content-Length")
      × (w' ≡ written idx cached)
