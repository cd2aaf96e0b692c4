-- ===== src/Lib.antt =====
-- locaccel, a caching proxy for package registries: a model of its core and the theorems about it.
--
-- A request comes in through a handler of an ecosystem (internal/handlers), which hands it to the caching
-- HTTP client (internal/httpclient). The client looks its key up in a database of stored responses
-- (internal/database, over Badger), serves a stored response whose body is in the file cache
-- (internal/filecache), or asks an upstream cache or the origin. A response that may be stored is read
-- through a copying reader (internal/teereader); when it is closed, the file is renamed to its hash and
-- the response is written to the database.
--
-- Which file models what:
-- - Http and Http/Headers: times, durations and http.Header of Go's library. The grammar of dates is a
--   parameter (HttpDates).
-- - Etag: EtagsMatch of internal/httpheaders/etag.go, with the panics of its slices.
-- - Caching and its children: internal/httpclient/internal/httpcaching. CacheControl is
--   ParseCacheControlDirective (cachecontrol.go), Vary is vary.go, Freshness is freshness.go, Cacheable is
--   IsCacheable of caching.go.
-- - Database: Get, Save, New, Delete and Iterate of internal/database/database.go. Badger and the generated
--   codec are parameters; Database/Laws has what is relied on of them.
-- - TeeReader: internal/teereader/teereader.go, as the state behind a sequence of reads.
-- - FileCache: internal/filecache/filecache.go. Listing has the walks over the directories, Prune the
--   eviction, Ingestion the callback that SetupIngestion hangs on the reader.
-- - Client: internal/httpclient/client.go and types.go. Select chooses and serves stored responses,
--   Conditional is addConditionalRequestInformation, Forward sends requests on, Revalidate is updateCache,
--   Ingest is the callback that stores a response, Request is Do.
-- - Cache: internal/httpclient/cache.go. Remove and the cleaning of the database are in Cache, GetStatistics
--   and List in Cache/Usage.
-- - Handlers: Forward, modifyBody and matchesOriginalQuery of internal/handlers/utils.go, from what the
--   client answers to what the handler replies.
-- - Http/Mux: http.ServeMux, as far as the handlers use it. Registries and its children: the routes of
--   internal/handlers/pypi, npm, galaxy, goproxy, oci, proxy and rubygem with the rewriting of their
--   documents, up to the call of Forward.
-- - Admin: the deletion of an entry in internal/handlers/admin/admin.go.
-- - Middleware: the states and counters of internal/middleware.
-- - Config: internal/config/config.go and loadConfig of cmd/locaccel/locaccel.go, with the types in Config, the
--   defaults in Config/Defaults and the file and the overrides in Config/Source. Units: internal/units.
-- - Server: internal/server/server.go. Setup is New, which sets up a server for each entry of the
--   configuration; Lifecycle is ListenAndServe, as the steps that its goroutines take in any order.
-- - Tests: a database that keeps its history, and runs of the theorems on concrete inputs.
--
-- State is passed explicitly. An action of the client takes a world (the database, the requests sent, the
-- states notified) to a result and a world, and may panic (Client). What is outside of the program is a
-- function of the number of requests that were sent: the answers of the upstreams, the clock, and whether a
-- file of the cache can be opened (Env). The entry that the pool hands out is an argument of do_request; that
-- it goes back to the pool is not modelled. Numbers are the native naturals, and integers of Go an integer
-- type over them; where the source computes in int64, the wrapping or the saturation is written out
-- (Prelude/Int). Texts are sequences of characters, where Go has bytes; the code compares and cuts them at
-- ASCII characters only. The loops of the program are structural
-- recursion, and printing a number recurses on the order of the naturals, so there is no fuel; the loop that
-- finds the unit of a size runs over the five units, and Server/Lifecycle/Progress bounds the steps of a run.
-- The steps of the servers are of one goroutine each, and a channel without a buffer is one step of two.
--
-- Not modelled: logging; the bodies of responses, which are known by where they come from; a temporary file
-- that cannot be created, when the response is passed through without the callback of Ingest being called;
-- locking, since each operation of the database is one transaction; the ticker that starts the cleaning; the
-- decoding of YAML and JSON, base64, and the parsing of URLs, which are parameters; a configuration that is
-- YAML's null, and a version of npm that is JSON's null; what the JSON decoders of the pool keep of an
-- earlier document, an error or bytes that were not read: each document is decoded on its own; the redirection of a path that is not clean; the
-- templates of the admin interface, and the file that the statistics are saved in; a server that does not
-- return from Shutdown.
pub mod Prelude
pub mod Http
pub mod Etag
pub mod Caching
pub mod Database
pub mod TeeReader
pub mod FileCache
pub mod Client
pub mod Cache
pub mod Handlers
pub mod Registries
pub mod Admin
pub mod Units
pub mod Middleware
pub mod Config
pub mod Server
pub mod Tests
