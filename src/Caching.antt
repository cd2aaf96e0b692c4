-- ===== src/Caching.antt =====
-- internal/httpclient/internal/httpcaching: the rules of RFC 9111 and RFC 9110 that the cache
-- follows.
pub mod CacheControl
pub mod Vary
pub mod Freshness
pub mod Cacheable
