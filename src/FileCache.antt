-- ===== src/FileCache.antt =====
-- internal/filecache/filecache.go: files by the hash of their content, in 256 directories, and the
-- eviction of those that were used least recently.
pub mod Listing
pub mod Prune
pub mod Ingestion
