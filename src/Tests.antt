-- ===== src/Tests.antt =====
-- Runs of the code on concrete inputs.
mod Store
mod Fixtures
mod Caching
mod Database
mod FileCache
mod Client
mod Cache
mod Handlers
mod Server
mod Registries
mod Config
mod Middleware
mod Units
