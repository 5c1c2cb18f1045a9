-- ===== src/Config.antt =====
-- The TOML configuration (pkg/config): its types, their conversion, and the loader.
pub mod Types
pub mod Loader
pub mod Watcher
pub mod Apply
mod Tests
mod WatchTests
