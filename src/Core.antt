-- ===== src/Core.antt =====
-- core/voidz_core: the links, the live connections and the counters of one Core process.
pub mod Alpn
pub mod Link
pub mod Store
pub mod Tracker
pub mod Stats
pub mod Persist
pub mod Debounce
pub mod Admin
pub mod Grouped
