-- ===== src/Onionbalance.antt =====
-- internal/onionbalance: the configuration of onionbalance and the process that keeps it fresh.
pub mod Config
pub mod Backends
pub mod Refresher
pub mod Debounce
mod Tests
