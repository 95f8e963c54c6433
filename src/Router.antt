-- ===== src/Router.antt =====
-- internal/router: the in-pod HTTP router between Tor and the Services.
pub mod Match
pub mod Convert
pub mod Aggregate
pub mod Proxy
mod Tests
