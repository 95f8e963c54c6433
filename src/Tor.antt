-- ===== src/Tor.antt =====
-- internal/tor: onion addresses, key files, client authorization, vanity Jobs and the torrc.
pub mod Base32
pub mod Onion
pub mod Keys
pub mod Vanity
pub mod MasterKey
pub mod ClientAuth
pub mod Torrc
pub mod Samples
mod Tests
mod ClientTests
mod TorrcTests
