-- ===== src/Tests.antt =====
-- The theorems at concrete inputs, and the models of the parameters that they are applied to.
pub mod Memory
pub mod Bindings
pub mod Requests
pub mod Wallets
pub mod Serving
mod Running
mod Decryptions
pub mod Starting
pub mod Levels
pub mod RedisMemory
pub mod Hashes
pub mod Locks
mod Crossings
mod Peering
pub mod Mails
mod SignUps
mod Numbers
