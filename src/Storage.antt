-- ===== src/Storage.antt =====
-- `localStorage`: the interface that the client relies on, and a store that implements it.
mod Api
pub mod Memory
pub mod Shared
pub use Api.*
