-- ===== src/Persistence.antt =====
-- persistence/mod.rs: what a node keeps of its resources, of itself and of its peers, and the store
-- in memory. A snapshot is never read by the store; its type is a parameter.
mod Records
pub mod Memory
pub mod Stores
pub mod Identities
pub mod Laws
pub mod Lookups
pub mod Nodes
mod Tests
unfoldable pub use Records.*
