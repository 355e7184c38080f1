-- ===== src/Peer.antt =====
-- peer.rs: peers, their names and capabilities, their tokens and connections.
pub mod Capabilities
pub mod Names
pub mod Tokens
pub mod Backoff
pub mod Admitted
pub mod Acceptors
mod Tests
