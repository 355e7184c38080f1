-- ===== src/Events.antt =====
-- crates/boardwalk/src/events: envelopes, topics, the sequencer, the replay cache, slow-consumer
-- policies, the coalescing queue and the bus.
pub mod Crates
pub mod Envelope
pub mod Sequencer
pub mod Policy
pub mod Topic
pub mod Coalesce
pub mod Replay
pub mod Bus
mod Tests
