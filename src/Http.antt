-- ===== src/Http.antt =====
-- crates/boardwalk/src/http: the state that the HTTP layer keeps beside its requests.
pub mod PeerStreams
pub mod Admission
