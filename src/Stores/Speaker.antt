-- ===== src/Stores/Speaker.antt =====
-- client/src/stores/speaker-store.ts: the microphone and the queue of requests to speak.
pub mod Defs
pub mod Queue
pub mod Invariant
pub mod Reachable
pub mod Toggle
