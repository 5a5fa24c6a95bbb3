-- ===== src/Congestion.antt =====
-- congestion/congestion.go and congestion/live: the live congestion control.
pub mod Float
pub mod Sample
pub mod Stats
pub mod Receive
pub mod Send
