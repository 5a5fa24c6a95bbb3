-- ===== src/Dial.antt =====
-- dial.go: the dialer, which connects to a listener.
pub mod State
pub mod Handshake
pub mod Client
pub mod Induction
pub mod Conclusion
pub mod Accepted
pub mod Agreement
pub mod Blocked
mod Runs
pub mod Meeting
