-- ===== src/Listen.antt =====
-- listen.go and conn_request.go: the listener and its connection requests.
pub mod State
pub mod Request
pub mod Accept
pub mod Reader
pub mod Acceptable
pub mod Outcomes
pub mod Checked
pub mod Stateless
pub mod SmallMtu
pub mod Lifecycle
pub mod Settled
pub mod Registry
pub mod Preserved
pub mod Moved
pub mod Reachable
mod Runs
