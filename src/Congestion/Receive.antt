-- ===== src/Congestion/Receive.antt =====
-- congestion/live/receive.go: the receiver. A method takes the receiver and returns the new one; what
-- it hands to its callbacks (sendACK, sendNAK, deliver) is the list of events, in the order of the
-- calls. Each method holds the lock for its whole body, or for one of the parts of `tick`.
mod Defs
mod PushDefs
mod PeriodicDefs
mod TickDefs
mod StatsDefs
pub mod Window
pub mod PushInvariant
pub mod PushCounts
pub mod AckScanned
pub mod Acks
pub mod Naks
pub mod Delivery
pub mod TickInvariant
pub mod Reachable
mod Runs
unfoldable pub use Defs.*
unfoldable pub use PushDefs.*
unfoldable pub use PeriodicDefs.*
unfoldable pub use TickDefs.*
unfoldable pub use StatsDefs.*
