-- ===== src/Congestion/Send.antt =====
-- congestion/live/send.go: the sender. A method takes the sender and returns the new one, with the
-- packets that it hands to its callback (deliver), in the order of the calls. The callback may change
-- the address, the encryption flag and the payload bytes of a packet, which the sender does not read.
mod Defs
mod TickDefs
mod StatsDefs
mod NakDefs
pub mod Buffer
pub mod Tick
pub mod Sequence
pub mod Retransmission
mod Runs
unfoldable pub use Defs.*
unfoldable pub use TickDefs.*
unfoldable pub use StatsDefs.*
unfoldable pub use NakDefs.*
