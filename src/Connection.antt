-- ===== src/Connection.antt =====
-- connection.go: a connection between two sockets.
pub mod State
pub mod Pop
pub mod Close
pub mod Acks
pub mod Hsv4
pub mod KeyMessages
pub mod Data
pub mod Dispatch
pub mod Stream
pub mod Report
pub mod Statistics
pub mod Unwrapped
pub mod Announced
pub mod Schedule
pub mod Course
pub mod Refresh
pub mod Chunks
pub mod Peers
pub mod Panics
pub mod AckNumbers
mod Runs
