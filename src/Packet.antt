-- ===== src/Packet.antt =====
-- packet/packet.go: the packets and their wire format. A byte slice is a list of numbers below 256.
pub mod Types
pub mod Wire
pub mod Quiet
pub mod Header
pub mod Ack
pub mod Nak
pub mod HandshakeExtension
pub mod KeyMaterial
pub mod Handshake
pub mod HandshakeWriter
mod Runs
