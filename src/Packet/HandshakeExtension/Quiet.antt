-- ===== src/Packet/HandshakeExtension/Quiet.antt =====
-- Reading a handshake extension message does not panic.
use gosrt.Common.{ℕ, ◌≡◌, arith, true, List}
use gosrt.Packet.Quiet.{quiet}
use gosrt.Packet.HandshakeExtension.{unmarshal}

pub unmarshal-quiet : (d : List ℕ) → quiet (unmarshal d) ≡ true
unfolding unmarshal
unmarshal-quiet d = ground arith
