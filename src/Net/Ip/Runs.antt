-- ===== src/Net/Ip/Runs.antt =====
-- The address ::1.
use gosrt.Common.{◌≡◌, arith, some}
use gosrt.Packet.Wire.{ok}
use gosrt.Net.Ip.{ipv4, unmarshal, marshal}
use gosrt.Net.Ip.Loopback.{low, unmarshal-marshal-low}

unmarshal-marshal-low_example : unmarshal (marshal (some (low 0 0 0 1))) ≡ ok (ipv4 0 0 0 1)
unmarshal-marshal-low_example =
    unmarshal-marshal-low 0 0 0 1 (omega arith) (omega arith) (omega arith) (omega arith)
      (omega arith)
