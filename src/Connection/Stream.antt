-- ===== src/Connection/Stream.antt =====
-- connection.go: `Read` and `Write`, between a stream of bytes and packets. On a closed connection a
-- select in `Write` may still queue a packet, which nobody takes from there.
use gosrt.Common.{
  ℕ, ◌+◌, Bool, true, false, not, ◌&&◌, ◌||◌, Option, none, some, List, [], ◌∷◌, ◌++◌, length, take,
  drop, ltb, ◌==◌, if◌then◌else◌, zero, suc,
}
use gosrt.Circular.{inc, gt, lt}
use gosrt.Packet.Types.{Packet, new_packet, payload_data}
use gosrt.Congestion.Float.{Float64}
use gosrt.Crypto.{Primitives}
use gosrt.Connection.Pop.{Conn, get_timestamp}
use gosrt.Connection.Data.{queue_size}

-- A data packet with its payload and its delivery time.
unfoldable pub data_packet : ℕ → List ℕ → Packet
unfolding new_packet
data_packet clock b = record {
  header = record (new_packet.header) { pkt_tsbpd_time = get_timestamp clock };
  payload = some b;
}

-- What a read returns: the bytes or the packet, `io.EOF`, or nothing yet.
pub data ReadResult {ℓ} (A : Type ℓ) : Type ℓ where
  returns : A → ReadResult A
  eof : ReadResult A
  blocks : ReadResult A

module _ (fl : Float64) (pr : Primitives) where
  -- The loop of `Write`. The first component tells whether all was written; `none` is the end of the
  -- fuel. A read of an empty buffer is an error, unless nothing was asked for.
  unfoldable pub write_loop : ℕ → Conn fl pr → ℕ → Option (Bool × Conn fl pr)
  write_loop zero c clock = none
  write_loop (suc fuel) c clock =
      let n = c.write_data_size in
      let c' = record c {
        write_queue = c.write_queue ++ (data_packet clock (take n c.write_buffer) ∷ []);
        write_buffer = drop n c.write_buffer;
      } in
      let rest = write_loop fuel c' clock in
      if (length c.write_buffer == 0) && not (n == 0)
      then some (false, c)
      else if c.closed || not (ltb (length c.write_queue) queue_size)
      then some (false, record c { write_buffer = drop n c.write_buffer })
      else if length (drop n c.write_buffer) == 0
      then some (true, c')
      else rest

  -- The number of bytes, or `none` for `io.EOF`.
  abbrev pub result_of : ℕ → Option (Bool × Conn fl pr) → Option (Option ℕ × Conn fl pr)
  result_of n none = none
  result_of n (some (true, c)) = some (some n, c)
  result_of n (some (false, c)) = some (none, c)

  -- `Write`. Each round fills a place of the queue, so there are no more rounds than places, and one.
  unfoldable pub write : Conn fl pr → ℕ → List ℕ → Option (Option ℕ × Conn fl pr)
  write c clock b =
      result_of (length b)
        (write_loop (queue_size + 1) (record c { write_buffer = c.write_buffer ++ b }) clock)

  -- `WritePacket`: whether it went well.
  unfoldable pub write_packet : Conn fl pr → ℕ → Packet → Option (Bool × Conn fl pr)
  write_packet c clock p =
      if p.header.is_control_packet then some (true, c) else elim (write c clock (payload_data p)) [
        | none ↦ none
        | some (none, c') ↦ some (false, c')
        | some (some n, c') ↦ some (true, c')
      ]

  unfoldable pub take_packet : Conn fl pr → Packet → List Packet → ReadResult Packet × Conn fl pr
  take_packet c p ps =
      let n = p.header.packet_sequence_number in
      if not (gt n c.expected_read_packet_sequence_number)
        && lt n c.expected_read_packet_sequence_number
      then (eof, record c { read_queue = ps })
      else (returns p, record c { read_queue = ps; expected_read_packet_sequence_number = inc n })

  -- `ReadPacket`. Where the connection is closed and a packet waits, `select` picks either:
  -- `picks_done` says which.
  unfoldable pub read_packet : Conn fl pr → Bool → ReadResult Packet × Conn fl pr
  unfolding take_packet
  read_packet c picks_done = elim c.read_queue [
    | [] ↦ (if c.closed then eof else blocks, c)
    | p ∷ ps ↦ if c.closed && picks_done then (eof, c) else take_packet c p ps
  ]

  -- The read of at most `n` bytes from the buffer, which is empty only after an empty packet.
  unfoldable pub read_buffered : Conn fl pr → ℕ → ReadResult (List ℕ) × Conn fl pr
  read_buffered c n =
      if (length c.read_buffer == 0) && not (n == 0)
      then (eof, c)
      else (returns (take n c.read_buffer), record c { read_buffer = drop n c.read_buffer })

  -- `Read` into a slice of `n` bytes.
  unfoldable pub read : Conn fl pr → Bool → ℕ → ReadResult (List ℕ) × Conn fl pr
  unfolding read_buffered
  read c picks_done n =
      if not (length c.read_buffer == 0)
      then read_buffered c n
      else (let (p, c') = read_packet c picks_done in
          elim p [
            | returns p ↦ read_buffered (record c' { read_buffer = payload_data p }) n
            | eof ↦ (eof, c')
            | blocks ↦ (blocks, c')
          ])
