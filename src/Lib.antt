-- ===== src/Lib.antt =====
-- The core of gosrt, an implementation of the SRT protocol in Go: circular sequence numbers, packets
-- and their wire format, the live congestion control with its sender and receiver, encryption and the
-- exchange of keys, the configuration, the connection that joins them, and the handshake with which a
-- dialer and a listener make one.
--
-- How the parts interact. A connection (connection.go) reads packets from a socket and unmarshals
-- them (packet/packet.go). It gives data packets to the receiver (congestion/live/receive.go) with
-- `Push`, and calls `Tick` of the receiver every 10 ms; the receiver then has it send ACK and NAK packets
-- and hands over the packets that are due. Packets to send go to the sender (congestion/live/send.go)
-- with `Push`; `Tick` of the sender hands them over when they are due, and the ACK and NAK packets of the
-- peer come in as `ACK` and `NAK`. Both compare sequence numbers as circular numbers
-- (circular/circular.go) of 31 bits. Every packet leaves through `pop` of the connection, which encrypts
-- data (crypto/crypto.go) and keeps the schedule of the keys: it announces a new key to the peer with a
-- key material message, switches to it, and makes the one after. The connection gives a packet from the
-- network the time of its delivery, which undoes the wrap-around of the 32-bit timestamp, and decrypts
-- it. `Read` and `Write` turn packets into a stream of bytes. A configuration (config.go) is validated
-- before a connection is made with it.
--
-- A dialer (dial.go) opens the handshake with an induction, to which a listener (listen.go,
-- conn_request.go) answers with a cookie (net/syncookie.go) and keeps nothing. The dialer's conclusion,
-- with the cookie, is checked and becomes a connection request, whose socket ids are reserved. `Accept`
-- makes the connection of the listener and answers with a conclusion, with which the dialer makes its
-- own; `Reject` answers with a reason and frees the ids. The readers of both give every other packet to
-- the connection of its destination socket id.
--
-- Which file models which part:
--   Common             numbers with wrap-around, bit masks, lists, Boolean tests
--   Circular           circular/circular.go: Number and all its methods (`lt` for Lt, and so on).
--                      Circular/Offset relates them to the offset ahead of a base, which is how the
--                      proofs about the congestion control read sequence numbers
--   Packet/Types       packet/packet.go: the constants, PacketHeader and pkt
--   Packet/Wire        encoding/binary as packet/packet.go uses it, and the results of parsers: `ok`,
--                      `err`, or `panics` for an index out of range; `reading` stands before what
--                      reads so many bytes of the data
--   Packet/Header      Marshal and Unmarshal of pkt
--   Packet/Ack, Nak, HandshakeExtension, KeyMaterial
--                      Marshal and Unmarshal of CIFACK, CIFNAK, CIFHandshakeExtension and
--                      CIFKeyMaterialExtension
--   Packet/Handshake   Unmarshal of CIFHandshake, and CIFShutdown
--   Packet/HandshakeWriter
--                      Marshal of CIFHandshake
--   Congestion/Float   float64: a type and its operations, without any law, as a parameter
--   Congestion/Stats   congestion/congestion.go: SendStats and ReceiveStats
--   Congestion/Receive congestion/live/receive.go: Defs has the state, NewReceiver, Flush and
--                      SetNAKInterval, PushDefs Push, PeriodicDefs periodicACK and periodicNAK,
--                      TickDefs Tick, StatsDefs Stats and PacketRate; the other modules hold the
--                      proofs
--   Congestion/Send    congestion/live/send.go: Defs has the state, NewSender, Push, Flush and
--                      SetDropThreshold, TickDefs Tick and ACK, NakDefs NAK, StatsDefs Stats
--   Crypto             crypto/crypto.go: New, GenerateSEK, UnmarshalKM, MarshalKM and
--                      EncryptOrDecryptPayload, over the record `Primitives` of crypto/rand, PBKDF2, the
--                      key wrap and AES; Crypto/Exchange has the laws that these keep. The other modules
--                      hold the proofs
--   Config             config.go: Config, its defaults, and Validate
--   Connection/State   connection.go: rtt, connStats, srtConn and newSRTConn
--   Connection/Pop     pop and sendKMRequest
--   Connection/Acks    sendACK, sendNAK, sendACKACK, handleACK and handleACKACK
--   Connection/Hsv4    sendHSRequest, handleHSRequest and handleHSResponse
--   Connection/KeyMessages
--                      handleKMRequest and handleKMResponse
--   Connection/Data    the branch of handlePacket for data packets, and deliver
--   Connection/Close   close, sendShutdown, handleShutdown and handleKeepAlive
--   Connection/Dispatch
--                      handlePacket, handleNAK, push, the two queue readers and the ticker
--   Connection/Stream  Read, ReadPacket, Write and WritePacket
--   Connection/Report, Statistics
--                      statistics.go: the statistics of a connection, and Stats
--   Connection/Unwrapped, Announced, Schedule, Course, Refresh, Chunks, Peers, AckNumbers, Panics
--                      the proofs about connections
--   Common/Maps        the maps of Go, as association lists
--   Rand               rand/rand.go; Rand/Charset holds the proofs
--   Net/Ip             net/ip.go: FromNetAddr, Unmarshal and Marshal of IP; Net/Ip/Loopback
--                      and Ordinary hold the proofs
--   Net/Cookie         net/syncookie.go; Net/Cookie/Verified holds the proofs
--   Listen/State       the state of a listener, and connRequest
--   Listen/Request     conn_request.go: newConnRequest and generateSocketId
--   Listen/Accept      conn_request.go: Accept, Reject and SetPassphrase
--   Listen/Reader      listen.go: reader, Accept2, Accept, handleShutdown, markDone and Close
--   Listen/Acceptable, Outcomes, Checked, Stateless, SmallMtu, Lifecycle, Settled, Registry, Preserved,
--   Moved, Reachable
--                      the proofs about listeners
--   Dial/State         dial.go: the state, DialWithContext, sendInduction, sendShutdown and Close
--   Dial/Handshake     dial.go: handleHandshake
--   Dial/Client        dial.go: reader, checkConnection, Read, ReadPacket, Write and WritePacket
--   Dial/Induction, Conclusion, Accepted, Agreement, Meeting
--                      the handshake of a dialer with a listener, packet by packet
--   Dial/Blocked       the proofs about the reader of a dialer
--   Runs               in each part: concrete runs
--
-- How the model corresponds to the code. A method that changes its object takes the state and returns
-- the new one; what it hands to a callback is the list of calls, in their order. A byte slice is a list
-- of numbers below 256. container/list is a list: an element that is removed is at the front, or in
-- the set that a test selects. Integers are natural numbers with their wrap-around written out. Time
-- is an argument. A packet is a value: where the sender changes a packet that its loss list holds, the
-- list is changed. A method holds its lock throughout, or for each of the parts of Tick; the parts of
-- one Tick follow each other without another call between them. A handler of the connection returns
-- the new connection and what it has for the outside (packets to send, timers, the shutdown), or `none`
-- where the code panics; it runs to its end before the next. A packet that the sender keeps for
-- retransmission is the packet that `pop` changes, so its entry in the loss list is written back. The
-- queues are lists of at most 1024 packets. The map of connections by peer refers to the one by socket
-- id, which owns the connections. The parameters of the handshake are MD5, the random source, and, for
-- each call, the time since the start of the dialer or the listener and the counter of the cookie. The
-- channel of responses of a dialer is the list of those that nobody took, where the second is the one that
-- the reader waits with. A tick of the receiver reports the rates as they were when it
-- began, as the code does.
--
-- Bounds. Every loop of the code is over a list or over the bytes, and is a structural recursion; the
-- loop of the handshake over its extensions has the length of the data as fuel, and each round uses
-- four bytes or more. The loop of `Write` has one more than the places of the queue as fuel, since each
-- round fills one. The fuel of `int63n` and of `random_string` is the number of further draws for one
-- number, which the code does not bound either: each is too large with less than half the chance.
-- `FormatInt` has 20 digits as fuel, as many as 64 bits need. A packet is in reach of a receiver when it lies less than half a circle ahead of
-- the last delivered one, or counts as behind it.
--
-- Not modelled: the goroutines of a connection as interleaved steps, URLs of configurations, publish
-- and subscribe, logging, String and Dump, sockets, the deadlines and getters of connections, dialers
-- and requests, the pool of buffers, the local addresses of packets, the texts of IP addresses, nil writers
-- and statistics, and the fake receiver of tests. In a parser that fails, the fields that were already written are not part of the result.
-- Floating-point results are left to the parameter. A closed connection still runs the handlers
-- that are called.
pub mod Common
pub mod Circular
pub mod Packet
pub mod Congestion
pub mod Crypto
pub mod Config
pub mod Connection
pub mod Rand
pub mod Net
pub mod Listen
pub mod Dial
