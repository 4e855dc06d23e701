-- ===== src/Lib.antt =====
-- A verification library for go-udt, an implementation of the UDT protocol (a reliable transport
-- over UDP) in Go.
--
-- The program. A multiplexer (udt/multiplexer.go) shares one UDP connection among sockets; it parses
-- each datagram (udt/packet/packet.go, ReadPacketFrom) and hands the packet to the listener or to the
-- socket that it is for. A socket (udt/udtsocket.go) makes the handshake, and has three parts that
-- run as goroutines and talk over channels: the sender (udt/udtsocket_send.go), the receiver
-- (udt/udtsocket_recv.go) and the congestion control (udt/udtsocket_cc.go). They keep packets that
-- are pending, lost or out of order in heaps (udt/*_heap.go), ordered by sequence number
-- (udt/packet/pktseq.go).
--
-- The files.
--   Common            shared names; lists, tests and integers over the native numbers; Run, the
--                     outcome of a Go function that returns an error or panics
--   Packet            udt/packet. PktSeq is PacketID (Incr, Decr, Add, BlindDiff) and the loops
--                     over it. Slice is the byte slice that WriteTo writes and readFrom reads; Wire,
--                     Reads and Safe are the judgements by which each packet type is treated.
--                     Header is packet.go's ctrlHeader, then one file for each packet type (its
--                     record, write_to, read_from, and its layout as wire and size). Any is the
--                     Packet interface as a sum, and ReadPacketFrom; TypeName PacketTypeName.
--   Udt.Heap          Go's container/heap over a slice (Init, Push, Remove)
--   Udt.Search        the loops of Find and Min that the six heaps share
--   Udt.Heaps         the six heaps: entries, Less, Find, Min, Remove, Prune
--   Udt.Send          the sender: State has udtSocketSend as a record; Expire has processSendExpire
--                     and sendDataPacket; Data processDataMsg; Loss processSendLoss; Nak ingestNak;
--                     Ack ingestAck, ingestLightAck and ingestCongestion; Timer resetEXP, expEvent,
--                     configureHandshake and newUdtSocketSend; Events the rounds of goSendEvent
--   Udt.Listener      the SYN cookies of the listener (udt/listener.go: genSynCookie, checkSynCookie,
--                     goBumpSynEpoch), where the hash is a parameter, whose Sum appends to its
--                     argument; State has newSocket and sendPacket of the multiplexer
--                     (udt/multiplexer.go); Accept is readHandshake and rejectHandshake
--   Udt.Monad         the handlers of the goroutines as state and effects; Udt.Address net.UDPAddr
--   Udt.Socket        a socket (udt/udtsocket.go): State has newSocket, isOpen and udtSocket as a
--                     record; Handshake sendHandshake and readHandshake; Manage startConnect,
--                     startRendezvous, shutdown, readPacket and the rounds of goManageConnection;
--                     Read Read and fetchReadPacket; Deadline setDeadline; Write Write; Close Close up
--                     to its wait. Life is its step relation, Exchange a handshake between a client
--                     and a server
--   Udt.Recv          the receiver: State has udtSocketRecv as a record; Speeds getRcvSpeeds; Ack
--                     sendACK, sendLightACK, ackEvent and ingestAck2; Assemble attemptProcessPacket;
--                     Data ingestData and sendNAK; Events ingestMsgDropReq and the rounds of
--                     goReceiveEvent. Sound has an invariant, and a rule for each call of a
--                     handler
--   Udt.Cong          congestion control. State is the interface (udt/congestion.go), udtSocketCc with
--                     the methods of CongestionControlParms (udt/udtsocket_cc.go), and
--                     SetPacketSendPeriod of the sender; Msg and Plumbing the messages and
--                     goCongestionEvent; Calls the calls of a control that belong to them; Native
--                     NativeCongestionControl (udt/congestion_native.go), with its object in
--                     Native.Object and its arithmetic in Native.Rate, and Native.Reference a control
--                     without an object; Stores what the sender and the receiver see of it
--   Udt.Mux           the multiplexer (udt/multiplexer.go): State has its tables, closeSocket,
--                     checkLive and sendPacket; Route readPacket, with the calls of the listener and
--                     the sockets; Life the steps of a program with it; Listen listenUDT, Accept and
--                     Close of a listener (udt/listener.go); Dial dialUDT and rendezvousUDT
--                     (udt/udt.go)
--   Udt.Estimates     the round trip time and the peer's rates that a socket keeps
--                     (udt/udtsocket.go: applyRTT, applyReceiveRates)
-- Theorems stand in child modules named for what they are about, runs at concrete values in Tests.
--
-- How code is modelled. A sequence number is its uint32, and integers wrap around where Go's do; a
-- time or a duration is a number of nanoseconds, without a bound, and what Go's clock returns is an
-- argument. A handler of a goroutine maps its state to the new state and the list of what it puts on
-- channels, in order; `none` stands for a handler that never returns or panics. A nil slice is
-- `none`, and a list is read off the channel before the handler runs. The times of the packets that
-- reach the receiver do not go back. FloydRivest.Buckets, which is third-party code, is a field of the
-- receiver's context, with the property that it keeps a slice's length where a theorem needs it.
-- Also parameters are float64 and the package math, which the congestion control computes with:
-- Float64 has the operations, and a theorem names what it needs of them. There, a Duration is a signed
-- number that wraps around (Common.Int64).
-- The methods of NativeCongestionControl have value receivers, so each works on a copy of the object
-- and `by_value` drops the copy. A time.Timer is as of Go 1.13, the version in go.mod.
--
-- Loops. The fuel of Find and Min is one more than the slice is long: their index at least doubles,
-- unless it stays at the root for ever. Removal loops have the length and one as well, since each
-- round removes an entry. The loops from one sequence number to another have 2 ^ 31, the number of
-- sequence numbers. The loop of sendNAK has as many rounds as the receiver's context says, and the
-- theorems about it are for any number. Those of attemptProcessPacket over pieces have the number of
-- pending packets and one: they look up other numbers in each round, or the same one for ever. The
-- stream loop of Read has three rounds more than there are messages, since only its first and last
-- ones take none. The others recurse on a list.
--
-- Not modelled: the UDP connection, which multiplexerFor, newMultiplexer, goRead and goWrite open,
-- read and write, with discoverMTU and resolveAddr, which ask the system; the map of all multiplexers,
-- but for whether one is in it; the functions of the package and the methods of Config that pass their
-- arguments on to listenUDT, dialUDT and rendezvousUDT; the net.Addr methods and example.go. Nor are
-- the zone of an IPv6 address; the second call of isLive in checkLive, under the lock, since handlers
-- run one after another here; that the content of a user-defined packet is a part of the buffer that
-- it was read from; and which goroutine receives a message on shutdownEvent, for which Close waits.
pub mod Common
pub mod Packet
pub mod Udt
