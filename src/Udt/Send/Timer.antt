-- ===== src/Udt/Send/Timer.antt =====
-- newUdtSocketSend, configureHandshake, resetEXP and expEvent. Durations are nanoseconds.
use go_udt.Common.{
  ℕ, ◌+◌, ◌-◌, ◌*◌, ◌^◌, Bool, true, false, ◌&&◌, List, Option, none, some, ltb, if◌then◌else◌,
}
use go_udt.Common.Int.{pos}
use go_udt.Packet.PktSeq.{PacketId, add}
use go_udt.Packet.PktSeq.Walk.{walk}
use go_udt.Packet.Handshake.{HandshakePacket}
use go_udt.Packet.Any
use go_udt.Udt.Heap
use go_udt.Udt.Heaps.PacketIds
use go_udt.Udt.Send.State.{
  UdtSocketSend, Socket, idle, process_drop, Handler, shutdown_event, timeout, cong_timeout,
  send_packet, return, get, put, emit, stop, ◌>>=◌, ◌>>◌,
}

abbrev pub min_exp_interval : ℕ
min_exp_interval = 300_000_000

abbrev pub syn_time : ℕ
syn_time = 10_000_000

-- The timer runs for the duration that `exp_timer_event` holds.
unfoldable pub reset_exp : ℕ → Socket → UdtSocketSend → UdtSocketSend
reset_exp now sock s =
    let from_rtt = s.exp_count * (sock.rtt + 4 * sock.rtt_var) * 1000 + syn_time in
    let min_exp_time = s.exp_count * min_exp_interval in
    let next_exp_durn =
      if ltb 0 s.rto_period
      then s.rto_period
      else if ltb from_rtt min_exp_time
      then min_exp_time
      else from_rtt in
    record s { last_recv_time = now; exp_timer_event = some next_exp_durn }

-- newUdtSocketSend, from the socket's initPktSeq, maxFlowWinSize and created
unfoldable pub new_udt_socket_send : PacketId → ℕ → ℕ → Socket → UdtSocketSend
unfolding reset_exp
new_udt_socket_send init_pkt_seq max_flow_win_size created sock = reset_exp created sock (record {
  send_state = idle;
  send_pkt_pend = none;
  send_pkt_seq = init_pkt_seq;
  msg_partial_send = none;
  msg_seq = 0;
  exp_count = 1;
  last_recv_time = 0;
  recv_ack_seq = 0;
  sent_ack2 = 0;
  send_loss_list = none;
  snd_period = 0;
  rto_period = 0;
  congest_window = 16;
  flow_window_size = max_flow_win_size;
  snd_event = false;
  ack2_sent_event = false;
  exp_timer_event = none;
})

unfoldable pub configure_handshake : HandshakePacket → Bool → UdtSocketSend → UdtSocketSend
configure_handshake p reset_seq s =
    let s' =
      if reset_seq
      then record s { recv_ack_seq = p.init_pkt_seq; send_pkt_seq = p.init_pkt_seq }
      else s in
    record s' { flow_window_size = p.max_flow_win_size }

-- `for span := s.recvAckSeq.Add(1); span != s.sendPktSeq.Add(1); span.Incr() { … }`
abbrev pub unacknowledged : UdtSocketSend → Option (List PacketId)
unfolding add walk
unacknowledged s = walk (2 ^ 31) (add s.recv_ack_seq (pos 1)) (add s.send_pkt_seq (pos 1))

-- `if s.sendLossList == nil { … }`
unfoldable pub lose_all : Handler (Unit {0})
unfolding Heap.init add walk
lose_all = do
  s ← get
  elim s.send_loss_list [
    | some loss ↦ return tt
    | none ↦ elim (unacknowledged s) [
      | none ↦ stop
      | some ids ↦ put (record s { send_loss_list = some (Heap.init PacketIds.less ids) })
    ]
  ]

abbrev keep_alive_packet : Any.Packet
keep_alive_packet = Any.keep_alive (record { hdr = record { ts = 0; dst_sock_id = 0 } })

-- What expEvent does where packets are pending and where none are, before the count and the timer.
unfoldable pub exp_recover : Handler (Unit {0})
unfolding lose_all
exp_recover = do
  s ← get
  elim s.send_pkt_pend [
    | none ↦ emit (send_packet keep_alive_packet)
    | some pend ↦ do
      lose_all
      emit cong_timeout
      s ← get
      put (record s { send_state = process_drop })
  ]

unfoldable pub exp_event : ℕ → Socket → Handler (Unit {0})
unfolding exp_recover reset_exp
exp_event curr_time sock = do
  s ← get
  elim (ltb 16 s.exp_count && ltb 5_000_000_000 (curr_time - s.last_recv_time)) [
    | true ↦ emit (shutdown_event timeout true)
    | false ↦ do
      exp_recover
      s ← get
      put (reset_exp curr_time sock (record s { exp_count = s.exp_count + 1 }))
  ]
