-- ===== src/Udt/Recv/Ack.antt =====
-- sendLightACK, sendACK, ackEvent and ingestAck2.
pub mod Link
use go_udt.Common.{
  ℕ, zero, suc, ◌+◌, ◌-◌, ◌*◌, ◌/◌, ◌%◌, ◌^◌, Bool, true, false, ◌&&◌, List, [], ◌∷◌, Option, none,
  some, ltb, ◌==◌, if◌then◌else◌,
}
use go_udt.Common.Int.{ℤ, pos, negsuc, is_neg}
use go_udt.Packet.PktSeq.{PacketId, add, blind_diff}
use go_udt.Packet.Header.{CtrlHeader}
use go_udt.Packet.Ack.{AckPacket}
use go_udt.Packet.Ack2.{Ack2Packet}
use go_udt.Packet.Any.{ack, light_ack}
use go_udt.Udt.Heap
use go_udt.Udt.Heaps.AckHistory
use go_udt.Udt.Heaps.AckHistory.{AckHistoryEntry}
use go_udt.Udt.Send.Timer.{syn_time}
use go_udt.Udt.Recv.State.{
  UdtSocketRecv, Effect, send_packet, apply_rtt, Handler, Context, entry_at, ◌>>=◌, ◌>>◌, return,
  get, put, emit, need_some,
}
use go_udt.Udt.Recv.Speeds.{get_rcv_speeds}

abbrev pub no_header : CtrlHeader
no_header = record { ts = 0; dst_sock_id = 0 }

-- `if s.recvLossList == nil { ack = s.farNextPktSeq } else { … }`
unfoldable pub ack_number : UdtSocketRecv → PacketId
unfolding add
ack_number s = elim s.recv_loss_list [
  | none ↦ s.far_next_pkt_seq
  | some h ↦ add s.far_recd_pkt_seq (pos 1)
]

unfoldable pub send_light_ack : Handler (Unit {0})
unfolding ack_number
send_light_ack = do
  s ← get
  elim (ack_number s == s.recv_ack2) [
    | true ↦ return tt
    | false ↦ emit (send_packet (light_ack (record { hdr = no_header; pkt_seq_hi = ack_number s })))
  ]

-- `availWindow`, as a uint32: `numPendPackets` is the difference less 1
unfoldable pub avail_window : ℕ → ℤ → ℕ
avail_window max_flow_win_size diff =
    let avail : ℕ = elim diff [
      | pos n ↦ max_flow_win_size + 1 - n
      | negsuc n ↦ max_flow_win_size + n + 2
    ] in
    (if ltb avail 2 then 2 else avail) % 2 ^ 32

abbrev pub is_some : {A : Type 0} → Option A → Bool
is_some none = false
is_some (some a) = true

-- The history with a new entry
abbrev pub add_history : AckHistoryEntry → Option (List AckHistoryEntry) → List AckHistoryEntry
unfolding Heap.init Heap.push
add_history e none = Heap.init AckHistory.less (e ∷ [])
add_history e (some h) = Heap.push AckHistory.less h e

-- `p := &packet.AckPacket{ … }`
unfoldable pub ack_packet : Context → PacketId → UdtSocketRecv → AckPacket
unfolding blind_diff avail_window
ack_packet c number s = record {
  hdr = no_header;
  ack_seq_no = s.last_ack;
  pkt_seq_hi = number;
  rtt = c.rtt % 2 ^ 32;
  rtt_var = c.rtt_var % 2 ^ 32;
  buff_avail = avail_window c.max_flow_win_size (blind_diff s.far_next_pkt_seq s.far_recd_pkt_seq);
  include_link = false;
  pkt_recv_rate = 0;
  est_link_cap = 0;
}

-- `if s.ackSentEvent2 == nil { … }`
unfoldable pub add_link : Context → AckPacket → Handler AckPacket
unfolding get_rcv_speeds
add_link c p = do
  s ← get
  elim s.ack_sent_event2 [
    | some d ↦ return p
    | none ↦ do
      speeds ← need_some (get_rcv_speeds c.buckets s)
      put (record s { ack_sent_event2 = some syn_time })
      return (record p {
        include_link = true;
        pkt_recv_rate = speeds.0 % 2 ^ 32;
        est_link_cap = speeds.1 % 2 ^ 32;
      })
  ]

-- The state behind `s.sentAck = ack`, with the new entry in the history
unfoldable pub with_sent : Context → PacketId → UdtSocketRecv → UdtSocketRecv
unfolding add_history
with_sent c number s =
    let last = (s.last_ack + 1) % 2 ^ 32 in
    record s {
      sent_ack = number;
      last_ack = last;
      ack_history = some (
          add_history (record { ack_id = last; last_packet = number; send_time = c.clock })
            s.ack_history);
    }

-- What sendACK does behind its guards
unfoldable pub new_ack : Context → PacketId → Handler (Unit {0})
unfolding ack_packet add_link with_sent
new_ack c number = do
  s ← get
  put (with_sent c number s)
  s ← get
  p ← add_link c (ack_packet c number s)
  emit (send_packet (ack p))
  s ← get
  put (record s { ack_sent_event = some ((c.rtt + 4 * c.rtt_var) * 1000) })

unfoldable pub send_ack : Context → Handler (Unit {0})
unfolding ack_number new_ack
send_ack c = do
  s ← get
  elim (ack_number s == s.recv_ack2) [
    | true ↦ return tt
    | false ↦ elim ((ack_number s == s.sent_ack) && is_some s.ack_sent_event) [
      | true ↦ return tt
      | false ↦ new_ack c (ack_number s)
    ]
  ]

unfoldable pub ack_event : Context → Handler (Unit {0})
unfolding send_ack
ack_event c = do
  send_ack c
  s ← get
  put (record s {
    ack_timer_event = some (if ltb 0 s.ack_period then s.ack_period else syn_time);
    unack_pkt_count = 0;
    light_ack_count = 1;
  })

unfoldable pub ingest_ack2 : Ack2Packet → ℕ → Handler (Unit {0})
unfolding blind_diff AckHistory.find Heap.remove
ingest_ack2 p now = do
  s ← get
  elim s.ack_history [
    | none ↦ return tt
    | some h ↦ do
      at ← need_some (entry_at h (AckHistory.find h p.ack_seq_no))
      elim at [
        | none ↦ return tt
        | some (i, e) ↦ do
          h' ← need_some (Heap.remove AckHistory.less h i)
          put (record s {
            recv_ack2 =
                if is_neg (blind_diff s.recv_ack2 e.last_packet)
                then e.last_packet
                else s.recv_ack2;
            ack_history = some h';
            largest_ack = if ltb s.largest_ack p.ack_seq_no then p.ack_seq_no else s.largest_ack;
          })
          emit (apply_rtt ((now - e.send_time) / 1000))
      ]
  ]
