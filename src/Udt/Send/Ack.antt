-- ===== src/Udt/Send/Ack.antt =====
-- ingestLightAck, ingestAck and ingestCongestion.
pub mod Window
pub mod Release
use go_udt.Common.{
  ℕ, zero, suc, ◌+◌, ◌*◌, ◌/◌, ◌%◌, ◌^◌, Bool, true, false, not, ◌&&◌, List, [], ◌∷◌, Option, none,
  some, length, get_elem?, ◌==◌, if◌then◌else◌,
}
use go_udt.Common.Int.{ℤ, pos, negsuc, is_pos, is_neg}
use go_udt.Packet.PktSeq.{PacketId, blind_diff}
use go_udt.Packet.Header.{CtrlHeader}
use go_udt.Packet.Ack.{AckPacket}
use go_udt.Packet.Ack2.{Ack2Packet}
use go_udt.Packet.LightAck.{LightAckPacket}
use go_udt.Packet.Any
use go_udt.Udt.Heap
use go_udt.Udt.Search.{Search, found, missing, out_of_fuel, out_of_range}
use go_udt.Udt.Heaps.{less_by}
use go_udt.Udt.Heaps.PacketIds
use go_udt.Udt.Heaps.SendPackets
use go_udt.Udt.Heaps.SendPackets.{SendPacketEntry}
use go_udt.Udt.Send.State.{
  UdtSocketSend, Handler, Effect, send_packet, apply_rtt, apply_receive_rates, cong_ack, return,
  get, put, emit, stop, ◌>>=◌, ◌>>◌,
}
use go_udt.Udt.Send.Expire.{nil_if_empty}
use go_udt.Udt.Send.Nak.{assert_valid_sent_pkt_id}

-- `uint(diff)`, of a positive difference
abbrev pub magnitude : ℤ → ℕ
magnitude (pos n) = n
magnitude (negsuc n) = 0

unfoldable pub ingest_light_ack : LightAckPacket → UdtSocketSend → UdtSocketSend
unfolding blind_diff
ingest_light_ack p s =
    let diff = blind_diff p.pkt_seq_hi s.recv_ack_seq in
    if is_pos diff
    then record s {
      flow_window_size = (s.flow_window_size + magnitude diff) % 2 ^ 64;
      recv_ack_seq = p.pkt_seq_hi;
    }
    else s

-- The loops that take acknowledged entries from a heap, given its Min. At -1 the entry is
-- `at_none`, or `none` for the nil that the code follows and panics on.
module _ {A : Type 0} (key : A → ℕ) (smallest : List A → Search) (at_none : Option ℕ)
    (hi : PacketId) where
  unfoldable pub release_loop : ℕ → List A → Option (List A)
  unfolding blind_diff Heap.remove
  release_loop zero h = none
  release_loop (suc fuel) h = elim (smallest h) [
    | out_of_fuel ↦ none
    | out_of_range ↦ none
    | missing ↦ elim at_none [ none ↦ none | some k ↦ some h ]
    | found i ↦ elim (get_elem? h i) [
      | none ↦ none
      | some x ↦ elim (is_neg (blind_diff hi (key x))) [
        | false ↦ some h
        | true ↦ elim (Heap.remove (less_by key) h i) [
          | none ↦ none
          | some h' ↦ release_loop fuel h'
        ]
      ]
    ]
  ]

  -- On a heap that is not nil, which is nil where the loop has emptied it.
  abbrev pub release : Option (List A) → Option (Option (List A))
  unfolding release_loop
  release none = some none
  release (some h) = elim (release_loop (suc (length h)) h) [
    | none ↦ none
    | some h' ↦ some (nil_if_empty (some h'))
  ]

abbrev pub release_pend :
    PacketId
    → PacketId
    → PacketId
    → Option (List SendPacketEntry)
    → Option (Option (List SendPacketEntry))
unfolding SendPackets.min release_loop
release_pend old_ack_seq send_pkt_seq hi =
    release SendPackets.key (λ h. SendPackets.min h old_ack_seq send_pkt_seq) none hi

abbrev pub release_loss :
    PacketId → PacketId → PacketId → Option (List PacketId) → Option (Option (List PacketId))
unfolding PacketIds.min release_loop
release_loss old_ack_seq send_pkt_seq hi =
    release PacketIds.key (λ h. PacketIds.min h old_ack_seq send_pkt_seq) (some 0) hi

abbrev ack2_packet : ℕ → Any.Packet
ack2_packet ack_seq_no =
    Any.ack2 (record { hdr = record { ts = 0; dst_sock_id = 0 }; ack_seq_no = ack_seq_no })

-- The answer to an ACK.
unfoldable pub answer_ack : AckPacket → Handler (Unit {0})
answer_ack p = do
  s ← get
  elim (not s.ack2_sent_event && (p.ack_seq_no == s.sent_ack2)) [
    | false ↦ return tt
    | true ↦ do
      emit (send_packet (ack2_packet p.ack_seq_no))
      put (record s { sent_ack2 = p.ack_seq_no; ack2_sent_event = true })
  ]

-- From `oldAckSeq := s.recvAckSeq` on
unfoldable pub accept_ack : AckPacket → Handler (Unit {0})
unfolding SendPackets.min PacketIds.min release_loop
accept_ack p = do
  s ← get
  let s' = record s { flow_window_size = p.buff_avail; recv_ack_seq = p.pkt_seq_hi }
  put s'
  emit (apply_rtt p.rtt)
  (elim p.include_link [
    | false ↦ return tt
    | true ↦ emit (apply_receive_rates p.pkt_recv_rate p.est_link_cap)
  ])
  emit (cong_ack p.pkt_seq_hi)
  elim (release_pend s.recv_ack_seq s.send_pkt_seq p.pkt_seq_hi s.send_pkt_pend) [
    | none ↦ stop
    | some pend ↦ elim (release_loss s.recv_ack_seq s.send_pkt_seq p.pkt_seq_hi s.send_loss_list) [
      | none ↦ stop
      | some loss ↦ put (record s' { send_pkt_pend = pend; send_loss_list = loss })
    ]
  ]

unfoldable pub ingest_ack : AckPacket → Handler (Unit {0})
unfolding answer_ack assert_valid_sent_pkt_id accept_ack blind_diff
ingest_ack p = do
  answer_ack p
  valid ← assert_valid_sent_pkt_id p.pkt_seq_hi
  elim valid [
    | false ↦ return tt
    | true ↦ do
      s ← get
      elim (is_pos (blind_diff p.pkt_seq_hi s.recv_ack_seq)) [
        | false ↦ return tt
        | true ↦ accept_ack p
      ]
  ]

unfoldable pub ingest_congestion : UdtSocketSend → UdtSocketSend
ingest_congestion s = record s { snd_period = s.snd_period * 1125 / 1000 }
