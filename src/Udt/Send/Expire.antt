-- ===== src/Udt/Send/Expire.antt =====
-- processSendExpire and sendDataPacket. `now` is what time.Now() returns in the handler.
pub mod Pending
use go_udt.Common.{
  ℕ, ◌+◌, ◌%◌, Bool, true, false, not, ◌&&◌, List, [], ◌∷◌, Option, none, some, ltb, ◌==◌,
  if◌then◌else◌,
}
use go_udt.Common.Int.{is_neg, is_pos}
use go_udt.Packet.Header.{CtrlHeader}
use go_udt.Packet.PktSeq.{PacketId, blind_diff}
use go_udt.Packet.Data.{DataPacket, get_message_data}
use go_udt.Packet.MsgDropReq.{MsgDropReqPacket}
use go_udt.Packet.Any.{data_pkt, msg_drop_req}
use go_udt.Udt.Heap
use go_udt.Udt.Search.{found, missing}
use go_udt.Udt.Heaps.PacketIds
use go_udt.Udt.Heaps.SendPackets
use go_udt.Udt.Heaps.SendPackets.{SendPacketEntry}
use go_udt.Udt.Send.State.{
  UdtSocketSend, Handler, SendState, sending, waiting, Effect, send_packet, cong_data_pkt_sent,
  return, get, put, emit, stop, ◌>>=◌, ◌>>◌, reeval_send_state,
}

-- `p.ttl != 0 && time.Now().Add(p.ttl).After(p.tim)`
abbrev pub is_expired : ℕ → SendPacketEntry → Bool
is_expired now p = not (p.ttl == 0) && ltb p.tim (now + p.ttl)

abbrev pub msg_no : SendPacketEntry → ℕ
unfolding get_message_data
msg_no p = (get_message_data p.pkt).2

-- The packet `p` counted into the range of the request. The code widens the range by `p`, also
-- where it has found another packet of the message.
abbrev pub widen : SendPacketEntry → MsgDropReqPacket → MsgDropReqPacket
unfolding blind_diff
widen p drop_msg = record drop_msg {
  first_seq =
      if is_pos (blind_diff drop_msg.first_seq p.pkt.seq) then p.pkt.seq else drop_msg.first_seq;
  last_seq =
      if is_neg (blind_diff drop_msg.last_seq p.pkt.seq) then p.pkt.seq else drop_msg.last_seq;
}

-- `if _, slIdx := s.sendLossList.Find(seq); slIdx >= 0 { heap.Remove(&s.sendLossList, slIdx) }`
unfoldable pub drop_loss : PacketId → List PacketId → Option (List PacketId)
unfolding PacketIds.find Heap.remove
drop_loss id h = elim (PacketIds.find h id) [
  | found i ↦ Heap.remove PacketIds.less h i
  | missing ↦ some h
  | _ ↦ none
]

-- `for _, op := range pktPend { … }`
unfoldable pub message_loop :
    SendPacketEntry
    → List SendPacketEntry
    → MsgDropReqPacket
    → Option (List PacketId)
    → Option (MsgDropReqPacket × Option (List PacketId))
unfolding drop_loss
message_loop p [] drop_msg loss = some (drop_msg, loss)
message_loop p (op ∷ ops) drop_msg loss =
    let drop_msg' = if msg_no op == msg_no p then widen p drop_msg else drop_msg in
    elim loss [
      | none ↦ message_loop p ops drop_msg' none
      | some h ↦ elim (drop_loss p.pkt.seq h) [
        | none ↦ none
        | some h' ↦ message_loop p ops drop_msg' (some h')
      ]
    ]

-- `if x != nil && len(x) == 0 { x = nil }`
abbrev pub nil_if_empty : {A : Type 0} → Option (List A) → Option (List A)
nil_if_empty none = none
nil_if_empty (some []) = none
nil_if_empty (some (x ∷ xs)) = some (x ∷ xs)

abbrev no_header : CtrlHeader
no_header = record { ts = 0; dst_sock_id = 0 }

abbrev pub drop_request : SendPacketEntry → MsgDropReqPacket
drop_request p = record {
  hdr = no_header;
  msg_id = msg_no p;
  first_seq = p.pkt.seq;
  last_seq = p.pkt.seq;
}

-- `for _, p := range pktPend { … }`, with the whole of pktPend
unfoldable pub expire_loop : ℕ → List SendPacketEntry → List SendPacketEntry → Handler Bool
unfolding message_loop
expire_loop now pend [] = return false
expire_loop now pend (p ∷ ps) = elim (is_expired now p) [
  | false ↦ expire_loop now pend ps
  | true ↦ do
    s ← get
    elim (message_loop p pend (drop_request p) s.send_loss_list) [
      | none ↦ stop
      | some (drop_msg, loss) ↦ do
        put (record s { send_loss_list = nil_if_empty loss })
        emit (send_packet (msg_drop_req drop_msg))
        return true
    ]
]

unfoldable pub process_send_expire : ℕ → Handler Bool
unfolding expire_loop
process_send_expire now = do
  s ← get
  elim s.send_pkt_pend [ none ↦ return false | some pend ↦ expire_loop now pend pend ]

-- `s.sendPktPend = sendPacketHeap{dp}; heap.Init(&s.sendPktPend)`, or a Push on the heap there is
abbrev pub pend_with : SendPacketEntry → Option (List SendPacketEntry) → List SendPacketEntry
unfolding Heap.init Heap.push
pend_with dp none = Heap.init SendPackets.less (dp ∷ [])
pend_with dp (some h) = Heap.push SendPackets.less h dp

-- The end of sendDataPacket: `snd := s.sndPeriod.get(); if snd > 0 { … }`
unfoldable pub wait_snd : Handler (Unit {0})
wait_snd = do
  s ← get
  if ltb 0 s.snd_period
      then put (record s { snd_event = true; send_state = sending })
      else return tt

-- `s.sendState == sendStateWaiting`
abbrev pub is_waiting : SendState → Bool
is_waiting waiting = true
is_waiting _ = false

unfoldable pub send_data_packet : ℕ → SendPacketEntry → Bool → Handler (Unit {0})
unfolding reeval_send_state process_send_expire wait_snd
send_data_packet now dp is_resend = do
  s ← get
  put (record s { send_pkt_pend = some (pend_with dp s.send_pkt_pend) })
  emit (cong_data_pkt_sent dp.pkt.seq)
  emit (send_packet (data_pkt dp.pkt))
  s ← get
  let state = reeval_send_state s
  put (record s { send_state = state })
  elim (is_waiting state) [
    | true ↦ return tt
    | false ↦
        if not is_resend && (dp.pkt.seq % 16 == 0)
        then (do process_send_expire now; return tt)
        else wait_snd
  ]
