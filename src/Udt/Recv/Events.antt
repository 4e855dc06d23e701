-- ===== src/Udt/Recv/Events.antt =====
-- ingestMsgDropReq, ingestError and the rounds of goReceiveEvent.
use go_udt.Common.{
  ℕ, zero, suc, ◌^◌, Bool, true, false, List, [], ◌∷◌, Option, none, some, length, ◌==◌,
  if◌then◌else◌,
}
use go_udt.Common.Int.{pos, negsuc}
use mathlib.Core.Option
use go_udt.Packet.PktSeq.{PacketId, add}
use go_udt.Packet.PktSeq.Walk.{walk}
use go_udt.Packet.MsgDropReq.{MsgDropReqPacket}
use go_udt.Packet.SpecialErr.{ErrPacket}
use go_udt.Packet.Any.{Packet, ack2, msg_drop_req, data_pkt, special_err}
use go_udt.Udt.Heaps.RecvLoss
use go_udt.Udt.Heaps.RecvLoss.{RecvLossEntry}
use go_udt.Udt.Heaps.DataPackets
use go_udt.Packet.Data.{DataPacket}
use go_udt.Udt.Recv.State.{
  UdtSocketRecv, Handler, Context, entry_at, nil_if_empty, ◌>>=◌, ◌>>◌, return, get, put, stop,
  need_some,
}
use go_udt.Udt.Recv.Ack.{ack_event, ingest_ack2}
use go_udt.Udt.Recv.Assemble.{attempt_process_packet}
use go_udt.Udt.Recv.Data.{ingest_data}

-- A Find with the heap.Remove of what it finds, which is what the heaps' Remove does
unfoldable pub drop_loss :
    PacketId → Option (List RecvLossEntry) → Option (Option (List RecvLossEntry))
unfolding RecvLoss.remove
drop_loss id none = some none
drop_loss id (some h) = Option.map (λ r. some r.0) (RecvLoss.remove h id)

unfoldable pub drop_pending :
    PacketId → Option (List DataPacket) → Option (Option (List DataPacket))
unfolding DataPackets.remove
drop_pending id none = some none
drop_pending id (some h) = Option.map (λ r. some r.0) (DataPackets.remove h id)

-- `for pktID := p.FirstSeq; pktID != stopSeq; pktID.Incr() { … }`
unfoldable pub drop_all : List PacketId → Handler (Unit {0})
unfolding drop_loss drop_pending
drop_all [] = return tt
drop_all (id ∷ ids) = do
  s ← get
  loss ← need_some (drop_loss id s.recv_loss_list)
  pend ← need_some (drop_pending id s.recv_pkt_pend)
  put (record s { recv_loss_list = loss; recv_pkt_pend = pend })
  drop_all ids

-- `if p.FirstSeq == s.farRecdPktSeq.Add(1) { … }` and the two behind it
unfoldable pub settle : MsgDropReqPacket → UdtSocketRecv → UdtSocketRecv
unfolding add
settle p s =
    let far_recd =
      if p.first_seq == add s.far_recd_pkt_seq (pos 1) then p.last_seq else s.far_recd_pkt_seq in
    record s {
      far_recd_pkt_seq = elim s.recv_loss_list [
        | some [] ↦ add s.far_next_pkt_seq (negsuc 0)
        | _ ↦ far_recd
      ];
      recv_loss_list = elim s.recv_loss_list [ none ↦ none | some h ↦ nil_if_empty h ];
      recv_pkt_pend = elim s.recv_pkt_pend [ none ↦ none | some h ↦ nil_if_empty h ];
    }

-- `for s.recvPktPend != nil && stopSeq != s.farNextPktSeq { … }`. A round that goes on takes a
-- packet off the heap, or leaves it as it is, and then the loop does not end.
unfoldable pub push_loop : ℕ → Context → PacketId → Handler (Unit {0})
unfolding DataPackets.min attempt_process_packet
push_loop zero c stop_seq = stop
push_loop (suc fuel) c stop_seq = do
  s ← get
  elim s.recv_pkt_pend [
    | none ↦ return tt
    | some pend ↦ elim (stop_seq == s.far_next_pkt_seq) [
      | true ↦ return tt
      | false ↦ do
        next ← need_some (entry_at pend (DataPackets.min pend stop_seq s.far_next_pkt_seq))
        elim next [
          | none ↦ return tt
          | some (i, p) ↦ do
            processed ← attempt_process_packet c p false
            elim processed [ true ↦ push_loop fuel c stop_seq | false ↦ return tt ]
        ]
    ]
  ]

abbrev pub pending_count : Option (List DataPacket) → ℕ
pending_count none = 0
pending_count (some h) = length h

unfoldable pub ingest_msg_drop_req : Context → MsgDropReqPacket → Handler (Unit {0})
unfolding add walk drop_all settle push_loop
ingest_msg_drop_req c p = do
  let stop_seq = add p.last_seq (pos 1)
  ids ← need_some (walk (2 ^ 31) p.first_seq stop_seq)
  drop_all ids
  s ← get
  put (settle p s)
  s ← get
  push_loop (suc (pending_count s.recv_pkt_pend)) c stop_seq

abbrev pub ingest_error : ErrPacket → Handler (Unit {0})
ingest_error p = return tt

-- What goReceiveEvent's `select` receives.
pub data RecvEvent : Type 0 where
  recv_pkt : Packet → ℕ → RecvEvent
  recv_event_closed sock_shutdown sock_closed : RecvEvent
  ack_sent ack_sent2 ack_timer : RecvEvent

-- `switch sp := evt.pkt.(type) { … }`
unfoldable pub ingest : Context → Packet → ℕ → Handler (Unit {0})
unfolding ingest_ack2 ingest_msg_drop_req ingest_data
ingest c (ack2 p) now = ingest_ack2 p now
ingest c (msg_drop_req p) now = ingest_msg_drop_req c p
ingest c (data_pkt p) now = ingest_data c p now
ingest c (special_err p) now = ingest_error p
ingest c _ now = return tt

-- `false` where the goroutine returns
unfoldable pub on_event : Context → RecvEvent → Handler Bool
unfolding ingest ack_event
on_event c (recv_pkt p now) = do ingest c p now; return true
on_event c recv_event_closed = return false
on_event c sock_shutdown = return false
on_event c sock_closed = return false
on_event c ack_sent = do s ← get; put (record s { ack_sent_event = none }); return true
on_event c ack_sent2 = do s ← get; put (record s { ack_sent_event2 = none }); return true
on_event c ack_timer = do ack_event c; return true
