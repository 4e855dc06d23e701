-- ===== src/Udt/Cong/Calls.antt =====
-- What a control is told of a connection: from the functions that put messages on the channel to the
-- methods that goCongestionEvent calls (udt/udtsocket_cc.go).
use go_udt.Common.{List, [], ◌∷◌, ◌++◌}
use go_udt.Packet.PktSeq.{PacketId}
use go_udt.Packet.Any.{Packet}
use go_udt.Packet.Data.{DataPacket}
use go_udt.Packet.UserDef.{UserDefControlPacket}
use go_udt.Udt.Cong.State.{Moment, UdtSocketCc, Handler, CongestionControl, get, put, ◌>>=◌}
use go_udt.Udt.Cong.Msg
use go_udt.Udt.Cong.Msg.{CongMsg}

-- What the other parts of the socket report, by the functions of the same names.
pub data Report : Type 0 where
  init on_ack on_data_pkt_sent : PacketId → Report
  close on_timeout : Report
  on_nak : List PacketId → Report
  on_pkt_sent : Packet → Report
  on_pkt_recv : DataPacket → Report
  on_custom_msg : UserDefControlPacket → Report

abbrev pub message : Report → CongMsg
message (init seq) = Msg.init seq
message close = Msg.close
message (on_ack id) = Msg.on_ack id
message (on_nak loss) = Msg.on_nak loss
message on_timeout = Msg.on_timeout
message (on_data_pkt_sent id) = Msg.on_data_pkt_sent id
message (on_pkt_sent p) = Msg.on_pkt_sent p
message (on_pkt_recv p) = Msg.on_pkt_recv p
message (on_custom_msg p) = Msg.on_custom_msg p

abbrev pub messages : List (Moment × Report) → List (Moment × CongMsg)
messages [] = []
messages ((m, r) ∷ rest) = (m, message r) ∷ messages rest

-- A call of a method of CongestionControl, with its moment and its arguments.
pub data Call : Type 0 where
  init close on_timeout : Moment → Call
  on_ack : Moment → PacketId → Call
  on_nak : Moment → List PacketId → Call
  on_pkt_sent : Moment → Packet → Call
  on_pkt_recv : Moment → DataPacket → Call
  on_custom_msg : Moment → UserDefControlPacket → Call

-- A control that records its calls.
abbrev pub note : Call → Handler (List Call) (Unit {0})
note call = do s ← get; put (record s { congestion = s.congestion ++ call ∷ [] })

abbrev pub recorder : CongestionControl (List Call)
recorder = record {
  init = λ m. note (Call.init m);
  close = λ m. note (Call.close m);
  on_ack = λ m id. note (Call.on_ack m id);
  on_nak = λ m loss. note (Call.on_nak m loss);
  on_timeout = λ m. note (Call.on_timeout m);
  on_pkt_sent = λ m p. note (Call.on_pkt_sent m p);
  on_pkt_recv = λ m p. note (Call.on_pkt_recv m p);
  on_custom_msg = λ m p. note (Call.on_custom_msg m p);
}

-- The call that belongs to a report; a data packet that is sent is no call.
abbrev pub call_of : Moment → Report → List Call
call_of m (init seq) = Call.init m ∷ []
call_of m close = Call.close m ∷ []
call_of m (on_ack id) = Call.on_ack m id ∷ []
call_of m (on_nak loss) = Call.on_nak m loss ∷ []
call_of m on_timeout = Call.on_timeout m ∷ []
call_of m (on_data_pkt_sent id) = []
call_of m (on_pkt_sent p) = Call.on_pkt_sent m p ∷ []
call_of m (on_pkt_recv p) = Call.on_pkt_recv m p ∷ []
call_of m (on_custom_msg p) = Call.on_custom_msg m p ∷ []

abbrev pub calls : List (Moment × Report) → List Call
calls [] = []
calls ((m, r) ∷ rest) = call_of m r ++ calls rest

-- The number of the last data packet: that of the last report of one, or of the last Init.
abbrev pub seq_after : PacketId → Report → PacketId
seq_after seq (init first) = first
seq_after seq (on_data_pkt_sent id) = id
seq_after seq _ = seq

abbrev pub last_seq : PacketId → List (Moment × Report) → PacketId
last_seq seq [] = seq
last_seq seq ((m, r) ∷ rest) = last_seq (seq_after seq r) rest

abbrev told : Moment → Report → UdtSocketCc (List Call) → UdtSocketCc (List Call)
told m r s = record s {
  congestion = s.congestion ++ call_of m r;
  send_pkt_seq = seq_after s.send_pkt_seq r;
}
