-- ===== src/Udt/Cong/Msg.antt =====
-- congMsg, and what init, close, onACK and the other functions put on the channel
-- (udt/udtsocket_cc.go).
use go_udt.Common.{List}
use go_udt.Packet.PktSeq.{PacketId}
use go_udt.Packet.Any.{Packet}
use go_udt.Packet.Data.{DataPacket}
use go_udt.Packet.UserDef.{UserDefControlPacket}

pub data CongMsgType : Type 0 where
  cong_init cong_close cong_on_ack cong_on_nak cong_on_timeout : CongMsgType
  cong_on_data_pkt_sent cong_on_pkt_sent cong_on_pkt_recv cong_on_custom_msg : CongMsgType

pub data Arg : Type 0 where
  nil : Arg
  ids : List PacketId → Arg
  packet : Packet → Arg
  data_packet : DataPacket → Arg
  user_def : UserDefControlPacket → Arg

pub record CongMsg : Type 0 where
  pub mtyp : CongMsgType
  pub pkt_id : PacketId
  pub arg : Arg

abbrev pub init : PacketId → CongMsg
init send_pkt_seq = record { mtyp = cong_init; pkt_id = send_pkt_seq; arg = nil }

abbrev pub close : CongMsg
close = record { mtyp = cong_close; pkt_id = 0; arg = nil }

abbrev pub on_ack : PacketId → CongMsg
on_ack pkt_id = record { mtyp = cong_on_ack; pkt_id = pkt_id; arg = nil }

abbrev pub on_nak : List PacketId → CongMsg
on_nak loss = record { mtyp = cong_on_nak; pkt_id = 0; arg = ids loss }

abbrev pub on_timeout : CongMsg
on_timeout = record { mtyp = cong_on_timeout; pkt_id = 0; arg = nil }

abbrev pub on_data_pkt_sent : PacketId → CongMsg
on_data_pkt_sent pkt_id = record { mtyp = cong_on_data_pkt_sent; pkt_id = pkt_id; arg = nil }

abbrev pub on_pkt_sent : Packet → CongMsg
on_pkt_sent p = record { mtyp = cong_on_pkt_sent; pkt_id = 0; arg = packet p }

abbrev pub on_pkt_recv : DataPacket → CongMsg
on_pkt_recv p = record { mtyp = cong_on_pkt_recv; pkt_id = 0; arg = data_packet p }

abbrev pub on_custom_msg : UserDefControlPacket → CongMsg
on_custom_msg p = record { mtyp = cong_on_custom_msg; pkt_id = 0; arg = user_def p }
