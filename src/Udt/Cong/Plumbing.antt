-- ===== src/Udt/Cong/Plumbing.antt =====
-- The channel of the congestion control and the goroutine that takes the messages off
-- (udt/udtsocket_cc.go).
--
-- A message's `arg` is an interface{}; a type assertion that fails panics. The channel holds 100
-- messages; a sender waits while it is full.
use go_udt.Common.{ℕ, List, [], ◌∷◌, ◌++◌, Option, none, some, length, ltb, if◌then◌else◌}
use go_udt.Common.Int.{pos}
use go_udt.Packet.PktSeq.{PacketId}
use go_udt.Packet.Any.{Packet}
use go_udt.Packet.Data.{DataPacket}
use go_udt.Packet.UserDef.{UserDefControlPacket}
use go_udt.Udt.Cong.Msg.{CongMsgType, Arg, CongMsg, ids, packet, data_packet, user_def}
use go_udt.Udt.Cong.State.{
  Moment, UdtSocketCc, Handler, CongestionControl, return, get, put, need_some, ◌>>=◌, ◌>>◌,
}

-- `evt.arg.([]packet.PacketID)` and the other type assertions
abbrev as_ids : Arg → Option (List PacketId)
as_ids (ids l) = some l
as_ids _ = none

abbrev as_packet : Arg → Option Packet
as_packet (packet p) = some p
as_packet _ = none

abbrev as_data_packet : Arg → Option DataPacket
as_data_packet (data_packet p) = some p
as_data_packet _ = none

abbrev as_user_def : Arg → Option UserDefControlPacket
as_user_def (user_def p) = some p
as_user_def _ = none

module _ {C : Type 0} (ctl : CongestionControl C) (m : Moment) where
  abbrev set_send_pkt_seq : PacketId → Handler C (Unit {0})
  set_send_pkt_seq pkt_id = do s ← get; put (record s { send_pkt_seq = pkt_id })

  -- The switch of goCongestionEvent
  unfoldable pub dispatch : CongMsgType → PacketId → Arg → Handler C (Unit {0})
  dispatch CongMsgType.cong_init pkt_id arg = do set_send_pkt_seq pkt_id; ctl.init m
  dispatch CongMsgType.cong_close pkt_id arg = ctl.close m
  dispatch CongMsgType.cong_on_ack pkt_id arg = ctl.on_ack m pkt_id
  dispatch CongMsgType.cong_on_nak pkt_id arg = do loss ← need_some (as_ids arg); ctl.on_nak m loss
  dispatch CongMsgType.cong_on_timeout pkt_id arg = ctl.on_timeout m
  dispatch CongMsgType.cong_on_data_pkt_sent pkt_id arg = set_send_pkt_seq pkt_id
  dispatch CongMsgType.cong_on_pkt_sent pkt_id arg = do
    p ← need_some (as_packet arg)
    ctl.on_pkt_sent m p
  dispatch CongMsgType.cong_on_pkt_recv pkt_id arg = do
    p ← need_some (as_data_packet arg)
    ctl.on_pkt_recv m p
  dispatch CongMsgType.cong_on_custom_msg pkt_id arg = do
    p ← need_some (as_user_def arg)
    ctl.on_custom_msg m p

  -- One message of goCongestionEvent
  abbrev pub handle : CongMsg → Handler C (Unit {0})
  handle evt = dispatch evt.mtyp evt.pkt_id evt.arg

-- The messages that the goroutine takes one after another, each at its moment.
unfoldable pub handle_all :
    {C : Type 0} → CongestionControl C → List (Moment × CongMsg) → Handler C (Unit {0})
unfolding dispatch
handle_all ctl [] = return tt
handle_all ctl ((m, evt) ∷ rest) = handle ctl m evt >> handle_all ctl rest

-- `newCongestion(s)` and newUdtSocketCc: the goroutine starts with no message.
abbrev pub new_udt_socket_cc : {C : Type 0} → C → UdtSocketCc C
new_udt_socket_cc congestion = record {
  congestion = congestion;
  send_pkt_seq = 0;
  cong_window = 0;
  snd_period = pos 0;
}

-- `s.msgs <- msg`: a send takes place where the channel has room.
abbrev pub capacity : ℕ
capacity = 100

unfoldable pub send : CongMsg → List CongMsg → Option (List CongMsg)
send msg msgs = if ltb (length msgs) capacity then some (msgs ++ msg ∷ []) else none
