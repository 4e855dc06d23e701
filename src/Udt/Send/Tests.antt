-- ===== src/Udt/Send/Tests.antt =====
-- Runs of the sender, and its theorems at concrete states.
use mathlib.Core.List.{Perm}
use go_udt.Common.{
  ◌↔◌, ◌≤◌, length, ◌+◌, ◌^◌, ◌<◌, ◌≡◌, refl, Bool, true, false, List, [], ◌∷◌, ◌++◌, some, none,
  All, arith,
}
use go_udt.Common.Int.{is_neg}
use go_udt.Packet.PktSeq.{PacketId, incr, blind_diff}
use go_udt.Packet.Nak.{NakPacket}
use go_udt.Packet.LightAck.{LightAckPacket}
use go_udt.Packet.Any.{Packet, keep_alive}
use go_udt.Udt.Search.{Search}
use go_udt.Udt.Heaps.PacketIds
use go_udt.Udt.Heaps.SendPackets.{SendPacketEntry}
use go_udt.Udt.Send.State.{
  UdtSocketSend, SendMessage, Socket, idle, waiting, reeval_send_state, shut_down, shutdown_event,
  corrupted,
}
use go_udt.Udt.Send.Data.{process_data_msg}
use go_udt.Udt.Send.Data.Datagram.{SendsPiece, process_data_msg-datagram}
use go_udt.Udt.Send.Nak.{unpack, span}
use go_udt.Udt.Send.Ack.{release_loop}
use go_udt.Udt.Send.Ack.Release.{release_loop_keeps}
use go_udt.Udt.Send.Timer.{new_udt_socket_send}
use go_udt.Udt.Send.Events.{recv_pkt, on_event}
use go_udt.Udt.Send.Events.Reeval.{IsOpen, recv_pkt-IsOpen, reeval_send_state_lem}

abbrev sock : Socket
sock = record { is_datagram = true; mtu = 3; rtt = 100; rtt_var = 50 }

abbrev sender : UdtSocketSend
sender = record {
  send_state = idle;
  send_pkt_pend = none;
  send_pkt_seq = 21;
  msg_partial_send = none;
  msg_seq = 0;
  exp_count = 1;
  last_recv_time = 1000;
  recv_ack_seq = 0;
  sent_ack2 = 0;
  send_loss_list = none;
  snd_period = 0;
  rto_period = 0;
  congest_window = 16;
  flow_window_size = 32;
  snd_event = false;
  ack2_sent_event = false;
  exp_timer_event = some 300_000_000;
}

sender_made : new_udt_socket_send 21 32 1000 sock ≡ sender
unfolding new_udt_socket_send
sender_made = refl

abbrev lost : NakPacket
lost = record {
  hdr = record { ts = 0; dst_sock_id = 0 };
  cmp_loss_info = (2 ^ 31 + 17) ∷ 19 ∷ 20 ∷ [];
}

-- The end of a range is not in it.
unpacked : unpack lost.cmp_loss_info sender ≡ some (some (17 ∷ 18 ∷ 20 ∷ []), sender, [])
unfolding unpack span incr
unpacked = refl

unpacked_bad :
    unpack (2 ^ 31 ∷ []) sender ≡ some (none, sender, shutdown_event corrupted false ∷ [])
unfolding unpack
unpacked_bad = refl

abbrev fits : All (λ e. e < 2 ^ 32) lost.cmp_loss_info
fits = (omega arith, (omega arith, (omega arith, tt)))

abbrev message : SendMessage
message = record { content = 1 ∷ 2 ∷ 3 ∷ 4 ∷ []; tim = 0; ttl = 0 }

abbrev with_message : UdtSocketSend
with_message = record sender { msg_partial_send = some message }

process_data_msg-datagram_example :
    SendsPiece sock true message [] with_message (process_data_msg 5 sock true [] with_message)
process_data_msg-datagram_example =
    process_data_msg-datagram 5 sock true message with_message [] refl refl refl

abbrev entry : SendPacketEntry
entry = record {
  pkt = record { seq = 21; msg = 0; ts = 0; dst_sock_id = 0; content = 1 ∷ [] };
  tim = 0;
  ttl = 0;
}

abbrev beyond : List PacketId
beyond = 20 ∷ []

abbrev smallest : List PacketId → Search
unfolding PacketIds.min
smallest h = PacketIds.min h 20 30

released : release_loop PacketIds.key smallest (some 0) 19 2 beyond ≡ some []
unfolding release_loop smallest
released = refl

release_loop_keeps_example :
    (gone : List PacketId) × Perm (gone ++ []) beyond
    × All (λ x. is_neg (blind_diff 19 (PacketIds.key x)) ≡ true) gone
release_loop_keeps_example =
    release_loop_keeps PacketIds.key smallest (some 0) 19 beyond [] 2 released

abbrev light : PacketId → LightAckPacket
light hi = record { hdr = record { ts = 0; dst_sock_id = 0 }; pkt_seq_hi = hi }

abbrev hello : Packet
hello = keep_alive (record { hdr = record { ts = 0; dst_sock_id = 0 } })

abbrev shut_sender : UdtSocketSend
shut_sender = record sender { send_state = shut_down; exp_timer_event = none }

-- A shutdown does not survive a packet.
revived :
    on_event 5 sock (recv_pkt hello 9) shut_sender
    ≡ some (true, record sender { last_recv_time = 9 }, [])
unfolding on_event
revived = refl

recv_pkt-IsOpen_example : (◌≡◌ {A = Bool} true true) × IsOpen idle
recv_pkt-IsOpen_example =
    recv_pkt-IsOpen 5 sock hello 9 shut_sender (record sender { last_recv_time = 9 }) true []
      revived

reeval_send_state_lem_example :
    IsOpen (reeval_send_state sender)
    × ((reeval_send_state sender ≡ waiting) ↔ (
        (sender.snd_event ≡ false)
        × (pend : List SendPacketEntry) × (sender.send_pkt_pend ≡ some pend)
        × (length pend ≤ sender.congest_window)
        × (length pend ≤ sender.flow_window_size)))
reeval_send_state_lem_example = reeval_send_state_lem sender
