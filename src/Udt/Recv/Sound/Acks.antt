-- ===== src/Udt/Recv/Sound/Acks.antt =====
-- The invariant and the acknowledgements.
use go_udt.Common.{ℕ, ◌&&◌, ◌==◌}
use go_udt.Packet.PktSeq.{PacketId}
use go_udt.Packet.Ack.{AckPacket}
use go_udt.Packet.Ack2.{Ack2Packet}
use go_udt.Udt.Recv.State.{UdtSocketRecv, Context}
use go_udt.Packet.PktSeq.{PacketId}
use go_udt.Udt.Recv.Ack.{
  with_sent, new_ack, ack_number, is_some, add_link, send_light_ack, send_ack, ack_event,
  ingest_ack2,
}
use go_udt.Udt.Recv.Sound.{
  Sound, Takes, bind-Takes, get-Takes, put-Takes, return-Takes, emit-Takes, need_some-Takes,
  cases-Takes, option-Takes,
}

pub send_light_ack-Sound : Takes Sound Sound send_light_ack
unfolding send_light_ack
send_light_ack-Sound =
    get-Takes (λ s h. cases-Takes (ack_number s == s.recv_ack2) return-Takes emit-Takes)

add_link-Sound : (c : Context) (p : AckPacket) → Takes Sound Sound (add_link c p)
unfolding add_link
add_link-Sound c p = get-Takes (λ s h.
    option-Takes s.ack_sent_event2
      (bind-Takes (need_some-Takes _) (λ speeds. bind-Takes (put-Takes h) (λ _. return-Takes)))
      (λ d. return-Takes))

with_sent-Sound :
    (c : Context) (number : PacketId) (s : UdtSocketRecv) → Sound s → Sound (with_sent c number s)
unfolding with_sent
with_sent-Sound c number s h = h

new_ack-Sound : (c : Context) (number : PacketId) → Takes Sound Sound (new_ack c number)
unfolding new_ack
new_ack-Sound c number = get-Takes (λ s h.
    bind-Takes (put-Takes (with_sent-Sound c number s h)) (λ _. get-Takes (λ s' h'.
      bind-Takes (add_link-Sound c _)
        (λ p. bind-Takes emit-Takes (λ _. get-Takes (λ s'' h''. put-Takes h''))))))

send_ack-Sound : (c : Context) → Takes Sound Sound (send_ack c)
unfolding send_ack
send_ack-Sound c = get-Takes (λ s h. cases-Takes (ack_number s == s.recv_ack2) return-Takes (
    cases-Takes ((ack_number s == s.sent_ack) && is_some s.ack_sent_event) return-Takes
      (new_ack-Sound c (ack_number s))))

pub ack_event-Sound : (c : Context) → Takes Sound Sound (ack_event c)
unfolding ack_event
ack_event-Sound c = bind-Takes (send_ack-Sound c) (λ _. get-Takes (λ s h. put-Takes h))

pub ingest_ack2-Sound : (p : Ack2Packet) (now : ℕ) → Takes Sound Sound (ingest_ack2 p now)
unfolding ingest_ack2
ingest_ack2-Sound p now = get-Takes (λ s h. option-Takes s.ack_history return-Takes (λ history.
    bind-Takes (need_some-Takes _) (λ at.
      option-Takes at return-Takes (λ e.
        bind-Takes (need_some-Takes _) (λ left. bind-Takes (put-Takes h) (λ _. emit-Takes))))))
