-- ===== src/Udt/Send/Expire/Pending.antt =====
-- What sendDataPacket does with a packet.
use mathlib.Core.List.{Perm}
use go_udt.Common.{
  ℕ, ◌%◌, ◌≡◌, inl, inr, refl, Bool, true, false, not, ◌&&◌, List, [], ◌∷◌, Option, none, some, ltb,
  ◌==◌, Bool-cases,
}
use go_udt.Packet.Any.{data_pkt}
use go_udt.Udt.Heap.Contents.{init-perm, push-perm}
use go_udt.Udt.Heaps.SendPackets
use go_udt.Udt.Heaps.SendPackets.{SendPacketEntry}
use go_udt.Udt.Send.State.{
  UdtSocketSend, sending, send_packet, cong_data_pkt_sent, reeval_send_state,
}
use go_udt.Udt.Send.Expire.{pend_with, is_waiting, wait_snd, send_data_packet}

abbrev pub pend_or_nil : Option (List SendPacketEntry) → List SendPacketEntry
pend_or_nil none = []
pend_or_nil (some h) = h

pend_with-perm :
    (dp : SendPacketEntry) (pend : Option (List SendPacketEntry))
    → Perm (pend_with dp pend) (dp ∷ pend_or_nil pend)
unfolding pend_with
pend_with-perm dp none = init-perm SendPackets.less (dp ∷ [])
pend_with-perm dp (some h) = push-perm SendPackets.less h dp

-- The state behind the packet: only the pending packets, the SND timer and the state are new.
abbrev pub Sent : SendPacketEntry → UdtSocketSend → UdtSocketSend → Type 0
Sent dp s s' =
    (pend : List SendPacketEntry) × Perm pend (dp ∷ pend_or_nil s.send_pkt_pend)
    × (s' ≡ record s {
      send_pkt_pend = some pend;
      snd_event = s'.snd_event;
      send_state = s'.send_state;
    })

-- A packet that is sent again, or whose number is not a multiple of 16, goes out once and is told
-- to congestion control before that; it joins the pending packets, of which none is lost, and
-- beside them only the SND timer and the state of the sender change.
pub send_data_packet_lem :
    (now : ℕ) (dp : SendPacketEntry) (is_resend : Bool) (s : UdtSocketSend)
    → (not is_resend && (dp.pkt.seq % 16 == 0)) ≡ false
    → (s' : UdtSocketSend) × (send_data_packet now dp is_resend s
        ≡ some (tt, s', cong_data_pkt_sent dp.pkt.seq ∷ send_packet (data_pkt dp.pkt) ∷ []))
      × Sent dp s s'
unfolding send_data_packet
send_data_packet_lem now dp is_resend s plain =
    let s1 = record s { send_pkt_pend = some (pend_with dp s.send_pkt_pend) } in
    let all = pend_with-perm dp s.send_pkt_pend in
    elim (Bool-cases (is_waiting (reeval_send_state s1))) [
      | inl w ↦ (
        record s1 { send_state = reeval_send_state s1 },
        rw (send_data_packet, w) refl,
        (_, all, refl),
      )
      | inr w ↦ elim (Bool-cases (ltb 0 s.snd_period)) [
        | inl t ↦ (
          record s1 { snd_event = true; send_state = sending },
          rw (send_data_packet, w, plain, wait_snd, t) refl,
          (_, all, refl),
        )
        | inr t ↦ (
          record s1 { send_state = reeval_send_state s1 },
          rw (send_data_packet, w, plain, wait_snd, t) refl,
          (_, all, refl),
        )
      ]
    ]
