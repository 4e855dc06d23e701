-- ===== src/Udt/Send/Ack/Window.antt =====
-- What a light ACK does to the window.
use go_udt.Common.{ℕ, zero, suc, ◌+◌, ◌%◌, ◌^◌, ◌<◌, ◌≡◌, inl, inr, refl, arith, Bool-cases}
use go_udt.Common.Int.{is_pos}
use go_udt.Packet.PktSeq.{blind_diff}
use go_udt.Packet.PktSeq.Order.{blind_diff_steps, blind_diff-eq_zero_iff}
use go_udt.Packet.LightAck.{LightAckPacket}
use go_udt.Udt.Send.State.{UdtSocketSend}
use go_udt.Udt.Send.Ack.{ingest_light_ack}

twice :
    (p : LightAckPacket) (s : UdtSocketSend)
    → p.pkt_seq_hi < 2 ^ 31
    → ingest_light_ack p (ingest_light_ack p s) ≡ ingest_light_ack p s
unfolding ingest_light_ack
twice p s h = elim (Bool-cases (is_pos (blind_diff p.pkt_seq_hi s.recv_ack_seq))) [
  | inl e ↦ rw (e, (blind_diff-eq_zero_iff p.pkt_seq_hi p.pkt_seq_hi h h).1 refl) refl
  | inr e ↦ rw (e, e) refl
]

-- A light ACK that is d packets ahead of the last one, round the circle of sequence numbers and
-- with 0 < d < 2 ^ 30, opens the flow window by d and moves the acknowledged number up; when it
-- arrives again, it changes nothing more.
pub ingest_light_ack-ahead :
    (p : LightAckPacket) (s : UdtSocketSend) (d : ℕ)
    → s.recv_ack_seq < 2 ^ 31
    → 0 < d
    → d < 2 ^ 30
    → p.pkt_seq_hi ≡ (s.recv_ack_seq + d) % 2 ^ 31
    → (ingest_light_ack p s ≡ record s {
      flow_window_size = (s.flow_window_size + d) % 2 ^ 64;
      recv_ack_seq = p.pkt_seq_hi;
    })
      × (ingest_light_ack p (ingest_light_ack p s) ≡ ingest_light_ack p s)
unfolding ingest_light_ack
ingest_light_ack-ahead p s zero h low high at = absurd (omega arith)
ingest_light_ack-ahead p s (suc d) h low high at =
    (rw (at, (blind_diff_steps s.recv_ack_seq (suc d) h low high).0) refl, twice p s (omega arith))

-- A light ACK that is d packets behind the last one, with 0 < d < 2 ^ 30, changes nothing.
pub ingest_light_ack-behind :
    (p : LightAckPacket) (s : UdtSocketSend) (d : ℕ)
    → p.pkt_seq_hi < 2 ^ 31
    → 0 < d
    → d < 2 ^ 30
    → s.recv_ack_seq ≡ (p.pkt_seq_hi + d) % 2 ^ 31
    → ingest_light_ack p s ≡ s
unfolding ingest_light_ack
ingest_light_ack-behind p s d h low high at =
    rw (at, (blind_diff_steps p.pkt_seq_hi d h low high).1) refl
