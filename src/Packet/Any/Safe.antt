-- ===== src/Packet/Any/Safe.antt =====
-- ReadPacketFrom on any datagram: it does not panic, and it refuses what is shorter than a header.
use go_udt.Common.{
  ℕ, zero, suc, ◌+◌, ◌-◌, ◌*◌, ◌/◌, ◌%◌, ◌^◌, ◌≢◌, ◌≤◌, ◌<◌, ◌≡◌, refl, ap, List, [], ◌∷◌, ◌++◌,
  inl, inr, length, arith, leb, length-append,
}
use go_udt.Common.Run.{err, panic, Error, unknown_type}
use go_udt.Packet.Slice.{Slice, ◌>>=◌, return}
use go_udt.Packet.Header.{CtrlHeader, read_hdr_from}
use go_udt.Packet.Safe.{
  Safe, Checked, first_word, return-Safe, fail-Checked, uint32_at-Safe, tail_at-Safe, bytes_at-Safe,
  bind-Safe, bind-Checked, need-Checked, len-Checked, len-Safe, if-Checked, if-Safe,
}
use go_udt.Packet.Handshake
use go_udt.Packet.KeepAlive
use go_udt.Packet.Ack
use go_udt.Packet.LightAck
use go_udt.Packet.Nak
use go_udt.Packet.Congestion
use go_udt.Packet.Shutdown
use go_udt.Packet.Ack2
use go_udt.Packet.MsgDropReq
use go_udt.Packet.SpecialErr
use go_udt.Packet.UserDef
use go_udt.Packet.Data
use go_udt.Packet.Any.{
  Packet, handshake, keep_alive, ack, light_ack, nak, congestion, shutdown, ack2, msg_drop_req,
  special_err, user_def, data_pkt, read_ack, read_control, read_packet, read_packet_from,
}

module _ {bytes : List ℕ} where
  read_hdr_from-Checked : (q : CtrlHeader) → Checked bytes (read_hdr_from q)
  unfolding read_hdr_from
  read_hdr_from-Checked q = need-Checked 16 (omega arith) λ h.
      bind-Safe _ (uint32_at-Safe 4 (omega arith)) λ info.
        bind-Safe _ (uint32_at-Safe 8 (omega arith))
          λ ts. bind-Safe _ (uint32_at-Safe 12 (omega arith)) λ dst. return-Safe _

  keep_alive-Checked : (q : KeepAlive.KeepAlivePacket) → Checked bytes (KeepAlive.read_from q)
  unfolding KeepAlive.read_from
  keep_alive-Checked q = bind-Checked _ (read_hdr_from-Checked q.hdr) λ h r. return-Safe _

  congestion-Checked : (q : Congestion.CongestionPacket) → Checked bytes (Congestion.read_from q)
  unfolding Congestion.read_from
  congestion-Checked q = bind-Checked _ (read_hdr_from-Checked q.hdr) λ h r. return-Safe _

  shutdown-Checked : (q : Shutdown.ShutdownPacket) → Checked bytes (Shutdown.read_from q)
  unfolding Shutdown.read_from
  shutdown-Checked q = bind-Checked _ (read_hdr_from-Checked q.hdr) λ h r. return-Safe _

  ack2-Checked : (q : Ack2.Ack2Packet) → Checked bytes (Ack2.read_from q)
  unfolding Ack2.read_from
  ack2-Checked q = bind-Checked _ (read_hdr_from-Checked q.hdr) λ h r. return-Safe _

  special_err-Checked : (q : SpecialErr.ErrPacket) → Checked bytes (SpecialErr.read_from q)
  unfolding SpecialErr.read_from
  special_err-Checked q = bind-Checked _ (read_hdr_from-Checked q.hdr) λ h r. return-Safe _

  light_ack-Checked : (q : LightAck.LightAckPacket) → Checked bytes (LightAck.read_from q)
  unfolding LightAck.read_from
  light_ack-Checked q = need-Checked 20 (omega arith) λ h.
      bind-Safe _ ((read_hdr_from-Checked q.hdr).safe)
        λ r. bind-Safe _ (uint32_at-Safe 16 (omega arith)) λ f16. return-Safe _

  msg_drop_req-Checked : (q : MsgDropReq.MsgDropReqPacket) → Checked bytes (MsgDropReq.read_from q)
  unfolding MsgDropReq.read_from
  msg_drop_req-Checked q = need-Checked 24 (omega arith) λ h.
      bind-Safe _ ((read_hdr_from-Checked q.hdr).safe) λ r.
        bind-Safe _ (uint32_at-Safe 16 (omega arith))
          λ f16. bind-Safe _ (uint32_at-Safe 20 (omega arith)) λ f20. return-Safe _

  handshake-Checked : (q : Handshake.HandshakePacket) → Checked bytes (Handshake.read_from q)
  unfolding Handshake.read_from
  handshake-Checked q = need-Checked 64 (omega arith) λ h.
      bind-Safe _ ((read_hdr_from-Checked q.hdr).safe) λ r.
        bind-Safe _ (uint32_at-Safe 16 (omega arith)) λ f16.
          bind-Safe _ (uint32_at-Safe 20 (omega arith)) λ f20.
            bind-Safe _ (uint32_at-Safe 24 (omega arith)) λ f24.
              bind-Safe _ (uint32_at-Safe 28 (omega arith)) λ f28.
                bind-Safe _ (uint32_at-Safe 32 (omega arith)) λ f32.
                  bind-Safe _ (uint32_at-Safe 36 (omega arith)) λ f36.
                    bind-Safe _ (uint32_at-Safe 40 (omega arith)) λ f40.
                      bind-Safe _ (uint32_at-Safe 44 (omega arith))
                        λ f44. bind-Safe _ (bytes_at-Safe 48 16 (omega arith)) λ addr. return-Safe _

  ack_cap-Safe : (q : Ack.AckPacket) (l : ℕ) → l ≡ length bytes → Safe bytes (Ack.read_cap q l)
  unfolding Ack.read_cap
  ack_cap-Safe q l e =
      if-Safe (leb 40 l) (λ t. bind-Safe _ (uint32_at-Safe 36 (ground arith)) λ cap. return-Safe _)
        (λ f. return-Safe q)

  ack_link-Safe : (q : Ack.AckPacket) (l : ℕ) → l ≡ length bytes → Safe bytes (Ack.read_link q l)
  unfolding Ack.read_link
  ack_link-Safe q l e =
      if-Safe (leb 36 l)
        (λ t. bind-Safe _ (uint32_at-Safe 32 (ground arith)) λ rate. ack_cap-Safe _ l e)
        (λ f. return-Safe q)

  ack-Checked : (q : Ack.AckPacket) → Checked bytes (Ack.read_from q)
  unfolding Ack.read_from
  ack-Checked q = len-Checked _ (
      need-Checked 32 (omega arith) λ h. bind-Safe _ ((read_hdr_from-Checked q.hdr).safe) λ r.
        bind-Safe _ (uint32_at-Safe 16 (omega arith)) λ hi.
          bind-Safe _ (uint32_at-Safe 20 (omega arith)) λ rtt.
            bind-Safe _ (uint32_at-Safe 24 (omega arith)) λ var.
              bind-Safe _ (uint32_at-Safe 28 (omega arith))
                λ avail. ack_link-Safe _ (length bytes) refl)

  entries-Safe : (n st : ℕ) → st + 4 * n ≤ length bytes → Safe bytes (Nak.read_entries n st)
  unfolding Nak.read_entries
  entries-Safe zero st h = return-Safe []
  entries-Safe (suc n) st h =
      bind-Safe _ (uint32_at-Safe st (omega arith))
        λ e. bind-Safe _ (entries-Safe n (st + 4) (omega arith)) λ es. return-Safe (e ∷ es)

  nak-Checked : (q : Nak.NakPacket) → Checked bytes (Nak.read_from q)
  unfolding Nak.read_from
  nak-Checked q = bind-Checked _ (read_hdr_from-Checked q.hdr) λ h r.
      len-Safe _
        (bind-Safe _ (entries-Safe ((length bytes - 16) / 4) 16 (omega arith)) λ es. return-Safe _)

  user_def-Checked : (q : UserDef.UserDefControlPacket) → Checked bytes (UserDef.read_from q)
  unfolding UserDef.read_from
  user_def-Checked q =
      bind-Checked _ (read_hdr_from-Checked q.hdr)
        λ h r. bind-Safe _ (tail_at-Safe 16 h) λ content. return-Safe _

  data_pkt-Checked : (q : Data.DataPacket) → Checked bytes (Data.read_from q)
  unfolding Data.read_from
  data_pkt-Checked q = need-Checked 16 (omega arith) λ h.
      bind-Safe _ (uint32_at-Safe 4 (omega arith)) λ msg.
        bind-Safe _ (uint32_at-Safe 8 (omega arith)) λ ts.
          bind-Safe _ (uint32_at-Safe 12 (omega arith))
            λ dst. bind-Safe _ (tail_at-Safe 16 h) λ content. return-Safe _

  -- One arm of the switch: the reader, and the packet that it fills.
  arm-Checked :
      {P : Type 0} {m : Slice P} (f : P → Packet)
      → Checked bytes m
      → Checked bytes (m >>= λ p. return (f p))
  arm-Checked f c = bind-Checked _ c λ h p. return-Safe (f p)

  read_packet-Checked : (h : ℕ) → Checked bytes (read_packet h)
  unfolding read_packet
  read_packet-Checked h = if-Checked _ control (arm-Checked data_pkt (data_pkt-Checked _))
    where
      acks : Checked bytes read_ack
      acks = len-Checked _ (
          if-Checked _ (arm-Checked light_ack (light_ack-Checked _))
            (arm-Checked ack (ack-Checked _)))

      control : Checked bytes (read_control (h % 2 ^ 31 / 2 ^ 16) (h % 2 ^ 31 % 2 ^ 16))
      control = if-Checked _ (arm-Checked handshake (handshake-Checked _)) (
          if-Checked _ (arm-Checked keep_alive (keep_alive-Checked _)) (
            if-Checked _ acks (
              if-Checked _ (arm-Checked nak (nak-Checked _)) (
                if-Checked _ (arm-Checked congestion (congestion-Checked _)) (
                  if-Checked _ (arm-Checked shutdown (shutdown-Checked _)) (
                    if-Checked _ (arm-Checked ack2 (ack2-Checked _)) (
                      if-Checked _ (arm-Checked msg_drop_req (msg_drop_req-Checked _)) (
                        if-Checked _ (arm-Checked special_err (special_err-Checked _)) (
                          if-Checked _ (arm-Checked user_def (user_def-Checked _))
                            (fail-Checked unknown_type))))))))))

not_panic : {bytes : List ℕ} {m : Slice Packet} → Safe bytes m → (m bytes).0 ≢ panic
not_panic s = elim s.run [
  | inl (a, e) ↦ λ p. cc (ap (λ t. t.0) e)
  | inr (x, e) ↦ λ p. cc (ap (λ t. t.0) e)
]

-- On any datagram in a buffer of four bytes or more, ReadPacketFrom returns a packet or an error,
-- and does not panic; on a datagram of fewer than sixteen bytes it returns an error.
pub read_packet_from_safe :
    (spare bytes : List ℕ)
    → 4 ≤ length bytes + length spare
    → ((read_packet_from spare bytes).0 ≢ panic)
      × (length bytes < 16 → (e : Error) × ((read_packet_from spare bytes).0 ≡ err e))
unfolding read_packet_from
read_packet_from_safe spare bytes room =
    let (h, first) = first_word (bytes ++ spare) (omega (arith, length-append bytes spare)) in
    let c = read_packet-Checked {bytes = bytes} h in
    rw first (not_panic c.safe, λ s. let (e, r) = c.short s in (e, ap (λ t. t.0) r))
