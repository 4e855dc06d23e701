-- ===== src/Udt/Recv/Data/Whole.antt =====
-- A packet that is a whole message, and that the receiver waits for.
use go_udt.Common.{
  ℕ, ◌+◌, ◌-◌, ◌*◌, ◌%◌, ◌^◌, ◌≡◌, refl, ap, ◌∙◌, true, false, List, [], ◌∷◌, ◌++◌, append-nil,
  none, some, Bool-cases, inl, inr, leb, ◌==◌,
}
use go_udt.Packet.PktSeq.{PacketId}
use go_udt.Packet.Data.{DataPacket, mb_only, get_message_data}
use go_udt.Packet.Any.{light_ack}
use go_udt.Udt.Recv.State.{
  bind-some, send_packet, UdtSocketRecv, Effect, message_in, Context, ◌>>=◌, ◌>>◌, return,
}
use go_udt.Udt.Recv.Ack.{no_header, ack_number, send_light_ack}
use go_udt.Udt.Recv.Assemble.{
  acknowledge, deliver, left_pending, following_pieces, gather, must_wait, attempt_process_packet,
}
use go_udt.Udt.Recv.Data.{add_interval, note_probe, note_arrival, process}

-- A packet that is a whole message.
abbrev pub IsWhole : DataPacket → Type 0
IsWhole p = (get_message_data p).0 ≡ mb_only

-- A receiver that waits for the number `x` as configureHandshake leaves it, whose Add(-1) is the
-- number behind `x`, with no packet pending or lost, and that acknowledges by light ACKs.
abbrev pub waiting : PacketId → UdtSocketRecv → UdtSocketRecv
waiting x s = record s {
  far_next_pkt_seq = x;
  far_recd_pkt_seq = (x + 1) % 2 ^ 32 % 2 ^ 31;
  recv_pkt_pend = none;
  recv_loss_list = none;
  ack_interval = 0;
}

send_light_ack-runs :
    (s : UdtSocketRecv) → (es : List Effect) × (send_light_ack s ≡ some (tt, s, es))
unfolding send_light_ack ◌>>=◌
send_light_ack-runs s = elim (Bool-cases (ack_number s == s.recv_ack2)) [
  | inl e ↦ ([], rw (send_light_ack, e) refl)
  | inr e ↦ (
    send_packet (light_ack (record { hdr = no_header; pkt_seq_hi = ack_number s })) ∷ [],
    rw (send_light_ack, e) refl,
  )
]

module _ (c : Context) (x : PacketId) where
  acknowledge-waits :
      (s : UdtSocketRecv)
      → (t : UdtSocketRecv) × (es : List Effect) × (acknowledge c (waiting x s)
          ≡ some (tt, waiting x t, es))
  unfolding acknowledge ◌>>=◌
  acknowledge-waits s =
      let count = (s.unack_pkt_count + 1) % 2 ^ 64 in
      elim (Bool-cases (leb (64 * s.light_ack_count % 2 ^ 64) count)) [
        | inr e ↦ (record s { unack_pkt_count = count }, [], rw (acknowledge, e) refl)
        | inl e ↦
            let (es, runs) =
              send_light_ack-runs (waiting x (record s { unack_pkt_count = count })) in
            (
              record s {
                unack_pkt_count = count;
                light_ack_count = (s.light_ack_count + 1) % 2 ^ 64;
              },
              es,
              rw (acknowledge, e, ◌>>◌, ◌>>=◌, runs, append-nil es) refl,
            )
      ]

  pub notes-wait :
      (now : ℕ) (seq : PacketId) (s : UdtSocketRecv)
      → (t : UdtSocketRecv) × (note_arrival now (note_probe now seq (waiting x s)) ≡ waiting x t)
  unfolding note_arrival note_probe
  notes-wait now seq s = elim (Bool-cases ((seq + 2 ^ 32 - 1) % 16 == 0)) [
    | inl e ↦ (
      note_arrival now (record s {
        recv_pkt_pair_history = add_interval s.recv_last_probe now s.recv_pkt_pair_history;
        recv_last_probe = some now;
      }),
      rw (note_probe, e) refl,
    )
    | inr e ↦ (note_arrival now s, rw (note_probe, e) refl)
  ]

  gather-whole :
      (p : DataPacket) (s : UdtSocketRecv)
      → IsWhole p
      → gather (waiting x s) p ≡ some (false, p ∷ [])
  unfolding gather
  gather-whole p s whole = rw (gather, whole) (rw (following_pieces, whole) refl)

  pub process-whole :
      (p : DataPacket) (s : UdtSocketRecv)
      → IsWhole p
      → (t : UdtSocketRecv) × (es : List Effect) × (attempt_process_packet c p true (waiting x s)
          ≡ some (true, waiting x t, es ++ message_in p.content ∷ []))
  unfolding attempt_process_packet must_wait deliver left_pending ◌>>=◌
  process-whole p s whole =
      let (t, es, runs) = acknowledge-waits s in
      (
        t,
        es,
        rw (attempt_process_packet, gather-whole p s whole, ◌>>◌, ◌>>=◌, runs, append-nil p.content)
            refl,
      )

pub process-runs :
    (c : Context) (p : DataPacket) (s t : UdtSocketRecv) (es : List Effect)
    → attempt_process_packet c p true s ≡ some (true, t, es)
    → process c p true s ≡ some (tt, t, es)
unfolding process ◌>>=◌
process-runs c p s t es runs =
    bind-some (attempt_process_packet c p true) (λ _. return tt) s runs
    ∙ ap (λ fs. some (tt, t, fs)) (append-nil es)
