-- ===== src/Udt/Recv/Data/Loss.antt =====
-- What becomes of a NAK.
use go_udt.Common.{
  ℕ, zero, suc, ◌≡◌, ◌⊎◌, inl, inr, refl, false, List, [], ◌∷◌, ◌++◌, none, some, length,
  Bool-cases, Option-cases, ◌==◌,
}
use go_udt.Packet.PktSeq.{PacketId}
use go_udt.Packet.Any.{nak}
use go_udt.Udt.Heaps.RecvLoss
use go_udt.Udt.Heaps.RecvLoss.{RecvLossEntry}
use go_udt.Udt.Recv.State.{UdtSocketRecv, send_packet, Context, entry_at, ◌>>=◌}
use go_udt.Udt.Recv.Ack.{no_header}
use go_udt.Udt.Recv.Data.{run_end, loss_range, nak_loop, send_nak}

module _ (rl : List RecvLossEntry) (cur far_recd far_next : PacketId) where
  -- The loop never moves on to another number.
  pub nak_loop-stuck :
      (i : ℕ) (e : RecvLossEntry)
      → (cur == far_next) ≡ false
      → entry_at rl (RecvLoss.min rl cur far_recd) ≡ some (some (i, e))
      → (fuel : ℕ) (info : List ℕ) → nak_loop fuel rl cur far_recd far_next info ≡ none
  unfolding nak_loop
  nak_loop-stuck i e gap finds zero info = refl
  nak_loop-stuck i e gap finds (suc fuel) info =
      elim (Option-cases (run_end (suc (length rl)) rl e.packet_id)) [
        | inl r ↦ rw (nak_loop, gap, finds, r) refl
        | inr (last, r) ↦
            rw
              (
                nak_loop,
                gap,
                finds,
                r,
                nak_loop-stuck i e gap finds fuel (info ++ loss_range e.packet_id last),
              )
              refl
      ]

  -- Nor does a Min that does not return.
  nak_loop-no_min :
      (cur == far_next) ≡ false
      → entry_at rl (RecvLoss.min rl cur far_recd) ≡ none
      → (fuel : ℕ) → nak_loop fuel rl cur far_recd far_next [] ≡ none
  unfolding nak_loop
  nak_loop-no_min gap stuck zero = refl
  nak_loop-no_min gap stuck (suc fuel) = rw (nak_loop, gap, stuck) refl

-- sendNAK reports no loss at all: either it sends a NAK without entries, and keeps the state, or it
-- never returns, however many rounds its loop is given.
pub send_nak_outcome :
    (c : Context) (rl : List RecvLossEntry) (s : UdtSocketRecv)
    → ((fuel : ℕ)
        → send_nak (record c { fuel = suc fuel }) rl s
          ≡ some (tt, s, send_packet (nak (record { hdr = no_header; cmp_loss_info = [] })) ∷ []))
      ⊎ ((fuel : ℕ) → send_nak (record c { fuel = fuel }) rl s ≡ none)
unfolding send_nak nak_loop ◌>>=◌
send_nak_outcome c rl s = elim (Bool-cases (s.far_recd_pkt_seq == s.far_next_pkt_seq)) [
  | inl e ↦ inl (λ fuel. rw (send_nak, nak_loop, e) refl)
  | inr e ↦
      elim (Option-cases (entry_at rl (RecvLoss.min rl s.far_recd_pkt_seq s.far_recd_pkt_seq))) [
        | inl stuck ↦ inr (λ fuel.
            rw
              (
                send_nak,
                nak_loop-no_min rl s.far_recd_pkt_seq s.far_recd_pkt_seq s.far_next_pkt_seq e stuck
                    fuel,
              )
              refl)
        | inr (none, nothing) ↦ inl (λ fuel. rw (send_nak, nak_loop, e, nothing) refl)
        | inr (some (i, entry), finds) ↦ inr (λ fuel.
            rw
              (
                send_nak,
                nak_loop-stuck rl s.far_recd_pkt_seq s.far_recd_pkt_seq s.far_next_pkt_seq i entry e
                    finds fuel [],
              )
              refl)
      ]
]
