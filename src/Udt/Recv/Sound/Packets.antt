-- ===== src/Udt/Recv/Sound/Packets.antt =====
-- The invariant and the data packets.
use go_udt.Common.{ℕ, suc, ◌<◌, ◌≡◌, sym, ap, subst, ◌∙◌, Bool, true, false, List, length, arith}
use go_udt.Common.Int.{ℤ, is_pos, is_neg}
use go_udt.Packet.PktSeq.{PacketId, blind_diff}
use go_udt.Packet.Data.{DataPacket}
use go_udt.Udt.Heap
use go_udt.Udt.Heaps.RecvLoss
use go_udt.Udt.Heaps.RecvLoss.{RecvLossEntry}
use go_udt.Udt.Recv.State.{Context}
use go_udt.Udt.Recv.Assemble.{
  must_wait, gather, store, acknowledge, deliver, attempt_process_packet,
}
use go_udt.Udt.Recv.Data.{
  send_nak, skip_with, skip_to, fill_gap, place_at, place, process, ingest_data,
}
use go_udt.Udt.Recv.Sound.{
  IsFilled, Sound, Takes, bind-Takes, get-Takes, get_at-Takes, weaken-Takes, decided-Takes,
  put-Takes, return-Takes, emit-Takes, need_some-Takes, cases-Takes, list-Takes, given-Takes,
}
use go_udt.Udt.Recv.Sound.Acks.{send_light_ack-Sound, ack_event-Sound}
use go_udt.Udt.Recv.Sound.Slices.{
  add_pending-IsFilled, left_pending-IsFilled, notes-Sound, with_losses-IsFilled, new_loss-IsFilled,
}

store-Sound : (p : DataPacket) (is_new : Bool) → Takes Sound Sound (store p is_new)
unfolding store
store-Sound p false = return-Takes
store-Sound p true = get-Takes (λ s h. put-Takes (h.0, h.1, add_pending-IsFilled p s.recv_pkt_pend))

acknowledge-Sound : (c : Context) → Takes Sound Sound (acknowledge c)
unfolding acknowledge
acknowledge-Sound c = get-Takes (λ s h. bind-Takes (put-Takes h) (λ _.
    cases-Takes _ (ack_event-Sound c) (
      cases-Takes _ (bind-Takes send_light_ack-Sound (λ _. get-Takes (λ s' h'. put-Takes h')))
        return-Takes)))

deliver-Sound : (pieces : List DataPacket) → Takes Sound Sound (deliver pieces)
unfolding deliver
deliver-Sound pieces = get-Takes (λ s h.
    given-Takes IsFilled _ (left_pending-IsFilled pieces s.recv_pkt_pend) (λ pend filled.
      bind-Takes (put-Takes (h.0, h.1, filled)) (λ _. bind-Takes emit-Takes (λ _. return-Takes))))

pub attempt_process_packet-Sound :
    (c : Context) (p : DataPacket) (is_new : Bool)
    → Takes Sound Sound (attempt_process_packet c p is_new)
unfolding attempt_process_packet
attempt_process_packet-Sound c p is_new = get-Takes (λ s h.
    cases-Takes (must_wait s p) (bind-Takes (store-Sound p is_new) (λ _. return-Takes)) (
      bind-Takes (need_some-Takes (gather s p)) (λ found. bind-Takes (acknowledge-Sound c) (λ _.
        cases-Takes found.0 (bind-Takes (store-Sound p is_new) (λ _. return-Takes))
          (deliver-Sound found.1)))))

send_nak-Sound : (c : Context) (rl : List RecvLossEntry) → Takes Sound Sound (send_nak c rl)
unfolding send_nak
send_nak-Sound c rl = get-Takes (λ s h. bind-Takes (need_some-Takes _) (λ info. emit-Takes))

skip_with-Sound :
    (c : Context) (seq : PacketId) (new : List RecvLossEntry)
    → 0 < length new
    → Takes Sound Sound (skip_with c seq new)
unfolding skip_with
skip_with-Sound c seq new some_new = get-Takes (λ s h.
    bind-Takes (put-Takes (h.0, with_losses-IsFilled s.recv_loss_list new h.1 some_new, h.2)) (λ _.
      bind-Takes (send_nak-Sound c (Heap.init RecvLoss.less new))
        (λ _. get-Takes (λ s' h'. put-Takes h'))))

skip_to-Sound :
    (c : Context) (seq : PacketId)
    → Takes
        (λ s. Sound s × (is_pos (blind_diff seq s.far_next_pkt_seq) ≡ true))
        Sound
        (skip_to c seq)
unfolding skip_to
skip_to-Sound c seq = get-Takes (λ s h.
    given-Takes (λ l. 0 < length l) _ (new_loss-IsFilled s.far_next_pkt_seq seq h.1)
      (λ new some_new. weaken-Takes (λ t h'. h'.0) (skip_with-Sound c seq new some_new)))

fill_gap-Sound : (seq : PacketId) → Takes Sound Sound (fill_gap seq)
unfolding fill_gap
fill_gap-Sound seq = get-Takes (λ s h. bind-Takes (need_some-Takes _) (λ r.
    cases-Takes r.1
      (list-Takes r.0 (bind-Takes (put-Takes (h.0, tt, h.2)) (λ _. return-Takes)) (λ e rest.
        bind-Takes (need_some-Takes _)
          (λ first. bind-Takes (put-Takes (h.0, filled rest, h.2)) (λ _. return-Takes))))
      return-Takes))
  where
    filled : (rest : List RecvLossEntry) → 0 < suc (length rest)
    filled rest = omega arith

place_at-Sound :
    (c : Context) (seq : PacketId) (d : ℤ)
    → Takes (λ s. Sound s × (blind_diff seq s.far_next_pkt_seq ≡ d)) Sound (place_at c seq d)
unfolding place_at
place_at-Sound c seq d =
    decided-Takes (is_pos d)
      (λ e.
        bind-Takes (weaken-Takes (λ s h. (h.0, ap is_pos h.1 ∙ e)) (skip_to-Sound c seq))
          (λ _. return-Takes))
      (λ _. weaken-Takes (λ s h. h.0) (cases-Takes (is_neg d) (fill_gap-Sound seq) return-Takes))

place-Sound : (c : Context) (seq : PacketId) → Takes Sound Sound (place c seq)
unfolding place
place-Sound c seq = get_at-Takes (λ s h.
    weaken-Takes (λ t e. (subst Sound (sym e) h, ap (λ u. blind_diff seq u.far_next_pkt_seq) e))
      (place_at-Sound c seq (blind_diff seq s.far_next_pkt_seq)))

process-Sound :
    (c : Context) (p : DataPacket) (fresh : Bool) → Takes Sound Sound (process c p fresh)
unfolding process
process-Sound c p false = return-Takes
process-Sound c p true = bind-Takes (attempt_process_packet-Sound c p true) (λ _. return-Takes)

pub ingest_data-Sound :
    (c : Context) (p : DataPacket) (now : ℕ) → Takes Sound Sound (ingest_data c p now)
unfolding ingest_data
ingest_data-Sound c p now = bind-Takes emit-Takes (λ _. get-Takes (λ s h.
    bind-Takes (put-Takes (notes-Sound now p.seq s h))
      (λ _. bind-Takes (place-Sound c p.seq) (process-Sound c p))))
