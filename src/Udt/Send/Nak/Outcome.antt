-- ===== src/Udt/Send/Nak/Outcome.antt =====
-- What ingestNak does with what a NAK lists.
use go_udt.Common.{
  ◌^◌, ◌<◌, ◌≡◌, ◌⊎◌, inl, inr, refl, false, List, [], ◌∷◌, ◌++◌, Option, none, some, All,
  append-nil,
}
use mathlib.Core.List.{Perm, perm_middle}
use go_udt.Packet.PktSeq.{PacketId}
use go_udt.Packet.Nak.{NakPacket}
use mathlib.Core.List.Perm
use go_udt.Udt.Send.Loss.{loss_or_nil}
use go_udt.Udt.Heap
use go_udt.Udt.Heap.Contents.{init-perm, push-perm}
use go_udt.Udt.Heaps.PacketIds
use go_udt.Udt.Send.State.{UdtSocketSend, process_drop, shutdown_event, corrupted, cong_nak, ◌>>=◌}
use go_udt.Udt.Send.Nak.{push_all, add_losses, ingest_nak}
use go_udt.Udt.Send.Nak.Unpack.{Lists, unpack_lem}

push_all-perm : (h ids : List PacketId) → Perm (push_all h ids) (ids ++ h)
unfolding push_all
push_all-perm h [] = Perm.refl h
push_all-perm h (id ∷ ids) =
    Perm.trans (push_all-perm (Heap.push PacketIds.less h id) ids) (
      Perm.trans (Perm.append_left ids (push-perm PacketIds.less h id))
        (perm_middle {a = id} ids h))

add_losses-perm :
    (old : Option (List PacketId)) (ids : List PacketId)
    → Perm (add_losses old ids) (ids ++ loss_or_nil old)
unfolding add_losses
add_losses-perm none ids = rw (append-nil ids) (init-perm PacketIds.less ids)
add_losses-perm (some h) ids = push_all-perm h ids

pub ingest_nak_outcome :
    (p : NakPacket) (s : UdtSocketSend)
    → All (λ e. e < 2 ^ 32) p.cmp_loss_info
    → ((ids loss : List PacketId) × Lists s.send_pkt_seq p.cmp_loss_info ids
        × (ingest_nak p s
            ≡ some (
              tt,
              record s { send_loss_list = some loss; send_state = process_drop },
              cong_nak ids ∷ [],
            ))
        × Perm loss (ids ++ loss_or_nil s.send_loss_list))
      ⊎ (((ids : List PacketId) → Lists s.send_pkt_seq p.cmp_loss_info ids → ⊥)
          × (ingest_nak p s ≡ some (tt, s, shutdown_event corrupted false ∷ [])))
unfolding ingest_nak
ingest_nak_outcome p s fits = elim (unpack_lem s p.cmp_loss_info fits) [
  | inl (ids, l, eq) ↦ inl (
    ids,
    add_losses s.send_loss_list ids,
    l,
    rw (ingest_nak, ◌>>=◌, eq) refl,
    add_losses-perm s.send_loss_list ids,
  )
  | inr (bad, eq) ↦ inr (bad, rw (ingest_nak, ◌>>=◌, eq) refl)
]
