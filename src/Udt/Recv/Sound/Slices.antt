-- ===== src/Udt/Recv/Sound/Slices.antt =====
-- The windows and the heaps of the receiver, as the invariant has them.
use go_udt.Common.{
  ℕ, zero, suc, ◌+◌, ◌-◌, ◌%◌, ◌^◌, ◌≤◌, ◌<◌, ◌≡◌, ap, subst, Bool, true, false, List, [], ◌∷◌,
  ◌++◌, Option, none, some, length, length-drop, length-perm, Bool-cases, inl, inr, ltb, ◌==◌,
  arith,
}
use mathlib.Core.Option
use go_udt.Common.Int.{pos, is_pos}
use go_udt.Packet.PktSeq.{PacketId, blind_diff, incr}
use go_udt.Packet.PktSeq.Walk.{walk}
use go_udt.Packet.Data.{DataPacket}
use go_udt.Udt.Heap
use go_udt.Udt.Heap.Contents.{init-perm, push-perm}
use go_udt.Udt.Heaps.DataPackets
use go_udt.Udt.Heaps.RecvLoss
use go_udt.Udt.Heaps.RecvLoss.{RecvLossEntry}
use go_udt.Udt.Recv.State.{UdtSocketRecv, nil_if_empty}
use go_udt.Udt.Recv.Assemble.{add_pending, remove_pieces, left_pending}
use go_udt.Udt.Recv.Data.{
  add_sample, add_interval, note_probe, note_arrival, lost_at, new_loss, push_losses, with_losses,
}
use go_udt.Udt.Recv.Sound.{IsWindow, IsFilled, Sound, Every}

push-IsFilled :
    {A : Type 0} (less : A → A → Bool) (h : List A) (x : A) → 0 < length (Heap.push less h x)
push-IsFilled less h x = omega (arith, length-perm (push-perm less h x))

init-IsFilled :
    {A : Type 0} (less : A → A → Bool) (h : List A) → 0 < length h → 0 < length (Heap.init less h)
init-IsFilled less h some_in = omega (arith, length-perm (init-perm less h))

pub nil_if_empty-IsFilled : {A : Type 0} (h : List A) → IsFilled (nil_if_empty h)
nil_if_empty-IsFilled [] = tt
nil_if_empty-IsFilled (x ∷ h) = omega arith

pub add_pending-IsFilled :
    (p : DataPacket) (o : Option (List DataPacket)) → 0 < length (add_pending p o)
unfolding add_pending
add_pending-IsFilled p none = init-IsFilled DataPackets.less (p ∷ []) (omega arith)
add_pending-IsFilled p (some h) = push-IsFilled DataPackets.less h p

pub left_pending-IsFilled :
    (pieces : List DataPacket) (o : Option (List DataPacket))
    → Every IsFilled (left_pending pieces o)
unfolding left_pending
left_pending-IsFilled pieces none = tt
left_pending-IsFilled pieces (some pend) = filled (remove_pieces pieces pend)
  where
    filled : (o : Option (List DataPacket)) → Every IsFilled (Option.map nil_if_empty o)
    filled none = tt
    filled (some h) = nil_if_empty-IsFilled h

add_sample-IsWindow : (o : Option (List ℕ)) (d : ℕ) → IsWindow o → length (add_sample o d) ≤ 16
unfolding add_sample
add_sample-IsWindow none d h = omega arith
add_sample-IsWindow (some w) d h = elim (Bool-cases (ltb 16 (length (w ++ d ∷ [])))) [
  | inl e ↦
      rw (add_sample, e) (omega (arith, length-drop (length (w ++ d ∷ []) - 16) (w ++ d ∷ [])))
  | inr e ↦ rw (add_sample, e) (ground arith)
]

add_interval-IsWindow :
    (last : Option ℕ) (now : ℕ) (o : Option (List ℕ))
    → IsWindow o
    → IsWindow (add_interval last now o)
unfolding add_interval
add_interval-IsWindow none now o h = h
add_interval-IsWindow (some last) now o h = add_sample-IsWindow o (now - last) h

pub notes-Sound :
    (now : ℕ) (seq : PacketId) (s : UdtSocketRecv)
    → Sound s
    → Sound (note_arrival now (note_probe now seq s))
unfolding note_arrival note_probe
notes-Sound now seq s h = elim (Bool-cases ((seq + 2 ^ 32 - 1) % 16 == 0)) [
  | inl e ↦
      rw (note_probe, e)
        (
          (
            add_interval-IsWindow s.recv_last_arrival now s.recv_pkt_history h.0.0,
            add_interval-IsWindow s.recv_last_probe now s.recv_pkt_pair_history h.0.1,
          ),
          h.1,
          h.2,
        )
  | inr e ↦
      rw (note_probe, e)
        ((add_interval-IsWindow s.recv_last_arrival now s.recv_pkt_history h.0.0, h.0.1), h.1, h.2)
]

push_losses-IsFilled : (es h : List RecvLossEntry) → 0 < length h → 0 < length (push_losses h es)
unfolding push_losses
push_losses-IsFilled [] h filled = filled
push_losses-IsFilled (e ∷ es) h filled =
    push_losses-IsFilled es (Heap.push RecvLoss.less h e) (push-IsFilled RecvLoss.less h e)

pub with_losses-IsFilled :
    (o : Option (List RecvLossEntry)) (new : List RecvLossEntry)
    → IsFilled o
    → 0 < length new
    → 0 < length (with_losses o new)
unfolding with_losses
with_losses-IsFilled none new h some_new = init-IsFilled RecvLoss.less new some_new
with_losses-IsFilled (some l) new h some_new = push_losses-IsFilled new l h

-- Where the loop makes a round, it visits a number.
walk-IsFilled :
    (fuel : ℕ) (a b : PacketId) (seq : PacketId)
    → (a == b) ≡ false
    → Every (λ l. 0 < length l) (Option.map (lost_at seq) (walk fuel a b))
unfolding walk
walk-IsFilled zero a b seq apart = tt
walk-IsFilled (suc fuel) a b seq apart = rw (walk, apart) (filled (walk fuel (incr a) b))
  where
    filled :
        (o : Option (List PacketId))
        → Every (λ l. 0 < length l) (Option.map (lost_at seq) (Option.map (◌∷◌ a) o))
    filled none = tt
    filled (some ids) = omega arith

same_diff : (a : PacketId) → blind_diff a a ≡ pos 0
unfolding blind_diff
same_diff a = ground arith

eq→≡ : (a b : ℕ) → (a == b) ≡ true → a ≡ b
eq→≡ a b e = ground arith

ahead_apart :
    (far_next seq : PacketId) → is_pos (blind_diff seq far_next) ≡ true → (far_next == seq) ≡ false
ahead_apart far_next seq ahead = elim (Bool-cases (far_next == seq)) [
  | inr e ↦ e
  | inl e ↦
      let at_zero : is_pos (blind_diff seq seq) ≡ true =
        subst (λ n. is_pos (blind_diff seq n) ≡ true) (eq→≡ far_next seq e) ahead in
      let zero_diff : is_pos (blind_diff seq seq) ≡ false = ap is_pos (same_diff seq) in cc
]

pub new_loss-IsFilled :
    (far_next seq : PacketId)
    → is_pos (blind_diff seq far_next) ≡ true
    → Every (λ l. 0 < length l) (new_loss far_next seq)
unfolding new_loss
new_loss-IsFilled far_next seq ahead =
    walk-IsFilled (2 ^ 31) far_next seq seq (ahead_apart far_next seq ahead)
