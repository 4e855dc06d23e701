-- ===== src/Udt/Recv/Data.antt =====
-- ingestData and sendNAK.
pub mod Loss
pub mod Whole
pub mod Order
use go_udt.Common.{
  ℕ, zero, suc, ◌+◌, ◌-◌, ◌*◌, ◌%◌, ◌^◌, Bool, true, false, List, [], ◌∷◌, ◌++◌, Option, none, some,
  length, get_elem?, drop, ltb, ◌==◌, if◌then◌else◌,
}
use go_udt.Common.Int.{ℤ, pos, negsuc, is_neg, is_pos}
use mathlib.Core.Option
use go_udt.Packet.PktSeq.{PacketId, add, blind_diff}
use go_udt.Packet.PktSeq.Walk.{walk}
use go_udt.Packet.Data.{DataPacket}
use go_udt.Packet.Nak.{NakPacket}
use go_udt.Packet.Any.{nak}
use go_udt.Udt.Heap
use go_udt.Udt.Heaps.RecvLoss
use go_udt.Udt.Heaps.RecvLoss.{RecvLossEntry}
use go_udt.Udt.Recv.State.{
  UdtSocketRecv, Effect, send_packet, cong_pkt_recv, Handler, Context, entry_at, entries, ◌>>=◌,
  ◌>>◌, return, get, put, emit, need_some,
}
use go_udt.Udt.Recv.Ack.{no_header}
use go_udt.Udt.Recv.Assemble.{attempt_process_packet}

-- `h = append(h, d)`, cut to its last 16 entries
unfoldable pub add_sample : Option (List ℕ) → ℕ → List ℕ
add_sample none d = d ∷ []
add_sample (some h) d =
    let h' = h ++ d ∷ [] in if ltb 16 (length h') then drop (length h' - 16) h' else h'

-- The window behind a packet at `now`, where the one before it was at `last`
unfoldable pub add_interval : Option ℕ → ℕ → Option (List ℕ) → Option (List ℕ)
unfolding add_sample
add_interval none now h = h
add_interval (some last) now h = some (add_sample h (now - last))

-- `if (seq.Seq-1)&0xf == 0 { … }`
unfoldable pub note_probe : ℕ → PacketId → UdtSocketRecv → UdtSocketRecv
unfolding add_interval
note_probe now seq s =
    if (seq + 2 ^ 32 - 1) % 16 == 0
    then record s {
      recv_pkt_pair_history = add_interval s.recv_last_probe now s.recv_pkt_pair_history;
      recv_last_probe = some now;
    }
    else s

unfoldable pub note_arrival : ℕ → UdtSocketRecv → UdtSocketRecv
unfolding add_interval
note_arrival now s = record s {
  recv_pkt_history = add_interval s.recv_last_arrival now s.recv_pkt_history;
  recv_last_arrival = some now;
}

-- The inner loop of sendNAK: the last of the numbers that follow one another in the heap. These
-- differ, so it finds no more than there are.
unfoldable pub run_end : ℕ → List RecvLossEntry → PacketId → Option PacketId
unfolding RecvLoss.find add
run_end zero rl last = none
run_end (suc fuel) rl last = elim (entry_at rl (RecvLoss.find rl (add last (pos 1)))) [
  | none ↦ none
  | some none ↦ some last
  | some (some e) ↦ run_end fuel rl (add last (pos 1))
]

-- `minPkt.Seq|0x80000000` sets the highest bit.
abbrev pub loss_range : PacketId → PacketId → List ℕ
loss_range first last =
    if last == first then first % 2 ^ 31 ∷ [] else (first % 2 ^ 31 + 2 ^ 31) ∷ last % 2 ^ 31 ∷ []

-- The outer loop of sendNAK
unfoldable pub nak_loop :
    ℕ → List RecvLossEntry → PacketId → PacketId → PacketId → List ℕ → Option (List ℕ)
unfolding RecvLoss.min run_end
nak_loop zero rl cur_pkt far_recd far_next loss_info = none
nak_loop (suc fuel) rl cur_pkt far_recd far_next loss_info = elim (cur_pkt == far_next) [
  | true ↦ some loss_info
  | false ↦ elim (entry_at rl (RecvLoss.min rl cur_pkt far_recd)) [
    | none ↦ none
    | some none ↦ some loss_info
    | some (some (i, e)) ↦ elim (run_end (suc (length rl)) rl e.packet_id) [
      | none ↦ none
      | some last ↦
          nak_loop fuel rl cur_pkt far_recd far_next (loss_info ++ loss_range e.packet_id last)
    ]
  ]
]

unfoldable pub send_nak : Context → List RecvLossEntry → Handler (Unit {0})
unfolding nak_loop
send_nak c rl = do
  s ← get
  info ← need_some (nak_loop c.fuel rl s.far_recd_pkt_seq s.far_recd_pkt_seq s.far_next_pkt_seq [])
  emit (send_packet (nak (record { hdr = no_header; cmp_loss_info = info })))

-- `recvLossEntry{packetID: seq}`, once for each number from farNextPktSeq up to seq
abbrev pub lost_at : PacketId → List PacketId → List RecvLossEntry
lost_at seq [] = []
lost_at seq (id ∷ ids) =
    record { packet_id = seq; last_feedback = 0; num_nak = 0 } ∷ lost_at seq ids

unfoldable pub new_loss : PacketId → PacketId → Option (List RecvLossEntry)
unfolding walk
new_loss far_next seq = Option.map (lost_at seq) (walk (2 ^ 31) far_next seq)

unfoldable pub push_losses : List RecvLossEntry → List RecvLossEntry → List RecvLossEntry
unfolding Heap.push
push_losses h [] = h
push_losses h (e ∷ es) = push_losses (Heap.push RecvLoss.less h e) es

unfoldable pub with_losses : Option (List RecvLossEntry) → List RecvLossEntry → List RecvLossEntry
unfolding Heap.init push_losses
with_losses none new = Heap.init RecvLoss.less new
with_losses (some h) new = push_losses h new

-- What follows `newLoss`
unfoldable pub skip_with : Context → PacketId → List RecvLossEntry → Handler (Unit {0})
unfolding with_losses send_nak add
skip_with c seq new = do
  s ← get
  put (record s { recv_loss_list = some (with_losses s.recv_loss_list new) })
  send_nak c (Heap.init RecvLoss.less new)
  s ← get
  put (record s { far_next_pkt_seq = add seq (pos 1) })

-- `if seqDiff > 0 { … }`
unfoldable pub skip_to : Context → PacketId → Handler (Unit {0})
unfolding new_loss skip_with
skip_to c seq = do s ← get; new ← need_some (new_loss s.far_next_pkt_seq seq); skip_with c seq new

-- The number that Min returns, 0 where it finds none
unfoldable pub min_lost : List RecvLossEntry → PacketId → PacketId → Option PacketId
unfolding RecvLoss.min
min_lost h from upto = elim (entry_at h (RecvLoss.min h from upto)) [
  | none ↦ none
  | some none ↦ some 0
  | some (some (i, e)) ↦ some e.packet_id
]

-- `else if seqDiff < 0 { … }`: `false` where the packet is not new
unfoldable pub fill_gap : PacketId → Handler Bool
unfolding RecvLoss.remove min_lost add
fill_gap seq = do
  s ← get
  r ← need_some (RecvLoss.remove (entries s.recv_loss_list) seq)
  elim r.1 [
    | false ↦ return false
    | true ↦ elim r.0 [
      | [] ↦ do
        put (record s {
          far_recd_pkt_seq = add s.far_next_pkt_seq (negsuc 0);
          recv_loss_list = none;
        })
        return true
      | e ∷ h ↦ do
        first ← need_some (min_lost (e ∷ h) s.far_recd_pkt_seq s.far_next_pkt_seq)
        put (record s { recv_loss_list = some (e ∷ h); far_recd_pkt_seq = first })
        return true
    ]
  ]

-- The `if` and the `else if` on `seqDiff`: whether the packet is to be processed
unfoldable pub place_at : Context → PacketId → ℤ → Handler Bool
unfolding skip_to fill_gap
place_at c seq seq_diff = elim (is_pos seq_diff) [
  | true ↦ do skip_to c seq; return true
  | false ↦ elim (is_neg seq_diff) [ true ↦ fill_gap seq | false ↦ return true ]
]

unfoldable pub place : Context → PacketId → Handler Bool
unfolding blind_diff place_at
place c seq = do s ← get; place_at c seq (blind_diff seq s.far_next_pkt_seq)

unfoldable pub process : Context → DataPacket → Bool → Handler (Unit {0})
unfolding attempt_process_packet
process c p false = return tt
process c p true = do attempt_process_packet c p true; return tt

unfoldable pub ingest_data : Context → DataPacket → ℕ → Handler (Unit {0})
unfolding note_probe note_arrival place process
ingest_data c p now = do
  emit (cong_pkt_recv p)
  s ← get
  put (note_arrival now (note_probe now p.seq s))
  fresh ← place c p.seq
  process c p fresh
