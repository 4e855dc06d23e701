-- ===== src/Udt/Send/Nak.antt =====
-- ingestNak: the loss ranges that a NAK lists.
pub mod Unpack
pub mod Outcome
use go_udt.Common.{
  ℕ, zero, suc, ◌+◌, ◌%◌, ◌^◌, Bool, true, false, List, [], ◌∷◌, ◌++◌, Option, none, some, length,
  leb, ◌==◌, if◌then◌else◌,
}
use go_udt.Common.Int.{is_neg}
use go_udt.Packet.PktSeq.{PacketId, blind_diff}
use go_udt.Packet.PktSeq.Walk.{walk}
use go_udt.Packet.Nak.{NakPacket}
use go_udt.Udt.Heap
use go_udt.Udt.Heaps.PacketIds
use go_udt.Udt.Send.State.{
  UdtSocketSend, Handler, SendState, process_drop, Effect, shutdown_event, corrupted, cong_nak,
  return, get, put, emit, stop, ◌>>=◌, ◌>>◌,
}

-- `s.sendPktSeq.BlindDiff(pktSeq) < 0`
unfoldable pub is_unsent : PacketId → PacketId → Bool
unfolding blind_diff
is_unsent send_pkt_seq pkt_seq = is_neg (blind_diff send_pkt_seq pkt_seq)

-- assertValidSentPktID
unfoldable pub assert_valid_sent_pkt_id : PacketId → Handler Bool
unfolding is_unsent
assert_valid_sent_pkt_id pkt_seq = do
  s ← get
  elim (is_unsent s.send_pkt_seq pkt_seq) [
    | true ↦ do emit (shutdown_event corrupted false); return false
    | false ↦ return true
  ]

-- `thisEntry&0x80000000 != 0`, of a uint32
abbrev pub is_range_start : ℕ → Bool
is_range_start e = leb (2 ^ 31) e

-- `for span := thisPktID; span != lastPktID; span.Incr() { … }`; a range of sequence numbers has
-- less than 2 ^ 31 of them, so the fuel is enough.
unfoldable pub span : PacketId → PacketId → Option (List PacketId)
unfolding walk
span this_pkt_id last_pkt_id = walk (2 ^ 31) this_pkt_id last_pkt_id

-- `for idx := 0; idx < clen; idx++ { … }`: what it appends to newLossList, or `none` where it
-- has reported the packet and returns.
unfoldable pub unpack : List ℕ → Handler (Option (List PacketId))
unfolding assert_valid_sent_pkt_id
unpack [] = return (some [])
unpack (e ∷ []) = elim (is_range_start e) [
  | true ↦ do emit (shutdown_event corrupted false); return none
  | false ↦ do valid ← assert_valid_sent_pkt_id e; return (if valid then some (e ∷ []) else none)
]
unpack (e ∷ last ∷ es) = elim (is_range_start e) [
  | true ↦ do
    let this = e % 2 ^ 31
    valid ← assert_valid_sent_pkt_id this
    elim valid [
      | false ↦ return none
      | true ↦ elim (is_range_start last) [
        | true ↦ do emit (shutdown_event corrupted false); return none
        | false ↦ do
          valid ← assert_valid_sent_pkt_id last
          elim valid [
            | false ↦ return none
            | true ↦ elim (span this last) [
              | none ↦ stop
              | some ids ↦ do
                rest ← unpack es
                return (elim rest [ none ↦ none | some r ↦ some (ids ++ r) ])
            ]
          ]
      ]
    ]
  | false ↦ do
    valid ← assert_valid_sent_pkt_id e
    elim valid [
      | false ↦ return none
      | true ↦ do
        rest ← unpack (last ∷ es)
        return (elim rest [ none ↦ none | some r ↦ some (e ∷ r) ])
    ]
]

-- `for idx := 0; idx < llen; idx++ { heap.Push(&s.sendLossList, newLossList[idx]) }`
abbrev pub push_all : List PacketId → List PacketId → List PacketId
unfolding Heap.push
push_all h [] = h
push_all h (id ∷ ids) = push_all (Heap.push PacketIds.less h id) ids

-- The loss list with the new entries
abbrev pub add_losses : Option (List PacketId) → List PacketId → List PacketId
unfolding Heap.init
add_losses none new = Heap.init PacketIds.less new
add_losses (some h) new = push_all h new

unfoldable pub ingest_nak : NakPacket → Handler (Unit {0})
unfolding unpack
ingest_nak p = do
  new ← unpack p.cmp_loss_info
  elim new [
    | none ↦ return tt
    | some new ↦ do
      emit (cong_nak new)
      s ← get
      put (record s {
        send_loss_list = some (add_losses s.send_loss_list new);
        send_state = process_drop;
      })
  ]
