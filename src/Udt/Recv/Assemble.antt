-- ===== src/Udt/Recv/Assemble.antt =====
-- attemptProcessPacket: the pieces of a message, and its way to the reader.
use go_udt.Common.{
  ℕ, zero, suc, ◌+◌, ◌*◌, ◌%◌, ◌^◌, Bool, true, false, not, ◌&&◌, ◌||◌, List, [], ◌∷◌, ◌++◌, Option,
  none, some, length, ltb, leb, ◌==◌, if◌then◌else◌,
}
use go_udt.Common.Int.{pos, negsuc}
use mathlib.Core.Option
use go_udt.Packet.PktSeq.{PacketId, decr, add}
use go_udt.Packet.Data.{DataPacket, mb_first, mb_last, mb_middle, get_message_data}
use go_udt.Udt.Heap
use go_udt.Udt.Heaps.RecvLoss
use go_udt.Udt.Heaps.RecvLoss.{RecvLossEntry}
use go_udt.Udt.Heaps.DataPackets
use go_udt.Udt.Recv.State.{
  UdtSocketRecv, message_in, Handler, Context, entry_at, nil_if_empty, ◌>>=◌, ◌>>◌, return, get,
  put, emit, need_some,
}
use go_udt.Udt.Recv.Ack.{is_some, send_light_ack, ack_event}

-- Whether a number is in the loss list, that may be nil; `none` where Find does not return.
unfoldable pub is_lost : Option (List RecvLossEntry) → PacketId → Option Bool
unfolding RecvLoss.find
is_lost none seq = some false
is_lost (some h) seq = Option.map is_some (entry_at h (RecvLoss.find h seq))

-- The loop over the prior pieces: `cannotContinue`, and the pieces. The numbers that it looks up
-- differ, so it finds no more than there are.
unfoldable pub back_loop :
    ℕ
    → List DataPacket
    → Option (List RecvLossEntry)
    → ℕ
    → PacketId
    → List DataPacket
    → Option (Bool × List DataPacket)
unfolding DataPackets.find get_message_data is_lost decr
back_loop zero pend loss msg_id piece_seq pieces = none
back_loop (suc fuel) pend loss msg_id piece_seq pieces =
    elim (entry_at pend (DataPackets.find pend piece_seq)) [
      | none ↦ none
      | some none ↦ Option.map (λ missing. (missing, pieces)) (is_lost loss piece_seq)
      | some (some (i, piece)) ↦
          let (boundary, order, msg) = get_message_data piece in
          elim (not (msg == msg_id)) [
            | true ↦ some (false, pieces)
            | false ↦ elim (boundary == mb_first) [
              | true ↦ some (false, piece ∷ pieces)
              | false ↦ back_loop fuel pend loss msg_id (decr piece_seq) (piece ∷ pieces)
            ]
          ]
    ]

-- The loop over the following pieces. It looks the same number up in each round, so it ends in the
-- first one or never.
unfoldable pub next_loop :
    ℕ
    → List DataPacket
    → Option (List RecvLossEntry)
    → PacketId
    → ℕ
    → PacketId
    → List DataPacket
    → Option (Bool × List DataPacket)
unfolding DataPackets.find get_message_data is_lost
next_loop zero pend loss far_next msg_id piece_seq pieces = none
next_loop (suc fuel) pend loss far_next msg_id piece_seq pieces =
    elim (entry_at pend (DataPackets.find pend piece_seq)) [
      | none ↦ none
      | some none ↦
          if piece_seq == far_next
          then some (true, pieces)
          else Option.map (λ missing. (missing, pieces)) (is_lost loss piece_seq)
      | some (some (i, piece)) ↦
          let (boundary, order, msg) = get_message_data piece in
          elim (not (msg == msg_id)) [
            | true ↦ some (false, pieces)
            | false ↦ elim (boundary == mb_last) [
              | true ↦ some (false, pieces ++ piece ∷ [])
              | false ↦ next_loop fuel pend loss far_next msg_id piece_seq (pieces ++ piece ∷ [])
            ]
          ]
    ]

-- The first `switch`
unfoldable pub prior_pieces : UdtSocketRecv → ℕ → ℕ → PacketId → Option (Bool × List DataPacket)
unfolding back_loop add
prior_pieces s boundary msg_id seq = elim ((boundary == mb_last) || (boundary == mb_middle)) [
  | false ↦ some (false, [])
  | true ↦ elim s.recv_pkt_pend [
    | none ↦ some (false, [])
    | some pend ↦ back_loop (suc (length pend)) pend s.recv_loss_list msg_id (add seq (negsuc 0)) []
  ]
]

-- The second `switch`
unfoldable pub following_pieces :
    UdtSocketRecv → ℕ → ℕ → PacketId → List DataPacket → Option (Bool × List DataPacket)
unfolding next_loop add
following_pieces s boundary msg_id seq pieces =
    elim ((boundary == mb_first) || (boundary == mb_middle)) [
      | false ↦ some (false, pieces)
      | true ↦ elim s.recv_pkt_pend [
        | none ↦ some (false, pieces)
        | some pend ↦
            next_loop (suc (length pend)) pend s.recv_loss_list s.far_next_pkt_seq msg_id
              (add seq (pos 1)) pieces
      ]
    ]

unfoldable pub gather : UdtSocketRecv → DataPacket → Option (Bool × List DataPacket)
unfolding get_message_data prior_pieces following_pieces
gather s p =
    let (boundary, order, msg_id) = get_message_data p in
    elim (prior_pieces s boundary msg_id p.seq) [
      | none ↦ none
      | some (true, pieces) ↦ some (true, pieces)
      | some (false, pieces) ↦ following_pieces s boundary msg_id p.seq (pieces ++ p ∷ [])
    ]

-- `if isNew { … }`
unfoldable pub add_pending : DataPacket → Option (List DataPacket) → List DataPacket
unfolding Heap.init Heap.push
add_pending p none = Heap.init DataPackets.less (p ∷ [])
add_pending p (some h) = Heap.push DataPackets.less h p

unfoldable pub store : DataPacket → Bool → Handler (Unit {0})
unfolding add_pending
store p false = return tt
store p true = do s ← get; put (record s { recv_pkt_pend = some (add_pending p s.recv_pkt_pend) })

-- `ackSelfClockInterval*s.lightAckCount <= s.unackPktCount`, of uints
unfoldable pub acknowledge : Context → Handler (Unit {0})
unfolding ack_event send_light_ack
acknowledge c = do
  s ← get
  let count = (s.unack_pkt_count + 1) % 2 ^ 64
  put (record s { unack_pkt_count = count })
  elim (ltb 0 s.ack_interval && leb s.ack_interval count) [
    | true ↦ ack_event c
    | false ↦ elim (leb (64 * s.light_ack_count % 2 ^ 64) count) [
      | true ↦ do
        send_light_ack
        s ← get
        put (record s { light_ack_count = (s.light_ack_count + 1) % 2 ^ 64 })
      | false ↦ return tt
    ]
  ]

-- `for _, piece := range pieces { s.recvPktPend.Remove(piece.Seq) }`
unfoldable pub remove_pieces : List DataPacket → List DataPacket → Option (List DataPacket)
unfolding DataPackets.remove
remove_pieces [] pend = some pend
remove_pieces (piece ∷ pieces) pend = elim (DataPackets.remove pend piece.seq) [
  | none ↦ none
  | some (pend', removed) ↦ remove_pieces pieces pend'
]

unfoldable pub left_pending :
    List DataPacket → Option (List DataPacket) → Option (Option (List DataPacket))
unfolding remove_pieces
left_pending pieces none = some none
left_pending pieces (some pend) = Option.map nil_if_empty (remove_pieces pieces pend)

-- `for _, piece := range pieces { msg = append(msg, piece.Data...) }`
abbrev pub contents : List DataPacket → List ℕ
contents [] = []
contents (piece ∷ pieces) = piece.content ++ contents pieces

unfoldable pub deliver : List DataPacket → Handler Bool
unfolding left_pending
deliver pieces = do
  s ← get
  pend ← need_some (left_pending pieces s.recv_pkt_pend)
  put (record s { recv_pkt_pend = pend })
  emit (message_in (contents pieces))
  return true

-- The first `if`
unfoldable pub must_wait : UdtSocketRecv → DataPacket → Bool
unfolding get_message_data add
must_wait s p =
    is_some s.recv_loss_list
    && ((get_message_data p).1 && not (add s.far_recd_pkt_seq (pos 1) == p.seq))

unfoldable pub attempt_process_packet : Context → DataPacket → Bool → Handler Bool
unfolding must_wait gather acknowledge store deliver
attempt_process_packet c p is_new = do
  s ← get
  elim (must_wait s p) [
    | true ↦ do store p is_new; return false
    | false ↦ do
      found ← need_some (gather s p)
      acknowledge c
      elim found.0 [ true ↦ do store p is_new; return false | false ↦ deliver found.1 ]
  ]
