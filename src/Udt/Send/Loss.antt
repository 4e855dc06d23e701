-- ===== src/Udt/Send/Loss.antt =====
-- processSendLoss: the first packet of the loss list is sent again.
use go_udt.Common.{ℕ, zero, suc, Bool, true, false, List, [], Option, none, some, length, get_elem?}
use go_udt.Packet.PktSeq.{PacketId}
use go_udt.Udt.Heap
use go_udt.Udt.Search.{found, missing, out_of_fuel, out_of_range}
use go_udt.Udt.Heaps.PacketIds
use go_udt.Udt.Heaps.SendPackets
use go_udt.Udt.Heaps.SendPackets.{SendPacketEntry}
use go_udt.Udt.Send.State.{Handler, return, get, put, stop, ◌>>=◌, ◌>>◌}
use go_udt.Udt.Send.Expire.{is_expired, nil_if_empty, send_data_packet}

-- The entry that Find returns a pointer to; the outer `none` where Find does not return.
unfoldable pub sent_packet : List SendPacketEntry → PacketId → Option (Option SendPacketEntry)
unfolding SendPackets.find
sent_packet pend id = elim (SendPackets.find pend id) [
  | found i ↦ some (get_elem? pend i)
  | missing ↦ some none
  | _ ↦ none
]

-- The list that a nil or an empty loss list stands for.
abbrev pub loss_or_nil : Option (List PacketId) → List PacketId
loss_or_nil none = []
loss_or_nil (some h) = h

-- The packet to send again, from a loss list: each round takes an entry away.
unfoldable pub loss_loop : ℕ → ℕ → List SendPacketEntry → Handler (Option SendPacketEntry)
unfolding PacketIds.min Heap.remove sent_packet
loss_loop zero now pend = stop
loss_loop (suc fuel) now pend = do
  s ← get
  let loss = loss_or_nil s.send_loss_list
  elim (PacketIds.min loss s.recv_ack_seq s.send_pkt_seq) [
    | missing ↦ return none
    | out_of_fuel ↦ stop
    | out_of_range ↦ stop
    | found i ↦ elim (get_elem? loss i) [
      | none ↦ stop
      | some min_loss ↦ elim (Heap.remove PacketIds.less loss i) [
        | none ↦ stop
        | some loss' ↦ do
          put (record s { send_loss_list = nil_if_empty (some loss') })
          elim (sent_packet pend min_loss) [
            | none ↦ stop
            | some none ↦ loss_loop fuel now pend
            | some (some dp) ↦ elim (is_expired now dp) [
              | true ↦ loss_loop fuel now pend
              | false ↦ return (some dp)
            ]
          ]
      ]
    ]
  ]

unfoldable pub process_send_loss : ℕ → Handler Bool
unfolding loss_loop send_data_packet
process_send_loss now = do
  s ← get
  elim s.send_loss_list [
    | none ↦ return false
    | some loss ↦ elim s.send_pkt_pend [
      | none ↦ return false
      | some pend ↦ do
        dp ← loss_loop (suc (length loss)) now pend
        elim dp [ none ↦ return false | some dp ↦ do send_data_packet now dp true; return true ]
    ]
  ]
