-- ===== src/Udt/Send/Data.antt =====
-- processDataMsg: a message is cut into data packets.
pub mod Datagram
use go_udt.Common.{
  ℕ, ◌+◌, ◌%◌, ◌^◌, Bool, true, false, not, ◌&&◌, ◌||◌, List, [], ◌∷◌, ◌++◌, Option, none, some,
  length, take, drop, ltb, ◌==◌, if◌then◌else◌,
}
use go_udt.Packet.PktSeq.{PacketId, incr}
use go_udt.Packet.Data.{DataPacket, set_message_data, mb_first, mb_last, mb_middle, mb_only}
use go_udt.Udt.Heaps.SendPackets.{SendPacketEntry}
use go_udt.Udt.Send.State.{
  UdtSocketSend, SendMessage, Socket, Handler, return, get, put, ◌>>=◌, ◌>>◌,
}
use go_udt.Udt.Send.Expire.{send_data_packet}

-- `&packet.DataPacket{Seq: seq, Data: content}`
abbrev pub new_packet : PacketId → List ℕ → DataPacket
new_packet seq content = record { seq = seq; msg = 0; ts = 0; dst_sock_id = 0; content = content }

-- The boundary of a packet that is full.
abbrev pub full_state : Bool → Bool → ℕ
full_state is_datagram is_first =
    if is_datagram then (if is_first then mb_first else mb_middle) else mb_only

-- The boundary of a packet that is not.
abbrev pub rest_state : Bool → Bool → ℕ
rest_state is_datagram is_first =
    if is_datagram then (if is_first then mb_only else mb_last) else mb_only

-- The bytes that fill a packet, and what is left of the message behind them.
abbrev pub cut : ℕ → SendMessage → List ℕ × Option SendMessage
cut mtu m =
    if length m.content == mtu
    then (m.content, none)
    else (take mtu m.content, some (record m { content = drop mtu m.content }))

-- `if msgLen == mtu { … } else { … }`, IncrPktSeq, SetMessageData and sendDataPacket
unfoldable pub send_piece :
    ℕ → Socket → ℕ → SendMessage → List ℕ → Option SendMessage → Handler (Unit {0})
unfolding incr set_message_data send_data_packet
send_piece now sock state m piece left = do
  s ← get
  let dp = set_message_data (new_packet s.send_pkt_seq piece) state (not sock.is_datagram) s.msg_seq
  put (record s { msg_partial_send = left; send_pkt_seq = incr s.send_pkt_seq })
  send_data_packet now (record { pkt = dp; tim = m.tim; ttl = m.ttl }) false

-- `send only if this is a datagram or there's nothing obvious left`
abbrev pub send_rest : ℕ → Socket → Bool → SendMessage → Handler (Unit {0})
send_rest now sock is_first m =
    send_piece now sock (rest_state sock.is_datagram is_first) m m.content none

-- One round of the loop, with what it does where the message does not fill a packet.
unfoldable pub round :
    ℕ
    → Socket
    → Bool
    → List SendMessage
    → (SendMessage → Handler (List SendMessage))
    → Handler (List SendMessage)
unfolding send_piece
round now sock is_first in_chan not_full = do
  s ← get
  elim s.msg_partial_send [
    | none ↦ return in_chan
    | some m ↦ do
      put (record s {
        msg_seq = if is_first || not sock.is_datagram then (s.msg_seq + 1) % 2 ^ 32 else s.msg_seq;
      })
      elim (ltb (length m.content) sock.mtu) [
        | true ↦ not_full m
        | false ↦ do
          let (piece, left) = cut sock.mtu m
          send_piece now sock (full_state sock.is_datagram is_first) m piece left
          return in_chan
      ]
  ]

-- The handler is given the messages that are on the channel when it looks, and returns those that
-- it has left there. `continue` takes one.
unfoldable pub process_data_msg : ℕ → Socket → Bool → List SendMessage → Handler (List SendMessage)
unfolding round
process_data_msg now sock is_first [] =
    round now sock is_first [] (λ m. send_rest now sock is_first m >> return [])
process_data_msg now sock is_first (next ∷ rest) = round now sock is_first (next ∷ rest) (λ m.
    elim sock.is_datagram [
      | true ↦ send_rest now sock is_first m >> return (next ∷ rest)
      | false ↦ do
        s ← get
        put (record s {
          msg_partial_send = some (record m { content = m.content ++ next.content });
        })
        process_data_msg now sock is_first rest
    ])
