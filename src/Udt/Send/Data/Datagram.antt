-- ===== src/Udt/Send/Data/Datagram.antt =====
-- The packets of a datagram.
use go_udt.Common.{
  ℕ, zero, suc, ◌+◌, ◌%◌, ◌^◌, ◌≤◌, ◌<◌, ◌≡◌, inl, inr, refl, ap, ◌∙◌, Bool, true, false, not, ◌||◌,
  List, [], ◌∷◌, ◌++◌, Option, none, some, length, take, drop, ltb, ◌==◌, arith, Bool-cases,
  if◌then◌else◌, append-nil, length-take,
}
use go_udt.Packet.PktSeq.{incr}
use go_udt.Packet.Data.{
  DataPacket, set_message_data, get_message_data, get_message_data-set_message_data,
}
use go_udt.Packet.Any.{data_pkt}
use go_udt.Udt.Heaps.SendPackets.{SendPacketEntry}
use go_udt.Udt.Send.State.{
  UdtSocketSend, SendMessage, Socket, Handler, Effect, send_packet, cong_data_pkt_sent, return,
  ◌>>=◌, ◌>>◌,
}
use go_udt.Udt.Monad.{after-nil}
use go_udt.Udt.Send.Expire.Pending.{send_data_packet_lem}
use go_udt.Udt.Send.Data.{
  new_packet, full_state, rest_state, cut, send_piece, round, process_data_msg,
}

-- What is left of a message.
abbrev pub left_content : Option SendMessage → List ℕ
left_content none = []
left_content (some m) = m.content

abbrev packet_of : UdtSocketSend → Bool → ℕ → List ℕ → DataPacket
packet_of s order state piece =
    set_message_data (new_packet s.send_pkt_seq piece) state order s.msg_seq

send_piece_lem :
    (now : ℕ) (sock : Socket) (state : ℕ) (m : SendMessage) (piece : List ℕ)
    (left : Option SendMessage) (s : UdtSocketSend)
    → (s.send_pkt_seq % 16 == 0) ≡ false
    → (s' : UdtSocketSend) × (send_piece now sock state m piece left s
        ≡ some (
          tt,
          s',
          cong_data_pkt_sent s.send_pkt_seq
              ∷ send_packet (data_pkt (packet_of s (not sock.is_datagram) state piece))
              ∷ [],
        ))
      × (s'.send_pkt_seq ≡ incr s.send_pkt_seq)
      × (s'.msg_partial_send ≡ left)
unfolding send_piece set_message_data
send_piece_lem now sock state m piece left s plain =
    let dp : SendPacketEntry = record {
      pkt = packet_of s (not sock.is_datagram) state piece;
      tim = m.tim;
      ttl = m.ttl;
    } in
    let s1 = record s { msg_partial_send = left; send_pkt_seq = incr s.send_pkt_seq } in
    let (s', runs, (pend, all, kept)) = send_data_packet_lem now dp false s1 plain in
    (
      s',
      rw (send_piece, ◌>>=◌, runs) refl,
      ap (λ t. t.send_pkt_seq) kept,
      ap (λ t. t.msg_partial_send) kept,
    )

take-append-drop : (n : ℕ) (xs : List ℕ) → take n xs ++ drop n xs ≡ xs
take-append-drop zero xs = refl
take-append-drop (suc n) [] = refl
take-append-drop (suc n) (x ∷ xs) = ap (◌∷◌ x) (take-append-drop n xs)

cut_whole :
    (mtu : ℕ) (m : SendMessage)
    → mtu ≤ length m.content
    → ((cut mtu m).0 ++ left_content (cut mtu m).1 ≡ m.content) × (length (cut mtu m).0 ≡ mtu)
cut_whole mtu m full = elim (Bool-cases (length m.content == mtu)) [
  | inl e ↦ rw e (append-nil m.content, ground arith)
  | inr e ↦ rw e (take-append-drop mtu m.content, omega (arith, length-take mtu m.content))
]

-- The boundary of a packet of a datagram.
abbrev boundary_of : Bool → Bool → Bool → ℕ
boundary_of short is_datagram is_first =
    if short then rest_state is_datagram is_first else full_state is_datagram is_first

boundary_of-lt : (short is_datagram is_first : Bool) → boundary_of short is_datagram is_first < 4
boundary_of-lt true true true = omega arith
boundary_of-lt true true false = omega arith
boundary_of-lt true false _ = omega arith
boundary_of-lt false true true = omega arith
boundary_of-lt false true false = omega arith
boundary_of-lt false false _ = omega arith

packet_of-boundary :
    (s : UdtSocketSend) (order : Bool) (state : ℕ) (piece : List ℕ)
    → state < 4
    → (get_message_data (packet_of s order state piece)).0 ≡ state
packet_of-boundary s order state piece h =
    ap (λ t. t.0)
      (get_message_data-set_message_data (new_packet s.send_pkt_seq piece) state order s.msg_seq
        h).0

-- What one call sends of a datagram: one packet, of at most mtu bytes, with the next sequence
-- number; its bytes and those left over are those of the message, in order.
abbrev pub SendsPiece :
    Socket
    → Bool
    → SendMessage
    → List SendMessage
    → UdtSocketSend
    → Option (List SendMessage × UdtSocketSend × List Effect)
    → Type 0
SendsPiece sock is_first m in_chan s o =
    (s' : UdtSocketSend) × (dp : DataPacket) × (o
      ≡ some (in_chan, s', cong_data_pkt_sent s.send_pkt_seq ∷ send_packet (data_pkt dp) ∷ []))
    × (dp.seq ≡ s.send_pkt_seq)
    × (s'.send_pkt_seq ≡ incr s.send_pkt_seq)
    × (dp.content ++ left_content s'.msg_partial_send ≡ m.content)
    × (length dp.content ≤ sock.mtu)
    × ((get_message_data dp).0
        ≡ boundary_of (ltb (length m.content) sock.mtu) sock.is_datagram is_first)

module _ (now : ℕ) (sock : Socket) (is_first : Bool) (m : SendMessage) (s : UdtSocketSend) where
  abbrev numbered : UdtSocketSend
  numbered = record s {
    msg_seq = if is_first || not sock.is_datagram then (s.msg_seq + 1) % 2 ^ 32 else s.msg_seq;
  }

  abbrev send : ℕ → List ℕ → Option SendMessage → List SendMessage → Handler (List SendMessage)
  send state piece left in_chan = send_piece now sock state m piece left >> return in_chan

  -- A piece that is sent is what `SendsPiece` asks, if it is the right one.
  sends :
      {o : Option (List SendMessage × UdtSocketSend × List Effect)}
      → (short : Bool) (piece : List ℕ) (left : Option SendMessage) (in_chan : List SendMessage)
      → (s.send_pkt_seq % 16 == 0) ≡ false
      → ltb (length m.content) sock.mtu ≡ short
      → piece ++ left_content left ≡ m.content
      → length piece ≤ sock.mtu
      → o ≡ send (boundary_of short sock.is_datagram is_first) piece left in_chan numbered
      → SendsPiece sock is_first m in_chan s o
  unfolding set_message_data
  sends short piece left in_chan plain fits whole size e =
      let state = boundary_of short sock.is_datagram is_first in
      let (s', runs, seq, rest) = send_piece_lem now sock state m piece left numbered plain in
      (
        s',
        packet_of numbered (not sock.is_datagram) state piece,
        e ∙ rw (◌>>◌, ◌>>=◌, runs) refl,
        refl,
        seq,
        rw rest whole,
        size,
        rw fits (
            packet_of-boundary numbered (not sock.is_datagram) state piece
              (boundary_of-lt short sock.is_datagram is_first)),
      )

  sends_full :
      (in_chan : List SendMessage) (not_full : SendMessage → Handler (List SendMessage))
      → s.msg_partial_send ≡ some m
      → (s.send_pkt_seq % 16 == 0) ≡ false
      → ltb (length m.content) sock.mtu ≡ false
      → SendsPiece sock is_first m in_chan s (round now sock is_first in_chan not_full s)
  unfolding round
  sends_full in_chan not_full pending plain full =
      let (piece, left) = cut sock.mtu m in
      let (whole, size) = cut_whole sock.mtu m (ground arith) in
      sends false piece left in_chan plain full whole (omega arith)
        (simp (pending, full) (after-nil _ ∙ after-nil _))

  sends_rest :
      (in_chan : List SendMessage) (not_full : SendMessage → Handler (List SendMessage))
      → s.msg_partial_send ≡ some m
      → (s.send_pkt_seq % 16 == 0) ≡ false
      → ltb (length m.content) sock.mtu ≡ true
      → not_full m ≡ send (rest_state sock.is_datagram is_first) m.content none in_chan
      → SendsPiece sock is_first m in_chan s (round now sock is_first in_chan not_full s)
  unfolding round
  sends_rest in_chan not_full pending plain short same =
      sends true m.content none in_chan plain short (append-nil m.content) (ground arith) (
        simp (pending, short)
          (after-nil _
            ∙ after-nil _
            ∙ ap (λ k. k (record numbered { msg_partial_send = some m })) same))

holds : {A : Type 0} (b : Bool) (x y : A) → b ≡ true → (elim b [ true ↦ x | false ↦ y ]) ≡ x
holds true x y e = refl
holds false x y e = cc

-- With a datagram to send, and a sequence number that is not a multiple of 16, processDataMsg
-- always returns, and sends one packet: it has the next sequence number and at most mtu bytes, and
-- these, followed by the bytes that are left over, are the bytes that were there. Its boundary is
-- only or last exactly if it is shorter than the mtu, else first or middle. No further message is
-- taken from the channel.
pub process_data_msg-datagram :
    (now : ℕ) (sock : Socket) (is_first : Bool) (m : SendMessage) (s : UdtSocketSend)
    (in_chan : List SendMessage)
    → sock.is_datagram ≡ true
    → s.msg_partial_send ≡ some m
    → (s.send_pkt_seq % 16 == 0) ≡ false
    → SendsPiece sock is_first m in_chan s (process_data_msg now sock is_first in_chan s)
unfolding process_data_msg
process_data_msg-datagram now sock is_first m s [] datagram pending plain =
    elim (Bool-cases (ltb (length m.content) sock.mtu)) [
      | inl short ↦ sends_rest now sock is_first m s [] _ pending plain short refl
      | inr full ↦ sends_full now sock is_first m s [] _ pending plain full
    ]
process_data_msg-datagram now sock is_first m s (next ∷ rest) datagram pending plain =
    elim (Bool-cases (ltb (length m.content) sock.mtu)) [
      | inl short ↦
          sends_rest now sock is_first m s (next ∷ rest) _ pending plain short
            (holds sock.is_datagram _ _ datagram)
      | inr full ↦ sends_full now sock is_first m s (next ∷ rest) _ pending plain full
    ]
