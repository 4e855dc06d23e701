-- ===== src/Udt/Recv/Ack/Link.antt =====
-- The link's rates in an ACK.
use go_udt.Common.{
  ap, ◌*◌, ℕ, ◌+◌, ◌≡◌, ◌≢◌, inl, inr, refl, false, List, [], ◌∷◌, none, some, length, get_elem?,
  Option-cases, ◌==◌, arith,
}
use go_udt.Udt.Recv.State.{
  bind-none, after, send_packet, ◌>>◌, emit, get, put, UdtSocketRecv, Context, ◌>>=◌, ◌>>◌, get,
  put, emit,
}
use go_udt.Udt.Recv.Speeds.{recv_speed, bandwidth, get_rcv_speeds}
use go_udt.Packet.PktSeq.{PacketId}
use go_udt.Udt.Recv.Ack.{with_sent, new_ack, ack_number, ack_packet, add_link, send_ack}
use go_udt.Packet.Any.{ack}
use go_udt.Packet.Ack.{AckPacket}

-- A Buckets that keeps the length finds no median in an empty window.
bandwidth-nil :
    (buckets : List ℕ → ℕ → List ℕ)
    → ((h : List ℕ) (k : ℕ) → length (buckets h k) ≡ length h)
    → bandwidth buckets none ≡ none
unfolding bandwidth
bandwidth-nil buckets keeps = rw (bandwidth, no_first (buckets [] 0) (keeps [] 0)) refl
  where
    no_first : (l : List ℕ) → length l ≡ 0 → get_elem? l 0 ≡ none
    no_first [] e = refl
    no_first (x ∷ l) e = absurd (omega (arith, e))

get_rcv_speeds-nil :
    (buckets : List ℕ → ℕ → List ℕ) (s : UdtSocketRecv)
    → ((h : List ℕ) (k : ℕ) → length (buckets h k) ≡ length h)
    → s.recv_pkt_pair_history ≡ none
    → get_rcv_speeds buckets s ≡ none
unfolding get_rcv_speeds
get_rcv_speeds-nil buckets s keeps nothing =
    elim (Option-cases (recv_speed buckets s.recv_pkt_history)) [
      | inl e ↦ rw (get_rcv_speeds, e) refl
      | inr (speed, e) ↦ rw (get_rcv_speeds, e, nothing, bandwidth-nil buckets keeps) refl
    ]

add_link-nil :
    (c : Context) (p : AckPacket) (s : UdtSocketRecv)
    → ((h : List ℕ) (k : ℕ) → length (c.buckets h k) ≡ length h)
    → s.recv_pkt_pair_history ≡ none
    → s.ack_sent_event2 ≡ none
    → add_link c p s ≡ none
unfolding add_link ◌>>=◌
add_link-nil c p s keeps nothing timer =
    rw (add_link, timer, get_rcv_speeds-nil c.buckets s keeps nothing) refl

new_ack-nil :
    (c : Context) (number : PacketId) (s : UdtSocketRecv)
    → ((h : List ℕ) (k : ℕ) → length (c.buckets h k) ≡ length h)
    → s.recv_pkt_pair_history ≡ none
    → s.ack_sent_event2 ≡ none
    → new_ack c number s ≡ none
unfolding new_ack ◌>>=◌
new_ack-nil c number s keeps nothing timer =
    let s' = with_sent c number s in
    ap (λ o. after [] (after [] (after [] o)))
      (bind-none (add_link c (ack_packet c number s'))
        (λ p. do
          emit (send_packet (ack p))
          u ← get
          put (record u { ack_sent_event = some ((c.rtt + 4 * c.rtt_var) * 1000) }))
        s' (add_link-nil c (ack_packet c number s') s' keeps nothing timer))

-- While no probe has been timed, an ACK that says something new and is to have the link's rates
-- makes the receiver panic, if Buckets keeps the length of its slice: the window that is not there
-- has no median.
pub send_ack-panics :
    (c : Context) (s : UdtSocketRecv)
    → ((h : List ℕ) (k : ℕ) → length (c.buckets h k) ≡ length h)
    → s.recv_pkt_pair_history ≡ none
    → s.ack_sent_event2 ≡ none
    → ack_number s ≢ s.recv_ack2
    → ack_number s ≢ s.sent_ack
    → send_ack c s ≡ none
unfolding send_ack ◌>>=◌
send_ack-panics c s keeps nothing timer new unsent =
    let e : (ack_number s == s.recv_ack2) ≡ false = ground (arith, new) in
    let e' : (ack_number s == s.sent_ack) ≡ false = ground (arith, unsent) in
    rw (send_ack, e, e', new_ack-nil c (ack_number s) s keeps nothing timer) refl
