-- ===== src/Udt/Recv/Data/Order.antt =====
-- Packets that arrive in order.
use go_udt.Common.{
  ==-refl, ℕ, ◌+◌, ◌-◌, ◌%◌, ◌^◌, ◌<◌, ◌≡◌, refl, ap, sym, subst, ◌∙◌, true, false, List, [], ◌∷◌,
  ◌++◌, none, some, ◌==◌, arith,
}
use go_udt.Common.Int.{pos}
use go_udt.Packet.PktSeq.{PacketId, incr, blind_diff}
use go_udt.Packet.PktSeq.Order.{blind_diff_steps}
use go_udt.Udt.Heap
use go_udt.Udt.Monad.{after-nil}
use go_udt.Packet.PktSeq.Walk.{walk-eq-run_from}
use go_udt.Packet.Data.{DataPacket}
use go_udt.Udt.Heaps.RecvLoss
use go_udt.Udt.Heaps.RecvLoss.{RecvLossEntry}
use go_udt.Packet.Handshake.{HandshakePacket}
use go_udt.Udt.Recv.State.{
  configure_handshake, new_udt_socket_recv, bind-none, bind-some, UdtSocketRecv, Effect,
  cong_pkt_recv, message_in, Context, entry_at, ◌>>=◌, ◌>>◌, after, need_some, return,
}
use go_udt.Udt.Recv.Data.{
  note_probe, note_arrival, new_loss, skip_with, send_nak, skip_to, place_at, place, process,
  ingest_data,
}
use go_udt.Udt.Recv.Data.Loss.{nak_loop-stuck}
use go_udt.Udt.Recv.Data.Whole.{IsWhole, waiting, notes-wait, process-whole, process-runs}

module _ (c : Context) (x : PacketId) where
  same_diff : blind_diff x x ≡ pos 0
  unfolding blind_diff
  same_diff = ground arith

  place-next : (s : UdtSocketRecv) → place c x (waiting x s) ≡ some (true, waiting x s, [])
  unfolding place place_at ◌>>=◌
  place-next s =
      subst (λ d. after [] (place_at c x d (waiting x s)) ≡ some (true, waiting x s, []))
        (sym same_diff) refl

  -- The number behind the one that the receiver waits for.
  abbrev second_seq : PacketId
  second_seq = (x + 1) % 2 ^ 32 % 2 ^ 31

  abbrev skipped : RecvLossEntry
  skipped = record { packet_id = second_seq; last_feedback = 0; num_nak = 0 }

  new_loss-second : x < 2 ^ 31 → new_loss x second_seq ≡ some (skipped ∷ [])
  unfolding new_loss
  new_loss-second h =
      let one : (second_seq + 2 ^ 31 - x) % 2 ^ 31 ≡ 1 = omega arith in
      rw (new_loss, walk-eq-run_from (2 ^ 31) x second_seq h (omega arith) (omega arith), one) refl

  second_diff : x < 2 ^ 31 → blind_diff second_seq x ≡ pos 1
  second_diff h =
      let e : second_seq ≡ (x + 1) % 2 ^ 31 = omega arith in
      rw (e, (blind_diff_steps x 1 h (omega arith) (omega arith)).0) refl

  min-skipped :
      entry_at (skipped ∷ []) (RecvLoss.min (skipped ∷ []) second_seq second_seq)
      ≡ some (some (0, skipped))
  unfolding RecvLoss.min
  min-skipped = rw (RecvLoss.min, ==-refl second_seq) refl

  send_nak-skipped :
      (s : UdtSocketRecv)
      → x < 2 ^ 31
      → s.far_next_pkt_seq ≡ x
      → s.far_recd_pkt_seq ≡ second_seq
      → send_nak c (skipped ∷ []) s ≡ none
  unfolding send_nak ◌>>=◌
  send_nak-skipped s h next recd =
      let apart : (second_seq == x) ≡ false = ground arith in
      rw
        (
          send_nak,
          next,
          recd,
          nak_loop-stuck (skipped ∷ []) second_seq second_seq x 0 skipped apart min-skipped c.fuel
              [],
        )
        refl

  skip_with-second :
      (s : UdtSocketRecv) → x < 2 ^ 31 → skip_with c second_seq (skipped ∷ []) (waiting x s) ≡ none
  unfolding skip_with Heap.init ◌>>=◌
  skip_with-second s h =
      rw
        (
          skip_with,
          ◌>>◌,
          ◌>>=◌,
          send_nak-skipped (record (waiting x s) { recv_loss_list = some (skipped ∷ []) }) h refl
              refl,
        )
        refl

  skip_to-second : (s : UdtSocketRecv) → x < 2 ^ 31 → skip_to c second_seq (waiting x s) ≡ none
  unfolding skip_to ◌>>=◌
  skip_to-second s h =
      subst (λ o. after [] ((need_some o >>= skip_with c second_seq) (waiting x s)) ≡ none)
        (sym (new_loss-second h)) (ap (λ o. after [] (after [] o)) (skip_with-second s h))

  place-second : (s : UdtSocketRecv) → x < 2 ^ 31 → place c second_seq (waiting x s) ≡ none
  unfolding place place_at ◌>>=◌
  place-second s h =
      subst (λ d. after [] (place_at c second_seq d (waiting x s)) ≡ none) (sym (second_diff h))
        (ap (after [])
          (bind-none (skip_to c second_seq) (λ _. return true) (waiting x s) (skip_to-second s h)))

-- A new receiver waits for the first number of its handshake.
configure_handshake-waiting :
    (p : HandshakePacket) (syn_time : ℕ)
    → configure_handshake p (new_udt_socket_recv syn_time)
      ≡ waiting p.init_pkt_seq (record (new_udt_socket_recv syn_time) {
        sent_ack = p.init_pkt_seq;
        recv_ack2 = p.init_pkt_seq;
      })
unfolding configure_handshake
configure_handshake-waiting p syn_time = refl

second-incr : (x : PacketId) → incr x ≡ (x + 1) % 2 ^ 32 % 2 ^ 31
unfolding incr
second-incr x = refl

-- What ingestData does behind its notes.
ingest_data-after :
    (c : Context) (p : DataPacket) (now : ℕ) (s : UdtSocketRecv)
    → ingest_data c p now s
      ≡ after
          (cong_pkt_recv p ∷ [])
          ((place c p.seq >>= process c p) (note_arrival now (note_probe now p.seq s)))
unfolding ingest_data ◌>>=◌
ingest_data-after c p now s = ap (after (cong_pkt_recv p ∷ [])) (after-nil _ ∙ after-nil _)

-- A receiver that waits for a number as configureHandshake leaves it, with no packet pending or
-- lost, and that acknowledges by light ACKs, hands the packet with that number to the reader if it is a whole message: it returns
-- and puts the packet's bytes on the channel, last. But it goes on to wait for the same number, so
-- the next packet in order makes it never return, however many rounds the loop of sendNAK is given.
pub ingest_data-in_order :
    (c : Context) (x : PacketId) (p q : DataPacket) (now now' : ℕ) (s : UdtSocketRecv)
    → x < 2 ^ 31
    → IsWhole p
    → p.seq ≡ x
    → q.seq ≡ incr x
    → (t : UdtSocketRecv) × (es : List Effect) × (ingest_data c p now (waiting x s)
        ≡ some (tt, waiting x t, cong_pkt_recv p ∷ es ++ message_in p.content ∷ []))
      × ((fuel : ℕ) → ingest_data (record c { fuel = fuel }) q now' (waiting x t) ≡ none)
ingest_data-in_order c x p q now now' s h whole first second =
    let (u, noted) = notes-wait c x now p.seq s in
    let (t, es, runs) = process-whole c x p u whole in
    let (v, noted') = notes-wait c x now' q.seq t in
    (
      t,
      es,
      ingest_data-after c p now (waiting x s)
          ∙ ap (after (cong_pkt_recv p ∷ [])) (
              ap (λ u. (place c p.seq >>= process c p) u) noted
              ∙ ap (λ k. (place c k >>= process c p) (waiting x u)) first
              ∙ bind-some (place c x) (process c p) (waiting x u) (place-next c x u)
              ∙ after-nil _
              ∙ process-runs c p (waiting x u) (waiting x t) _ runs),
      λ fuel.
          ingest_data-after (record c { fuel = fuel }) q now' (waiting x t)
          ∙ ap (after (cong_pkt_recv q ∷ [])) (
              ap
                (λ u.
                  (place (record c { fuel = fuel }) q.seq >>= process (record c { fuel = fuel }) q)
                    u)
                noted'
              ∙ ap
                  (λ k.
                    (place (record c { fuel = fuel }) k >>= process (record c { fuel = fuel }) q)
                      (waiting x v))
                  (second ∙ second-incr x)
              ∙ bind-none (place (record c { fuel = fuel }) ((x + 1) % 2 ^ 32 % 2 ^ 31))
                  (process (record c { fuel = fuel }) q) (waiting x v)
                  (place-second (record c { fuel = fuel }) x v h)),
    )
