-- ===== src/Udt/Recv/Sound/Events.antt =====
-- The invariant, event by event, and the runs of a receiver.
use go_udt.Common.{ℕ, zero, suc, ◌≡◌, subst, Bool, false, List, [], ◌∷◌, Option, none, some, ◌==◌}
use go_udt.Packet.PktSeq.{PacketId}
use go_udt.Packet.Handshake.{HandshakePacket}
use go_udt.Packet.MsgDropReq.{MsgDropReqPacket}
use go_udt.Packet.Any.{
  Packet, handshake, shutdown, ack, light_ack, nak, user_def, keep_alive, congestion, ack2,
  msg_drop_req, special_err, data_pkt,
}
use go_udt.Udt.Recv.State.{
  UdtSocketRecv, Effect, Context, new_udt_socket_recv, configure_handshake, nil_if_empty,
}
use go_udt.Udt.Recv.Events.{
  RecvEvent, recv_pkt, recv_event_closed, sock_shutdown, sock_closed, ack_sent, ack_sent2,
  ack_timer, drop_all, settle, push_loop, ingest_msg_drop_req, ingest, on_event, pending_count,
}
use go_udt.Udt.Recv.Sound.{
  IsFilled, HasWindows, Sound, Holds, Takes, bind-Takes, get-Takes, weaken-Takes, put-Takes,
  return-Takes, need_some-Takes, cases-Takes, option-Takes,
}
use go_udt.Udt.Recv.Sound.Acks.{ack_event-Sound, ingest_ack2-Sound}
use go_udt.Udt.Recv.Sound.Packets.{attempt_process_packet-Sound, ingest_data-Sound}
use go_udt.Udt.Recv.Sound.Slices.{nil_if_empty-IsFilled}

-- A drop request may empty the heaps on its way.
drop_all-HasWindows : (ids : List PacketId) → Takes HasWindows HasWindows (drop_all ids)
unfolding drop_all
drop_all-HasWindows [] = return-Takes
drop_all-HasWindows (id ∷ ids) = get-Takes (λ s h. bind-Takes (need_some-Takes _) (λ loss.
    bind-Takes (need_some-Takes _)
      (λ pend. bind-Takes (put-Takes h) (λ _. drop_all-HasWindows ids))))

settled :
    {A : Type 0} (o : Option (List A)) → IsFilled (elim o [ none ↦ none | some h ↦ nil_if_empty h ])
settled none = tt
settled (some h) = nil_if_empty-IsFilled h

settle-Sound : (p : MsgDropReqPacket) (s : UdtSocketRecv) → HasWindows s → Sound (settle p s)
unfolding settle
settle-Sound p s h = (h, settled s.recv_loss_list, settled s.recv_pkt_pend)

push_loop-Sound :
    (fuel : ℕ) (c : Context) (stop_seq : PacketId) → Takes Sound Sound (push_loop fuel c stop_seq)
unfolding push_loop
push_loop-Sound zero c stop_seq = record { leaves = λ s h. tt }
push_loop-Sound (suc fuel) c stop_seq = get-Takes (λ s h.
    option-Takes s.recv_pkt_pend return-Takes (λ pend.
      cases-Takes (stop_seq == s.far_next_pkt_seq) return-Takes (
        bind-Takes (need_some-Takes _) (λ next. option-Takes next return-Takes (λ p.
          bind-Takes (attempt_process_packet-Sound c p.1 false)
            (λ processed. cases-Takes processed (push_loop-Sound fuel c stop_seq) return-Takes))))))

ingest_msg_drop_req-Sound :
    (c : Context) (p : MsgDropReqPacket) → Takes Sound Sound (ingest_msg_drop_req c p)
unfolding ingest_msg_drop_req
ingest_msg_drop_req-Sound c p = bind-Takes (need_some-Takes _) (λ ids.
    bind-Takes (weaken-Takes (λ s h. h.0) (drop_all-HasWindows ids)) (λ _. get-Takes (λ s h.
      bind-Takes (put-Takes (settle-Sound p s h))
        (λ _. get-Takes (λ t h'. push_loop-Sound (suc (pending_count t.recv_pkt_pend)) c _)))))

ingest-Sound : (c : Context) (p : Packet) (now : ℕ) → Takes Sound Sound (ingest c p now)
unfolding ingest
ingest-Sound c (ack2 p) now = ingest_ack2-Sound p now
ingest-Sound c (msg_drop_req p) now = ingest_msg_drop_req-Sound c p
ingest-Sound c (data_pkt p) now = ingest_data-Sound c p now
ingest-Sound c (special_err p) now = return-Takes
ingest-Sound c (handshake p) now = return-Takes
ingest-Sound c (keep_alive p) now = return-Takes
ingest-Sound c (ack p) now = return-Takes
ingest-Sound c (light_ack p) now = return-Takes
ingest-Sound c (nak p) now = return-Takes
ingest-Sound c (congestion p) now = return-Takes
ingest-Sound c (shutdown p) now = return-Takes
ingest-Sound c (user_def p) now = return-Takes

on_event-Takes : (c : Context) (e : RecvEvent) → Takes Sound Sound (on_event c e)
unfolding on_event
on_event-Takes c (recv_pkt p now) = bind-Takes (ingest-Sound c p now) (λ _. return-Takes)
on_event-Takes c recv_event_closed = return-Takes
on_event-Takes c sock_shutdown = return-Takes
on_event-Takes c sock_closed = return-Takes
on_event-Takes c ack_sent = get-Takes (λ s h. bind-Takes (put-Takes h) (λ _. return-Takes))
on_event-Takes c ack_sent2 = get-Takes (λ s h. bind-Takes (put-Takes h) (λ _. return-Takes))
on_event-Takes c ack_timer = bind-Takes (ack_event-Sound c) (λ _. return-Takes)

-- What changes a receiver: an event, the handshake, and the congestion control, which sets when ACKs
-- are sent.
pub data Step (s t : UdtSocketRecv) : Type 0 where
  handled :
      (c : Context) (e : RecvEvent) (go_on : Bool) (es : List Effect)
      → on_event c e s ≡ some (go_on, t, es)
      → Step s t
  configured : (p : HandshakePacket) → configure_handshake p s ≡ t → Step s t
  paced :
      (ack_period ack_interval : ℕ)
      → record s { ack_period = ack_period; ack_interval = ack_interval } ≡ t
      → Step s t

pub data Run (s : UdtSocketRecv) : UdtSocketRecv → Type 0 where
  start : Run s s
  next : {t u : UdtSocketRecv} → Run s t → Step t u → Run s u

configure_handshake-Sound :
    (p : HandshakePacket) (s : UdtSocketRecv) → Sound s → Sound (configure_handshake p s)
unfolding configure_handshake
configure_handshake-Sound p s h = h

Step-Sound : {s t : UdtSocketRecv} → Step s t → Sound s → Sound t
Step-Sound {s} (handled c e go_on es runs) h =
    subst (Holds Sound) runs ((on_event-Takes c e).leaves s h)
Step-Sound {s} (configured p made) h = subst Sound made (configure_handshake-Sound p s h)
Step-Sound (paced ack_period ack_interval made) h = subst Sound made h

-- Whatever becomes of a new receiver, it is sound: both of its history windows have at most 16
-- entries, and neither the loss list nor the heap of pending packets is empty without being nil.
pub Run-Sound : {syn_time : ℕ} {t : UdtSocketRecv} → Run (new_udt_socket_recv syn_time) t → Sound t
Run-Sound start = ((tt, tt), tt, tt)
Run-Sound (next r step) = Step-Sound step (Run-Sound r)
