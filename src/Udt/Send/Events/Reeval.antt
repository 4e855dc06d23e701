-- ===== src/Udt/Send/Events/Reeval.antt =====
-- The state that the sender is in behind a received packet.
use go_udt.Common.{
  ℕ, ◌^◌, ◌<◌, ◌≤◌, ◌↔◌, ◌≡◌, inl, inr, refl, Bool, true, false, List, arith, append-nil, Option,
  none, some, length, All, ltb, leb, Bool-cases, Option-cases, if◌then◌else◌, ap, subst, sym, ◌∙◌,
}
use mathlib.Core.Option.{some-injective}
use go_udt.Packet.Any.{Packet, nak}
use go_udt.Packet.Nak.{NakPacket}
use go_udt.Udt.Heaps.SendPackets.{SendPacketEntry}
use go_udt.Udt.Send.State.{
  UdtSocketSend, Socket, SendState, idle, sending, waiting, Effect, ◌>>=◌, ◌>>◌, reeval_send_state,
}
use go_udt.Udt.Send.Nak.Outcome.{ingest_nak_outcome}
use go_udt.Udt.Send.Timer.{reset_exp}
use go_udt.Udt.Send.Events.{recv_pkt, reeval, ingest, on_event}

-- The states that reevalSendState returns.
pub data IsOpen : SendState → Type 0 where
  is_idle : IsOpen idle
  is_sending : IsOpen sending
  is_waiting : IsOpen waiting

window_allows :
    (n congest flow : ℕ)
    → leb n (if ltb congest flow then congest else flow) ≡ true
    → (n ≤ congest) × (n ≤ flow)
window_allows n congest flow h = (ground arith, ground arith)

window_refuses :
    (n congest flow : ℕ)
    → leb n (if ltb congest flow then congest else flow) ≡ false
    → n ≤ congest
    → n ≤ flow
    → ⊥
window_refuses n congest flow h c f = ground arith

-- reevalSendState answers waiting exactly where the SND timer does not run and packets are pending,
-- no more of them than the congestion window and the flow window; its answer is always one of idle,
-- sending and waiting.
pub reeval_send_state_lem :
    (s : UdtSocketSend)
    → IsOpen (reeval_send_state s)
      × ((reeval_send_state s ≡ waiting) ↔ (
          (s.snd_event ≡ false)
          × (pend : List SendPacketEntry) × (s.send_pkt_pend ≡ some pend)
          × (length pend ≤ s.congest_window)
          × (length pend ≤ s.flow_window_size)))
unfolding reeval_send_state
reeval_send_state_lem s = elim (Bool-cases s.snd_event) [
  | inl e ↦ rw e (IsOpen.is_sending, (λ h. cc, λ (f, _, _, _, _). cc))
  | inr e ↦ elim (Option-cases s.send_pkt_pend) [
    | inl n ↦ rw (e, n) (IsOpen.is_idle, (λ h. cc, λ (f, pend, p, _, _). cc))
    | inr (pend, p) ↦
        elim (Bool-cases (
          leb (length pend) (
            if ltb s.congest_window s.flow_window_size
            then s.congest_window
            else s.flow_window_size))) [
              | inl w ↦
                  let allowed = window_allows (length pend) s.congest_window s.flow_window_size w in
                  rw (e, p, w)
                    (IsOpen.is_waiting, (λ h. (refl, pend, refl, allowed.0, allowed.1), λ h. refl))
              | inr w ↦
                  rw (e, p, w)
                    (
                      IsOpen.is_idle,
                      (
                        λ h. cc,
                        λ (f, pend', q, c, d).
                            let same : length pend ≡ length pend' =
                              ap length (some-injective pend pend' q) in
                            absurd (
                              window_refuses (length pend) s.congest_window s.flow_window_size w
                                (omega arith) (omega arith)),
                      ),
                    )
            ]
  ]
]

abbrev Outcome : Type 0 → Type 0
Outcome A = Option (A × UdtSocketSend × List Effect)

-- What goSendEvent does behind the call that handles a packet.
abbrev then_reeval : Outcome (Unit {0}) → Outcome Bool
unfolding reeval_send_state
then_reeval none = none
then_reeval (some (x, s, es)) = some (true, record s { send_state = reeval_send_state s }, es)

reeval_last :
    (o : Outcome (Unit {0})) {b : Bool} {s' : UdtSocketSend} {es : List Effect}
    → then_reeval o ≡ some (b, s', es)
    → (b ≡ true) × (s'.send_state ≡ reeval_send_state s')
unfolding reeval_send_state
reeval_last none e = cc
reeval_last (some (x, s, fs)) {b} {s'} {es} e =
    subst (λ t. (t.0 ≡ true) × (t.1.send_state ≡ reeval_send_state t.1)) (some-injective _ _ e)
      (refl, refl)

on_event_recv :
    (now : ℕ) (sock : Socket) (p : Packet) (at : ℕ) (s : UdtSocketSend)
    → on_event now sock (recv_pkt p at) s
      ≡ then_reeval (ingest p (reset_exp at sock (record s { exp_count = 1 })))
unfolding on_event reeval
on_event_recv now sock p at s =
    let s0 = reset_exp at sock (record s { exp_count = 1 }) in
    elim (Option-cases (ingest p s0)) [
      | inl e ↦ rw (◌>>◌, ◌>>=◌, e) refl
      | inr ((x, s', fs), e) ↦ rw (◌>>◌, ◌>>=◌, e, append-nil fs) refl
    ]

-- Whatever packet is received, and in whatever state: where its handler returns, the sender goes on
-- and is idle, sending or waiting. So neither a shutdown nor a call for the losses survives it.
pub recv_pkt-IsOpen :
    (now : ℕ) (sock : Socket) (p : Packet) (at : ℕ) (s s' : UdtSocketSend) (b : Bool)
    (es : List Effect)
    → on_event now sock (recv_pkt p at) s ≡ some (b, s', es)
    → (b ≡ true) × IsOpen s'.send_state
recv_pkt-IsOpen now sock p at s s' b es e =
    let (go_on, state) = reeval_last _ (sym (on_event_recv now sock p at s) ∙ e) in
    (go_on, rw state (reeval_send_state_lem s').0)

abbrev GoesOn : Outcome Bool → Type 0
GoesOn o =
    (s' : UdtSocketSend) × (es : List Effect) × (o ≡ some (true, s', es)) × IsOpen s'.send_state

reeval-GoesOn :
    {o : Outcome Bool} (o' : Outcome (Unit {0})) (s' : UdtSocketSend) (es : List Effect)
    → o ≡ then_reeval o'
    → o' ≡ some (tt, s', es)
    → GoesOn o
unfolding then_reeval
reeval-GoesOn o' s' es runs e = (
  record s' { send_state = reeval_send_state s' },
  es,
  runs ∙ ap then_reeval e,
  (reeval_send_state_lem s').0,
)

-- A NAK is always handled to its end, and never leaves the sender in the state that ingestNak sets
-- to restart the transmission, but idle, sending or waiting.
pub nak_restart_lost :
    (now : ℕ) (sock : Socket) (p : NakPacket) (at : ℕ) (s : UdtSocketSend)
    → All (λ e. e < 2 ^ 32) p.cmp_loss_info
    → (s' : UdtSocketSend) × (es : List Effect) × (on_event now sock (recv_pkt (nak p) at) s
        ≡ some (true, s', es))
      × IsOpen s'.send_state
unfolding ingest
nak_restart_lost now sock p at s fits =
    let runs = on_event_recv now sock (nak p) at s in
    elim (ingest_nak_outcome p (reset_exp at sock (record s { exp_count = 1 })) fits) [
      | inl (ids, loss, l, eq, same) ↦ reeval-GoesOn _ _ _ runs eq
      | inr (bad, eq) ↦ reeval-GoesOn _ _ _ runs eq
    ]
