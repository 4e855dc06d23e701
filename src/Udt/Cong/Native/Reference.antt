-- ===== src/Udt/Cong/Native/Reference.antt =====
-- What NativeCongestionControl comes to when its object is never changed (udt/congestion_native.go):
-- a control without a state of its own, beside the code.
use go_udt.Common.{
  ℕ, ◌^◌, ◌<◌, true, false, List, [], ◌∷◌, append-nil, Bool-cases, All, Option, none, some,
  Option-cases, inl, inr, ◌≡◌, refl, ap, ◌∙◌, ltb, arith,
}
use go_udt.Common.Int.{pos, is_pos}
use go_udt.Common.Int64
use go_udt.Packet.PktSeq.{PacketId, blind_diff}
use go_udt.Udt.Cong.Float64.{Float64}
use go_udt.Udt.Cong.State
use go_udt.Udt.Cong.State.{
  Moment, UdtSocketCc, Effect, Handler, CongestionControl, second, microsecond, syn_interval,
  return, get, stop, need_some, after, ◌>>=◌, ◌>>◌,
}
use go_udt.Udt.Monad.{after-nil}
use go_udt.Udt.Cong.Msg.{CongMsgType, CongMsg, Arg, nil, ids}
use go_udt.Udt.Cong.Plumbing.{dispatch, handle_all}
use go_udt.Udt.Cong.Native.{
  NativeCongestionControl, new_native, native, by_value, init, on_timeout, on_ack, on_nak, ack_due,
  update_period, count_loss, new_congestion, same_congestion,
}
use go_udt.Udt.Cong.Native.Rate.{sub_time, slower, spare_bandwidth, increase, next_period}

-- An ACK sets the period that `SYN = 0` gives, and panics where the period is 0. A NAK multiplies
-- the period by 1.125 where the first packet of the list is in the upper half of the sequence
-- numbers, and panics otherwise. Nothing else but Init does anything.
unfoldable pub memoryless : Float64 → CongestionControl NativeCongestionControl
unfolding State.set_packet_send_period State.set_congestion_window_size State.set_ack_period slower
memoryless fl = record {
  init = λ m. do
    State.set_ack_period syn_interval
    State.set_congestion_window_size 16
    State.set_packet_send_period fl m microsecond;
  close = λ m. return tt;
  on_ack = λ m ack. do
    s ← get
    rate ← need_some (Int64.div second s.snd_period)
    let spare = spare_bandwidth (pos 0) m.bandwidth s.snd_period rate
    State.set_packet_send_period fl m
        (next_period fl (pos 0) s.snd_period (increase fl spare m.mtu));
  on_nak = λ m losslist. elim losslist [
    | [] ↦ stop
    | first ∷ rest ↦ elim (ltb (2 ^ 30) first) [
      | false ↦ stop
      | true ↦ do
        s ← get
        period ← need_some (slower s.snd_period)
        State.set_packet_send_period fl m period
    ]
  ];
  on_timeout = λ m. return tt;
  on_pkt_sent = λ m p. return tt;
  on_pkt_recv = λ m p. return tt;
  on_custom_msg = λ m p. return tt;
}

behind_zero : (x : PacketId) → x < 2 ^ 31 → is_pos (blind_diff 0 x) ≡ ltb (2 ^ 30) x
unfolding blind_diff
behind_zero x h = ground arith

since_zero : (now : ℕ) → Int64.lt (sub_time now 0) (pos 0) ≡ false
unfolding Int64.lt sub_time
since_zero now = ground arith

-- What is left of a method when its copy is gone.
abbrev forget : {A S E : Type 0} → Option (A × S × List E) → Option (Unit {0} × S × List E)
forget none = none
forget (some (a, s, es)) = some (tt, s, es)

by_value_lem :
    (method : NativeCongestionControl → Handler NativeCongestionControl NativeCongestionControl)
    (s : UdtSocketCc NativeCongestionControl)
    → by_value method s ≡ forget (method s.congestion s)
unfolding by_value
by_value_lem method s = after-nil _ ∙ forgotten (method s.congestion s)
  where
    forgotten :
        (o : Option (NativeCongestionControl × UdtSocketCc NativeCongestionControl × List Effect))
        → (elim o [ none ↦ none | some (a, t, es) ↦ after es (return tt t) ]) ≡ forget o
    forgotten none = refl
    forgotten (some (a, t, es)) = ap (λ l. some (tt, t, l)) (append-nil es)

module _ (fl : Float64) (m : Moment) (s : UdtSocketCc NativeCongestionControl) where
  on_ack-new :
      (ack : PacketId) → forget (on_ack fl m ack new_native s) ≡ (memoryless fl).on_ack m ack s
  unfolding on_ack ack_due update_period memoryless
  on_ack-new ack = ground (arith, since_zero m.now)

  on_nak-new :
      (losslist : List PacketId)
      → All (λ x. x < 2 ^ 31) losslist
      → forget (on_nak fl m losslist new_native s) ≡ (memoryless fl).on_nak m losslist s
  unfolding on_nak count_loss new_congestion same_congestion Int64.lt Int64.add Int64.rem memoryless
  on_nak-new [] h = refl
  on_nak-new (x ∷ rest) h = elim (Bool-cases (ltb (2 ^ 30) x)) [
    | inl e ↦ ground (arith, behind_zero x h.0, e)
    | inr e ↦ ground (arith, behind_zero x h.0, e)
  ]

-- The packets of a message are sequence numbers.
abbrev pub SeqArg : Arg → Type 0
SeqArg (ids l) = All (λ x. x < 2 ^ 31) l
SeqArg _ = Unit {0}

module _ (fl : Float64) (m : Moment) (s : UdtSocketCc NativeCongestionControl) where
  -- A method of a fresh object, called on the socket.
  call-new :
      (method : NativeCongestionControl → Handler NativeCongestionControl NativeCongestionControl)
      {k : Option (Unit {0} × UdtSocketCc NativeCongestionControl × List Effect)}
      → s.congestion ≡ new_native
      → forget (method new_native s) ≡ k
      → by_value method s ≡ k
  call-new method fresh e = by_value_lem method s ∙ ap (λ c. forget (method c s)) fresh ∙ e

  init-any : (c : NativeCongestionControl) → forget (init fl m c s) ≡ (memoryless fl).init m s
  unfolding init memoryless State.set_ack_period State.set_congestion_window_size
  init-any c = ground arith

module _ (fl : Float64) (m : Moment) where
  pub dispatch-new :
      (mtyp : CongMsgType) (id : PacketId) (arg : Arg) (s : UdtSocketCc NativeCongestionControl)
      → s.congestion ≡ new_native
      → SeqArg arg
      → dispatch (native fl) m mtyp id arg s ≡ dispatch (memoryless fl) m mtyp id arg s
  unfolding dispatch native memoryless
  dispatch-new CongMsgType.cong_init id arg s fresh ok = ground (
    arith,
    call-new fl m (record s { send_pkt_seq = id }) (init fl m) fresh
        (init-any fl m (record s { send_pkt_seq = id }) new_native),
  )
  dispatch-new CongMsgType.cong_close id arg s fresh ok = refl
  dispatch-new CongMsgType.cong_on_ack id arg s fresh ok =
      call-new fl m s (on_ack fl m id) fresh (on_ack-new fl m s id)
  dispatch-new CongMsgType.cong_on_nak id nil s fresh ok = refl
  dispatch-new CongMsgType.cong_on_nak id (ids l) s fresh ok =
      ap (after []) (call-new fl m s (on_nak fl m l) fresh (on_nak-new fl m s l ok))
  dispatch-new CongMsgType.cong_on_nak id _ s fresh ok = refl
  dispatch-new CongMsgType.cong_on_timeout id arg s fresh ok =
      call-new fl m s (on_timeout fl m) fresh (unfold on_timeout in refl)
  dispatch-new CongMsgType.cong_on_data_pkt_sent id arg s fresh ok = refl
  dispatch-new CongMsgType.cong_on_pkt_sent id nil s fresh ok = refl
  dispatch-new CongMsgType.cong_on_pkt_sent id _ s fresh ok = refl
  dispatch-new CongMsgType.cong_on_pkt_recv id nil s fresh ok = refl
  dispatch-new CongMsgType.cong_on_pkt_recv id _ s fresh ok = refl
  dispatch-new CongMsgType.cong_on_custom_msg id nil s fresh ok = refl
  dispatch-new CongMsgType.cong_on_custom_msg id _ s fresh ok = refl

  dispatch-congestion :
      (mtyp : CongMsgType) (id : PacketId) (arg : Arg) (s t : UdtSocketCc NativeCongestionControl)
      (es : List Effect)
      → dispatch (memoryless fl) m mtyp id arg s ≡ some (tt, t, es)
      → t.congestion ≡ s.congestion
  unfolding dispatch memoryless State.set_packet_send_period State.set_congestion_window_size
  dispatch-congestion CongMsgType.cong_init id arg s t es e = ground arith
  dispatch-congestion CongMsgType.cong_on_ack id arg s t es e = ground arith
  dispatch-congestion CongMsgType.cong_on_nak id arg s t es e = ground arith
  dispatch-congestion _ id arg s t es e = ground arith

-- Since the object of a connection keeps the values that it is made with, the control behaves, on
-- every run of messages that report sequence numbers, like one without a state of its own: slow
-- start, the last loss and the counts of NAKs have no influence. Both end in the same state with the
-- same stores, or both panic.
pub handle_all-native :
    (fl : Float64) (run : List (Moment × CongMsg)) (s : UdtSocketCc NativeCongestionControl)
    → s.congestion ≡ new_native
    → All (λ r. SeqArg r.1.arg) run
    → handle_all (native fl) run s ≡ handle_all (memoryless fl) run s
unfolding handle_all
handle_all-native fl [] s fresh ok = refl
handle_all-native fl ((m, msg) ∷ run) s fresh ok =
    ap (λ o. elim o [ none ↦ none | some (a, t, es) ↦ after es (handle_all (native fl) run t) ])
      (dispatch-new fl m msg.mtyp msg.pkt_id msg.arg s fresh ok.0)
    ∙ (elim (Option-cases (dispatch (memoryless fl) m msg.mtyp msg.pkt_id msg.arg s)) [
      | inl e ↦ rw (◌>>=◌, e) refl
      | inr ((_, t, es), e) ↦
          let kept = dispatch-congestion fl m msg.mtyp msg.pkt_id msg.arg s t es e ∙ fresh in
          rw (◌>>=◌, e) (ap (after es) (handle_all-native fl run t kept ok.1))
    ])
