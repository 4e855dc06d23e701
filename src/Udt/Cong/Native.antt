-- ===== src/Udt/Cong/Native.antt =====
-- NativeCongestionControl (udt/congestion_native.go).
--
-- Its methods have value receivers: each is given a copy of the object, and what it stores there is
-- lost when it returns. So a method is a function of the copy, returns what the copy is in the end,
-- and is called through `by_value`.
pub mod Reference
pub mod Panics
mod Object
mod Rate
pub use Object.*
use go_udt.Common.{
  ℕ, ◌-◌, ◌+◌, ◌/◌, ◌%◌, ◌^◌, Bool, true, false, ◌&&◌, List, [], ◌∷◌, ltb, ◌==◌, if◌then◌else◌,
}
use go_udt.Common.Int.{ℤ, pos, negsuc, is_pos, is_zero}
use go_udt.Common.Int64
use go_udt.Packet.PktSeq.{PacketId, add, blind_diff}
use go_udt.Udt.Cong.Float64.{Float64}
use go_udt.Udt.Cong.State
use go_udt.Udt.Cong.State.{
  Moment, UdtSocketCc, Handler, CongestionControl, second, microsecond, syn_interval, get_rtt,
  get_snd_curr_seq_no, get_congestion_window_size, get_packet_send_period, return, get, stop,
  need_some, ◌>>=◌, ◌>>◌,
}
use go_udt.Udt.Cong.Native.Rate.{
  duration, sub_time, slower, spare_bandwidth, increase, next_period, window_from_rate,
}

-- A method, with the copy that it works on, and a call of it.
abbrev pub Method : Type 0 → Type 0
Method C = NativeCongestionControl → Handler C NativeCongestionControl

unfoldable pub by_value :
    Method NativeCongestionControl → Handler NativeCongestionControl (Unit {0})
by_value method = do s ← get; method s.congestion; return tt

module _ (fl : Float64) {C : Type 0} (m : Moment) where
  abbrev set_period : ℤ → Handler C (Unit {0})
  set_period snd = State.set_packet_send_period fl m snd

  unfoldable pub init : Method C
  unfolding State.set_packet_send_period State.set_congestion_window_size State.set_ack_period add
  init ncc = do
    State.set_ack_period syn_interval
    s ← get
    State.set_congestion_window_size 16
    set_period microsecond
    return (record ncc {
      rc_interval = syn_interval;
      last_rc_time = m.now;
      slow_start = true;
      last_ack = get_snd_curr_seq_no s;
      loss = false;
      last_dec_seq = add (get_snd_curr_seq_no s) (negsuc 0);
      last_dec_period = microsecond;
      avg_nak_num = pos 0;
      nak_count = pos 0;
      dec_random = pos 1;
    })

  unfoldable pub close : Method C
  close ncc = return ncc

  -- OnACK from the test of `loss` on
  unfoldable pub update_period : ℕ → ℤ → Method C
  unfolding State.set_packet_send_period State.set_congestion_window_size Int64.div spare_bandwidth
      increase next_period
  update_period cwnd period ncc = elim ncc.loss [
    | true ↦ do State.set_congestion_window_size cwnd; return (record ncc { loss = false })
    | false ↦ do
      rate ← need_some (Int64.div second period)
      let spare = spare_bandwidth ncc.last_dec_period m.bandwidth period rate
      set_period (next_period fl ncc.rc_interval period (increase fl spare m.mtu))
      return ncc
  ]

  -- OnACK where slow start ends
  unfoldable pub end_slow_start : ℕ → PacketId → Method C
  unfolding State.set_packet_send_period Int64.div Int64.add Int64.int64 get_rtt
  end_slow_start cwnd ack ncc = do
    period ← need_some (
        if ltb 0 m.delivery_rate
        then Int64.div second (duration m.delivery_rate)
        else Int64.div (Int64.add (get_rtt m) ncc.rc_interval) (duration cwnd))
    set_period period
    return (record ncc { last_ack = ack; slow_start = false })

  -- OnACK from the test of `slowStart` on
  unfoldable pub ack_due : PacketId → Method C
  unfolding update_period end_slow_start window_from_rate Int64.add Int64.int64 Int64.uint64
  ack_due ack ncc = do
    s ← get
    elim ncc.slow_start [
      | false ↦ update_period (window_from_rate fl ncc m) (get_packet_send_period s) ncc
      | true ↦
          let cwnd = Int64.uint64 (
            Int64.add (Int64.int64 (get_congestion_window_size s)) (blind_diff ack ncc.last_ack)) in
          elim (ltb m.max_flow_win_size cwnd) [
            | false ↦ do
              State.set_congestion_window_size cwnd
              return (record ncc { last_ack = ack })
            | true ↦ do
              ncc ← end_slow_start cwnd ack ncc
              update_period cwnd (get_packet_send_period s) ncc
          ]
    ]

  unfoldable pub on_ack : PacketId → Method C
  unfolding ack_due sub_time Int64.lt
  on_ack ack ncc = elim (Int64.lt (sub_time m.now ncc.last_rc_time) ncc.rc_interval) [
    | true ↦ return ncc
    | false ↦ ack_due ack (record ncc { last_rc_time = m.now })
  ]

  -- `SetPacketSendPeriod(time.Duration(float64(Microsecond) * cwnd / float64(RTT + SYN)))`
  unfoldable pub period_from_window : Method C
  unfolding State.set_packet_send_period Int64.add get_rtt
  period_from_window ncc = do
    s ← get
    let window = fl.of_int (pos (get_congestion_window_size s))
    let rtt = fl.of_int (Int64.add (get_rtt m) ncc.rc_interval)
    set_period (fl.to_int (fl.div (fl.mul (fl.of_int microsecond) window) rtt))
    return ncc

  -- `SetPacketSendPeriod(time.Second / time.Duration(recvRate))`
  unfoldable pub period_from_rate : Method C
  unfolding State.set_packet_send_period Int64.div
  period_from_rate ncc = do
    period ← need_some (Int64.div second (duration m.delivery_rate))
    set_period period
    return ncc

  -- OnNAK where the loss starts a new congestion period
  unfoldable pub new_congestion : Method C
  unfolding State.set_packet_send_period slower Int64.lt
  new_congestion ncc = do
    s ← get
    period ← need_some (slower (get_packet_send_period s))
    set_period period
    let avg_nak_num = fl.to_int (
        fl.ceil (
          fl.add (fl.mul (fl.of_int ncc.avg_nak_num) (fl.lit 875 3))
            (fl.mul (fl.of_int ncc.nak_count) (fl.lit 125 3))))
    let share = fl.div (fl.of_int (pos m.rand)) (fl.of_int (pos (2 ^ 32 - 1)))
    let dec_random = fl.to_int (fl.ceil (fl.mul (fl.of_int avg_nak_num) share))
    return (record ncc {
      last_dec_period = get_packet_send_period s;
      avg_nak_num = avg_nak_num;
      nak_count = pos 1;
      dec_count = pos 1;
      last_dec_seq = get_snd_curr_seq_no s;
      dec_random = if Int64.lt dec_random (pos 1) then pos 1 else dec_random;
    })

  -- OnNAK within a congestion period, where the period changes
  unfoldable pub slow_down : Method C
  unfolding State.set_packet_send_period slower Int64.add
  slow_down ncc = do
    s ← get
    period ← need_some (slower (get_packet_send_period s))
    set_period period
    return (record ncc {
      dec_count = Int64.add ncc.dec_count (pos 1);
      last_dec_seq = get_snd_curr_seq_no s;
    })

  -- OnNAK within a congestion period
  unfoldable pub same_congestion : Method C
  unfolding slow_down Int64.lt Int64.add Int64.rem
  same_congestion ncc = elim (Int64.lt ncc.dec_count (pos 5)) [
    | false ↦ slow_down ncc
    | true ↦ do
      let ncc = record ncc { nak_count = Int64.add ncc.nak_count (pos 1) }
      remainder ← need_some (Int64.rem ncc.nak_count ncc.dec_random)
      elim (is_zero remainder) [
        | true ↦ slow_down ncc
        | false ↦ return (record ncc { dec_count = Int64.add ncc.dec_count (pos 1) })
      ]
  ]

  -- OnNAK behind the test of `slowStart`; `losslist[0]` panics where there is none
  unfoldable pub count_loss : List PacketId → Method C
  unfolding new_congestion same_congestion
  count_loss [] ncc = stop
  count_loss (first ∷ rest) ncc = elim (is_pos (blind_diff ncc.last_dec_seq first)) [
    | true ↦ new_congestion (record ncc { loss = true })
    | false ↦ same_congestion (record ncc { loss = true })
  ]

  unfoldable pub on_nak : List PacketId → Method C
  unfolding count_loss period_from_rate period_from_window
  on_nak losslist ncc = elim ncc.slow_start [
    | false ↦ count_loss losslist ncc
    | true ↦
        let ncc = record ncc { slow_start = false } in
        elim (ltb 0 m.delivery_rate) [
          | true ↦ period_from_rate ncc
          | false ↦ period_from_window ncc >>= count_loss losslist
        ]
  ]

  unfoldable pub on_timeout : Method C
  unfolding period_from_rate period_from_window
  on_timeout ncc = elim ncc.slow_start [
    | false ↦ return ncc
    | true ↦
        let ncc = record ncc { slow_start = false } in
        elim (ltb 0 m.delivery_rate) [
          | true ↦ period_from_rate ncc
          | false ↦ period_from_window ncc
        ]
  ]

-- OnPktSent, OnPktRecv and OnCustomMsg do nothing with what they are given.
abbrev pub ignore : {C A : Type 0} → A → Method C
ignore a ncc = return ncc

-- The control as the goroutine calls it.
unfoldable pub native : Float64 → CongestionControl NativeCongestionControl
unfolding by_value init close on_ack on_nak on_timeout
native fl = record {
  init = λ m. by_value (init fl m);
  close = λ m. by_value (close fl m);
  on_ack = λ m ack. by_value (on_ack fl m ack);
  on_nak = λ m losslist. by_value (on_nak fl m losslist);
  on_timeout = λ m. by_value (on_timeout fl m);
  on_pkt_sent = λ m p. by_value (ignore p);
  on_pkt_recv = λ m p. by_value (ignore p);
  on_custom_msg = λ m p. by_value (ignore p);
}
