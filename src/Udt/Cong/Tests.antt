-- ===== src/Udt/Cong/Tests.antt =====
-- Congestion control at concrete inputs, over fractions in place of floating point numbers.
use go_udt.Common.{
  ℕ, zero, suc, ◌+◌, ◌-◌, ◌*◌, ◌/◌, ◌^◌, true, List, [], ◌∷◌, ◌++◌, none, some, ◌≡◌, refl, ltb,
  if◌then◌else◌, arith,
}
use go_udt.Common.Int.{ℤ, pos, negsuc}
use go_udt.Packet.PktSeq.{blind_diff}
use go_udt.Udt.Send.State.{UdtSocketSend, reeval_send_state}
use go_udt.Udt.Send.Timer.{new_udt_socket_send}
use go_udt.Udt.Cong.Float64.{Float64}
use go_udt.Udt.Cong.State.{
  Moment, UdtSocketCc, Effect, store_congest_window, store_snd_period, store_ack_period,
}
use go_udt.Udt.Cong.Msg
use go_udt.Udt.Cong.Msg.{CongMsg}
use go_udt.Udt.Cong.Plumbing.{dispatch, handle, handle_all, new_udt_socket_cc}
use go_udt.Udt.Cong.Calls.{Report}
use go_udt.Udt.Cong.Native.{NativeCongestionControl, new_native, native}
use go_udt.Udt.Cong.Native.Reference.{memoryless, handle_all-native}
use go_udt.Udt.Cong.Native.Panics.{second_ack-panics, on_nak_outcome}
use go_udt.Udt.Cong.Stores.{store_all}
use go_udt.Udt.Cong.Stores.Window.{handle_all-sender}

-- A fraction that is not negative, by numerator and denominator
abbrev Fraction : Type 0
Fraction = ℕ × ℕ

abbrev of_int : ℤ → Fraction
of_int (pos n) = (n, 1)
of_int (negsuc n) = (0, 1)

abbrev digits : ℕ → ℕ → ℕ
digits zero n = 0
digits (suc fuel) n = let rest = digits fuel (n / 10) in if ltb n 10 then 0 else rest + 1

abbrev power : ℤ → Fraction
power (pos n) = (10 ^ n, 1)
power (negsuc n) = (1, 10 ^ suc n)

abbrev fractions : Float64
fractions = record {
  Value = Fraction;
  of_int = of_int;
  to_int = λ x. pos (x.0 / x.1);
  to_uint = λ x. x.0 / x.1;
  lit = λ m e. (m, 10 ^ e);
  add = λ x y. (x.0 * y.1 + y.0 * x.1, x.1 * y.1);
  mul = λ x y. (x.0 * y.0, x.1 * y.1);
  div = λ x y. (x.0 * y.1, x.1 * y.0);
  lt = λ x y. ltb (x.0 * y.1) (y.0 * x.1);
  ceil = λ x. ((x.0 + x.1 - 1) / x.1, 1);
  log10 = λ x. (digits 20 (x.0 / x.1), 1);
  pow10 = power;
}

abbrev moment : Moment
moment = record {
  now = 5_000_000;
  rand = 77;
  max_flow_win_size = 64;
  delivery_rate = 16;
  bandwidth = 1;
  rtt = 100_000;
  mtu = 1500;
  max_bandwidth = 0;
}

abbrev cc : UdtSocketCc NativeCongestionControl
cc = new_udt_socket_cc new_native

abbrev loss : List ℕ
loss = 1_500_000_000 ∷ 1_500_000_001 ∷ []

-- A connection that reports a loss and then an ACK.
abbrev run : List (Moment × CongMsg)
run = (moment, Msg.init 7) ∷ (moment, Msg.on_nak loss) ∷ (moment, Msg.on_ack 9) ∷ []

abbrev run_stores : List Effect
run_stores =
    store_ack_period (pos 10_000_000)
    ∷ store_congest_window 16
    ∷ store_snd_period (pos 1000)
    ∷ store_snd_period (pos 1125)
    ∷ store_snd_period (pos 0)
    ∷ []

abbrev run_end : UdtSocketCc NativeCongestionControl
run_end = record cc { send_pkt_seq = 7; cong_window = 16; snd_period = pos 0 }

run_lem : handle_all (native fractions) run cc ≡ some (tt, run_end, run_stores)
unfolding handle_all dispatch native blind_diff
run_lem = refl

handle_all-native_example :
    handle_all (native fractions) run cc ≡ handle_all (memoryless fractions) run cc
handle_all-native_example =
    handle_all-native fractions run cc refl (tt, ((omega arith, (omega arith, tt)), (tt, tt)))

second_ack-panics_example :
    handle_all
      (native fractions)
      ((moment, Msg.init 7) ∷ ((moment, Msg.on_data_pkt_sent 7) ∷ [])
        ++ (moment, Msg.on_ack 8) ∷ ((moment, Msg.on_nak loss) ∷ [])
        ++ (moment, Msg.on_ack 9) ∷ (moment, Msg.close) ∷ [])
      cc
    ≡ none
second_ack-panics_example =
    second_ack-panics fractions refl moment moment moment 7 8 9
      ((moment, Msg.on_data_pkt_sent 7) ∷ []) ((moment, Msg.on_nak loss) ∷ [])
      ((moment, Msg.close) ∷ []) (omega arith) (tt, tt) (tt, tt)
      (tt, (tt, (tt, ((omega arith, (omega arith, tt)), (tt, (tt, tt))))))

slow : UdtSocketCc NativeCongestionControl
slow = record cc { snd_period = pos 1000 }

on_nak_outcome_example :
    (handle (native fractions) moment (Msg.on_nak []) slow ≡ none)
    × (handle (native fractions) moment (Msg.on_nak loss) slow ≡ (
        if ltb (2 ^ 30) 1_500_000_000
        then some (
          tt,
          record slow { snd_period = pos (1000 * 1125 / 1000) },
          store_snd_period (pos (1000 * 1125 / 1000)) ∷ [],
        )
        else none))
unfolding slow
on_nak_outcome_example =
    on_nak_outcome fractions moment 1_500_000_000 (1_500_000_001 ∷ []) 1000 slow refl
      (omega arith, (omega arith, tt)) refl refl (omega arith)

abbrev sender : UdtSocketSend
unfolding new_udt_socket_send
sender =
    new_udt_socket_send 7 64 0
      (record { is_datagram = true; mtu = 1500; rtt = 100_000; rtt_var = 50_000 })

handle_all-sender_example :
    (store_all run_stores sender
      ≡ record sender { snd_period = (store_all run_stores sender).snd_period })
    × ((store_all run_stores sender).congest_window ≡ 16)
    × (reeval_send_state (store_all run_stores sender) ≡ reeval_send_state sender)
unfolding new_udt_socket_send
handle_all-sender_example =
    handle_all-sender fractions run run_end run_stores sender
      (tt, ((omega arith, (omega arith, tt)), (tt, tt))) run_lem refl

-- Init, a data packet, its ACK, and a loss.
abbrev reports : List (Moment × Report)
reports =
    (moment, Report.init 7)
    ∷ (moment, Report.on_data_pkt_sent 8)
    ∷ (moment, Report.on_ack 9)
    ∷ (moment, Report.on_nak loss)
    ∷ []
