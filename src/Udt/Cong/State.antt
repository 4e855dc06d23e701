-- ===== src/Udt/Cong/State.antt =====
-- CongestionControlParms and CongestionControl (udt/congestion.go), udtSocketCc with the methods by
-- which a control reads and sets the socket (udt/udtsocket_cc.go), and SetPacketSendPeriod of the
-- sender (udt/udtsocket_send.go).
--
-- `C` is the type of the control's object. What a control reads of the socket, the clock and the
-- random number source is a `Moment`, which is read once for each message; what it sets in the
-- sender and the receiver, by atomic stores, is the effects.
pub use go_udt.Udt.Monad.{after, ◌>>=◌, ◌>>◌, return, get, put, emit, stop, need_some}
use go_udt.Udt.Monad.{Action}
use go_udt.Common.{ℕ, ◌%◌, ◌^◌, List, Option, none, some, ltb, if◌then◌else◌}
use go_udt.Common.Int.{ℤ, pos}
use go_udt.Common.Int64
use go_udt.Packet.PktSeq.{PacketId}
use go_udt.Packet.Any.{Packet}
use go_udt.Packet.Data.{DataPacket}
use go_udt.Packet.UserDef.{UserDefControlPacket}
use go_udt.Udt.Cong.Float64.{Float64}
use go_udt.Udt.Send.Timer.{syn_time}

pub record Moment : Type 0 where
  pub now : ℕ
  pub rand : ℕ
  pub max_flow_win_size : ℕ
  pub delivery_rate : ℕ
  pub bandwidth : ℕ
  pub rtt : ℕ
  pub mtu : ℕ
  pub max_bandwidth : ℕ

pub record UdtSocketCc (C : Type 0) : Type 0 where
  pub congestion : C
  pub send_pkt_seq : PacketId
  pub cong_window : ℕ
  pub snd_period : ℤ

pub data Effect : Type 0 where
  store_congest_window : ℕ → Effect
  store_snd_period : ℤ → Effect
  store_rto_period : ℤ → Effect
  store_ack_period : ℤ → Effect
  store_ack_interval : ℕ → Effect

abbrev pub Handler : Type 0 → Type 0 → Type 0
Handler C = Action (UdtSocketCc C) Effect

abbrev pub second : ℤ
second = pos 1_000_000_000

abbrev pub microsecond : ℤ
microsecond = pos 1000

-- The period that the sender takes for `snd`; `none` where the division panics
unfoldable pub limited_period : Float64 → Moment → ℤ → Option ℤ
unfolding Int64.div Int64.lt
limited_period fl m snd =
    if ltb 0 m.max_bandwidth
    then (elim (Int64.div second
        (fl.to_int (fl.div (fl.of_int (pos m.max_bandwidth)) (fl.of_int (pos m.mtu))))) [
          | none ↦ none
          | some min_sp ↦ some (if Int64.lt snd min_sp then min_sp else snd)
        ])
    else some snd

module _ {C : Type 0} where
  abbrev pub get_snd_curr_seq_no : UdtSocketCc C → PacketId
  get_snd_curr_seq_no s = s.send_pkt_seq

  abbrev pub get_congestion_window_size : UdtSocketCc C → ℕ
  get_congestion_window_size s = s.cong_window

  abbrev pub get_packet_send_period : UdtSocketCc C → ℤ
  get_packet_send_period s = s.snd_period

  unfoldable pub set_congestion_window_size : ℕ → Handler C (Unit {0})
  set_congestion_window_size pkt = do
    s ← get
    put (record s { cong_window = pkt })
    emit (store_congest_window (pkt % 2 ^ 32))

  unfoldable pub set_packet_send_period : Float64 → Moment → ℤ → Handler C (Unit {0})
  unfolding limited_period
  set_packet_send_period fl m snd = do
    s ← get
    put (record s { snd_period = snd })
    period ← need_some (limited_period fl m snd)
    emit (store_snd_period period)

  unfoldable pub set_ack_period : ℤ → Handler C (Unit {0})
  set_ack_period ack = emit (store_ack_period ack)

  unfoldable pub set_ack_interval : ℕ → Handler C (Unit {0})
  set_ack_interval ack = emit (store_ack_interval (ack % 2 ^ 32))

  unfoldable pub set_rto_period : ℤ → Handler C (Unit {0})
  set_rto_period rto = emit (store_rto_period rto)

-- `time.Duration(rtt) * time.Microsecond`
unfoldable pub get_rtt : Moment → ℤ
unfolding Int64.mul
get_rtt m = Int64.mul (pos m.rtt) microsecond

-- synTime
abbrev pub syn_interval : ℤ
syn_interval = pos syn_time

-- The interface CongestionControl, for an object of type `C` that the methods reach through the
-- socket's state.
pub record CongestionControl (C : Type 0) : Type 0 where
  pub init : Moment → Handler C (Unit {0})
  pub close : Moment → Handler C (Unit {0})
  pub on_ack : Moment → PacketId → Handler C (Unit {0})
  pub on_nak : Moment → List PacketId → Handler C (Unit {0})
  pub on_timeout : Moment → Handler C (Unit {0})
  pub on_pkt_sent : Moment → Packet → Handler C (Unit {0})
  pub on_pkt_recv : Moment → DataPacket → Handler C (Unit {0})
  pub on_custom_msg : Moment → UserDefControlPacket → Handler C (Unit {0})
