-- ===== src/Udt/Send/State.antt =====
-- The state of udtSocketSend, what it sends to the other goroutines, and reevalSendState.
--
-- A handler is given the state, and returns the new one with its effects in order: the packets
-- and messages that it puts on channels. `none` stands for a handler that does not return, since
-- a lookup in a heap never ends, or that panics. A channel of a timer that is nil is `false` or
-- `none`.
pub use go_udt.Udt.Monad.{after, ◌>>=◌, ◌>>◌, return, get, put, emit, stop}
use go_udt.Udt.Monad.{Action}
use go_udt.Common.{ℕ, Bool, List, Option, none, some, length, ltb, leb, if◌then◌else◌}
use go_udt.Packet.PktSeq.{PacketId}
use go_udt.Packet.Any.{Packet}
use go_udt.Udt.Heaps.SendPackets.{SendPacketEntry}

pub data SendState : Type 0 where
  idle sending waiting process_drop shut_down : SendState

-- The causes of a shutdown, from sockState, that the sender reports.
pub data Fault : Type 0 where
  closed corrupted timeout : Fault

pub record SendMessage : Type 0 where
  pub content : List ℕ
  pub tim : ℕ
  pub ttl : ℕ

pub record UdtSocketSend : Type 0 where
  pub send_state : SendState
  pub send_pkt_pend : Option (List SendPacketEntry)
  pub send_pkt_seq : PacketId
  pub msg_partial_send : Option SendMessage
  pub msg_seq : ℕ
  pub exp_count : ℕ
  pub last_recv_time : ℕ
  pub recv_ack_seq : PacketId
  pub sent_ack2 : ℕ
  pub send_loss_list : Option (List PacketId)
  pub snd_period : ℕ
  pub rto_period : ℕ
  pub congest_window : ℕ
  pub flow_window_size : ℕ
  pub snd_event : Bool
  pub ack2_sent_event : Bool
  pub exp_timer_event : Option ℕ

-- What the sender reads of its socket.
pub record Socket : Type 0 where
  pub is_datagram : Bool
  pub mtu : ℕ
  pub rtt : ℕ
  pub rtt_var : ℕ

pub data Effect : Type 0 where
  send_packet : Packet → Effect
  shutdown_event : Fault → Bool → Effect
  cong_data_pkt_sent : PacketId → Effect
  cong_ack : PacketId → Effect
  cong_nak : List PacketId → Effect
  cong_timeout : Effect
  apply_rtt : ℕ → Effect
  apply_receive_rates : ℕ → ℕ → Effect

abbrev pub Handler : Type 0 → Type 0
Handler = Action UdtSocketSend Effect

unfoldable pub reeval_send_state : UdtSocketSend → SendState
reeval_send_state s = if s.snd_event then sending else elim s.send_pkt_pend [
  | none ↦ idle
  | some pend ↦
      let cwnd =
        if ltb s.congest_window s.flow_window_size then s.congest_window else s.flow_window_size in
      if leb (length pend) cwnd then waiting else idle
]
