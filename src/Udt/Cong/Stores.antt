-- ===== src/Udt/Cong/Stores.antt =====
-- The stores of a congestion control as the sender and the receiver see them (udt/udtsocket_cc.go,
-- udt/udtsocket_send.go, udt/udtsocket_recv.go). A period that is negative acts like 0 there, since
-- both test only whether it is above 0.
pub mod Window
use go_udt.Common.{ℕ, List, [], ◌∷◌}
use go_udt.Common.Int.{ℤ, pos, negsuc}
use go_udt.Udt.Send.State.{UdtSocketSend}
use go_udt.Udt.Recv.State.{UdtSocketRecv}
use go_udt.Udt.Cong.State.{
  Effect, store_congest_window, store_snd_period, store_rto_period, store_ack_period,
  store_ack_interval,
}

abbrev pos_part : ℤ → ℕ
pos_part (pos n) = n
pos_part (negsuc n) = 0

unfoldable pub store_send : Effect → UdtSocketSend → UdtSocketSend
store_send (store_congest_window w) s = record s { congest_window = w }
store_send (store_snd_period snd) s = record s { snd_period = pos_part snd }
store_send (store_rto_period rto) s = record s { rto_period = pos_part rto }
store_send (store_ack_period ack) s = s
store_send (store_ack_interval ack) s = s

unfoldable pub store_recv : Effect → UdtSocketRecv → UdtSocketRecv
store_recv (store_ack_period ack) s = record s { ack_period = pos_part ack }
store_recv (store_ack_interval ack) s = record s { ack_interval = ack }
store_recv (store_congest_window w) s = s
store_recv (store_snd_period snd) s = s
store_recv (store_rto_period rto) s = s

unfoldable pub store_all : List Effect → UdtSocketSend → UdtSocketSend
unfolding store_send
store_all [] s = s
store_all (e ∷ es) s = store_all es (store_send e s)
