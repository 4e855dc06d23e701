-- ===== src/Udt/Send/Events.antt =====
-- goSendEvent: the sender's loop. One round of it is `before_select` and, where that does not
-- `continue`, an event that `is_enabled` and its `on_event`.
pub mod Reeval
use go_udt.Common.{
  ℕ, ◌+◌, ◌%◌, Bool, true, false, not, ◌||◌, List, [], ◌∷◌, Option, none, some, ◌==◌, if◌then◌else◌,
}
use go_udt.Packet.Any.{Packet, ack, light_ack, nak, congestion, shutdown}
use go_udt.Udt.Send.State.{
  UdtSocketSend, SendMessage, Socket, SendState, idle, sending, waiting, process_drop, shut_down,
  closed, Handler, Effect, send_packet, shutdown_event, Fault, return, get, put, emit, ◌>>=◌, ◌>>◌,
  reeval_send_state,
}
use go_udt.Udt.Send.Expire.{process_send_expire}
use go_udt.Udt.Send.Data.{process_data_msg}
use go_udt.Udt.Send.Loss.{process_send_loss}
use go_udt.Udt.Send.Nak.{ingest_nak}
use go_udt.Udt.Send.Ack.{ingest_ack, ingest_light_ack, ingest_congestion}
use go_udt.Udt.Send.Timer.{reset_exp, exp_event}

-- What the `select` receives. A message comes with those behind it on the channel, and a packet
-- with the time at which it came.
pub data SendEvent : Type 0 where
  sock_shutdown : SendEvent
  message_out : SendMessage → List SendMessage → SendEvent
  message_closed : SendEvent
  recv_pkt : Packet → ℕ → SendEvent
  recv_closed : SendEvent
  sock_closed : SendEvent
  ack2_unlocked : SendEvent
  exp_timer : ℕ → SendEvent
  snd_timer : SendEvent

-- The channels that are nil in a state are never received from.
unfoldable pub is_enabled : UdtSocketSend → SendEvent → Bool
is_enabled s sock_shutdown = elim s.send_state [ shut_down ↦ false | _ ↦ true ]
is_enabled s (message_out m ms) = elim s.send_state [ idle ↦ true | _ ↦ false ]
is_enabled s message_closed = elim s.send_state [ idle ↦ true | _ ↦ false ]
is_enabled s ack2_unlocked = s.ack2_sent_event
is_enabled s (exp_timer now) = elim s.exp_timer_event [ none ↦ false | some d ↦ true ]
is_enabled s snd_timer = s.snd_event
is_enabled s _ = true

-- `s.sendState = s.reevalSendState()`
unfoldable pub reeval : Handler (Unit {0})
unfolding reeval_send_state
reeval = do s ← get; put (record s { send_state = reeval_send_state s })

-- `if !s.processSendLoss() || s.sendPktSeq.Seq%16 == 0 { s.processSendExpire() }`
unfoldable pub resend : ℕ → Handler (Unit {0})
unfolding process_send_loss process_send_expire
resend now = do
  sent ← process_send_loss now
  s ← get
  elim (not sent || (s.send_pkt_seq % 16 == 0)) [
    | false ↦ return tt
    | true ↦ do process_send_expire now; return tt
  ]

-- The `switch` before the `select`: the messages left on the channel where it does `continue`.
unfoldable pub before_select : ℕ → Socket → List SendMessage → Handler (Option (List SendMessage))
unfolding process_data_msg reeval resend
before_select now sock in_chan = do
  s ← get
  elim s.send_state [
    | idle ↦ elim s.msg_partial_send [
      | none ↦ return none
      | some m ↦ do left ← process_data_msg now sock false in_chan; return (some left)
    ]
    | process_drop ↦ do reeval; resend now; return (some in_chan)
    | _ ↦ return none
  ]

-- `switch sp := evt.pkt.(type) { … }`
unfoldable pub ingest : Packet → Handler (Unit {0})
unfolding ingest_ack ingest_light_ack ingest_nak ingest_congestion
ingest (ack p) = ingest_ack p
ingest (light_ack p) = do s ← get; put (ingest_light_ack p s)
ingest (nak p) = ingest_nak p
ingest (congestion p) = do s ← get; put (ingest_congestion s)
ingest _ = return tt

-- The handler of an event; `false` where the goroutine returns. `now` is the clock.
unfoldable pub on_event : ℕ → Socket → SendEvent → Handler Bool
unfolding process_data_msg ingest reset_exp reeval resend exp_event
on_event now sock sock_shutdown = do
  s ← get
  put (record s { send_state = shut_down; exp_timer_event = none })
  return true
on_event now sock (message_out m ms) = do
  s ← get
  put (record s { msg_partial_send = some m })
  process_data_msg now sock true ms
  return true
on_event now sock message_closed = do
  emit (send_packet (shutdown (record { hdr = record { ts = 0; dst_sock_id = 0 } })))
  emit (shutdown_event closed true)
  return false
on_event now sock (recv_pkt p at) = do
  s ← get
  put (reset_exp at sock (record s { exp_count = 1 }))
  ingest p
  reeval
  return true
on_event now sock recv_closed = return false
on_event now sock sock_closed = return false
on_event now sock ack2_unlocked = do
  s ← get
  put (record s { ack2_sent_event = false })
  return true
on_event now sock (exp_timer at) = do exp_event at sock; return true
on_event now sock snd_timer = do
  s ← get
  put (record s { snd_event = false })
  elim s.send_state [ sending ↦ do reeval; resend now; return true | _ ↦ return true ]
