-- ===== src/Udt/Recv/Tests.antt =====
-- Runs of the receiver, and its theorems at concrete states.
use go_udt.Common.{
  ℕ, suc, ◌+◌, ◌*◌, ◌^◌, ◌≡◌, ◌≢◌, ◌⊎◌, refl, true, List, [], ◌∷◌, ◌++◌, none, some, arith,
}
use go_udt.Packet.PktSeq.{incr}
use go_udt.Packet.Data.{DataPacket, get_message_data}
use go_udt.Packet.Any.{nak, data_pkt}
use go_udt.Udt.Heaps.RecvLoss.{RecvLossEntry}
use go_udt.Udt.Recv.State.{
  UdtSocketRecv, Effect, send_packet, message_in, cong_pkt_recv, Context, new_udt_socket_recv,
  ◌>>=◌,
}
use go_udt.Udt.Recv.Ack.{no_header, ack_number, send_ack}
use go_udt.Udt.Recv.Ack.Link.{send_ack-panics}
use go_udt.Udt.Recv.Data.{send_nak, ingest_data}
use go_udt.Udt.Recv.Data.Loss.{send_nak_outcome}
use go_udt.Udt.Recv.Data.Whole.{waiting}
use go_udt.Udt.Recv.Data.Order.{ingest_data-in_order}
use go_udt.Udt.Recv.Events.{recv_pkt, on_event}
use go_udt.Udt.Recv.Sound.{Sound}
use go_udt.Udt.Recv.Sound.Events.{start, next, handled, Run-Sound}

-- A Buckets that leaves the slice as it is.
abbrev context : Context
context = record {
  rtt = 100;
  rtt_var = 50;
  max_flow_win_size = 64;
  clock = 7;
  buckets = λ h k. h;
  fuel = 3;
}

abbrev receiver : UdtSocketRecv
receiver = new_udt_socket_recv 10_000_000

-- A message in one packet, and the next one.
abbrev hello : DataPacket
hello = record { seq = 0; msg = 3 * 2 ^ 30; ts = 0; dst_sock_id = 0; content = 7 ∷ 8 ∷ [] }

abbrev hello_again : DataPacket
hello_again = record hello { seq = 1; msg = 3 * 2 ^ 30 + 1 }

abbrev greeted : UdtSocketRecv
greeted = record receiver { recv_last_arrival = some 5; unack_pkt_count = 1; light_ack_count = 1 }

delivered :
    on_event context (recv_pkt (data_pkt hello) 5) receiver
    ≡ some (true, greeted, cong_pkt_recv hello ∷ message_in (7 ∷ 8 ∷ []) ∷ [])
unfolding on_event ◌>>=◌
delivered = refl

Run-Sound_example : Sound greeted
Run-Sound_example =
    Run-Sound {syn_time = 10_000_000} {t = greeted}
      (next start (handled context (recv_pkt (data_pkt hello) 5) true _ delivered))

hello-whole : (get_message_data hello).0 ≡ 3
unfolding get_message_data
hello-whole = refl

second_seq : hello_again.seq ≡ incr 0
unfolding incr
second_seq = refl

ingest_data-in_order_example :
    (t : UdtSocketRecv) × (es : List Effect) × (ingest_data context hello 5 (waiting 0 receiver)
      ≡ some (tt, waiting 0 t, cong_pkt_recv hello ∷ es ++ message_in (7 ∷ 8 ∷ []) ∷ []))
    × ((fuel : ℕ) → ingest_data (record context { fuel = fuel }) hello_again 6 (waiting 0 t) ≡ none)
ingest_data-in_order_example =
    ingest_data-in_order context 0 hello hello_again 5 6 receiver (omega arith) hello-whole refl
      second_seq

abbrev lost : List RecvLossEntry
lost = record { packet_id = 4; last_feedback = 0; num_nak = 0 } ∷ []

abbrev behind : UdtSocketRecv
behind = record receiver { far_next_pkt_seq = 5; far_recd_pkt_seq = 3; recv_ack2 = 3; sent_ack = 3 }

send_nak_outcome_example :
    ((fuel : ℕ)
      → send_nak (record context { fuel = suc fuel }) lost behind
        ≡ some
            (tt, behind, send_packet (nak (record { hdr = no_header; cmp_loss_info = [] })) ∷ []))
    ⊎ ((fuel : ℕ) → send_nak (record context { fuel = fuel }) lost behind ≡ none)
send_nak_outcome_example = send_nak_outcome context lost behind

to_acknowledge : ack_number behind ≢ 3
unfolding ack_number
to_acknowledge = λ e. omega (arith, e)

send_ack-panics_example : send_ack context behind ≡ none
send_ack-panics_example =
    send_ack-panics context behind (λ h k. refl) refl refl to_acknowledge to_acknowledge
