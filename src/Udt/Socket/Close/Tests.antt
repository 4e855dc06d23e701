-- ===== src/Udt/Socket/Close/Tests.antt =====
-- A Close, what is called while it waits, and one behind the shutdown.
use go_udt.Common.{true, false, [], ◌∷◌, replicate, none, ◌≡◌, refl}
use go_udt.Udt.Socket.State.{
  UdtSocket, connected, closed, default_config, new_socket, cong_close, close_sock_shutdown,
  message_in_nil,
}
use go_udt.Udt.Socket.Manage.{linger, on_manage}
use go_udt.Udt.Socket.Life.{start}
use go_udt.Udt.Socket.Write.{WriteState, write}
use go_udt.Udt.Socket.Write
use go_udt.Udt.Socket.Close.{closed_before, waits, panics, close, close_again}

abbrev sock : UdtSocket
sock =
    record (new_socket 1500 7 default_config 5 false true
      (record { ip = replicate 16 0; port = 9 })) { sock_state = connected }

abbrev shut : UdtSocket
shut = linger true (record sock { sock_state = closed })

abbrev out : WriteState
out = record {
  message_out = [];
  out_closed = true;
  deadline = record { timer = none; passed = false };
}

close_again_example :
    (close sock false ≡ (waits, true))
    × (close sock (close sock false).1 ≡ (panics, true))
    × (write true connected 50 (1 ∷ []) out ≡ Write.panics)
    × (close shut (close sock false).1 ≡ (closed_before, true))
unfolding close on_manage new_socket
close_again_example =
    close_again sock shut shut true 50 3 (1 ∷ []) out closed true true
      (cong_close ∷ close_sock_shutdown ∷ message_in_nil ∷ []) refl refl refl (λ e. cc) refl refl
      start
