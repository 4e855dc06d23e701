-- ===== src/Udt/Socket/State.antt =====
-- The state of udtSocket as far as its connection goes, its effects, newSocket and isOpen. A timer
-- is its duration while it runs; a WaitGroup is `true` while a caller waits for it.
pub use go_udt.Udt.Monad.{◌>>=◌, ◌>>◌, return, get, put, emit}
use go_udt.Udt.Monad.{Action}
use go_udt.Common.{
  ℕ, ◌-◌, ◌%◌, ◌^◌, Bool, true, false, ◌&&◌, Option, none, ltb, ◌==◌, if◌then◌else◌,
}
use go_udt.Packet.PktSeq.{PacketId}
use go_udt.Packet.Handshake.{HandshakePacket}
use go_udt.Packet.Any.{Packet}
use go_udt.Udt.Address.{UdpAddr}

pub data SockState : Type 0 where
  init rendezvous connecting connected : SockState
  closed refused corrupted timeout : SockState

-- What a socket reads of its Config, where 0 stands for a field that is not set.
pub record Config : Type 0 where
  pub max_packet_size : ℕ
  pub max_flow_win_size : ℕ
  pub linger_time : ℕ

-- DefaultConfig
abbrev pub default_config : Config
default_config = record {
  max_packet_size = 0;
  max_flow_win_size = 64;
  linger_time = 180_000_000_000;
}

pub record UdtSocket : Type 0 where
  pub raddr : UdpAddr
  pub config : Config
  pub udt_ver : ℕ
  pub is_datagram : Bool
  pub is_server : Bool
  pub sock_id : ℕ
  pub far_sock_id : ℕ
  pub init_pkt_seq : PacketId
  pub connect_wait : Bool
  pub sock_state : SockState
  pub mtu : ℕ
  pub max_flow_win_size : ℕ
  pub conn_timeout : Option ℕ
  pub conn_retry : Option ℕ
  pub linger_timer : Option ℕ

-- What a socket calls in the other parts, or puts on their channels.
pub data Effect : Type 0 where
  mux_send : UdpAddr → ℕ → ℕ → Packet → Effect
  cong_pkt_sent : Packet → Effect
  cong_close : Effect
  cong_custom_msg : Packet → Effect
  launch_processors : PacketId → Effect
  recv_configure : HandshakePacket → Effect
  send_configure : HandshakePacket → Bool → Effect
  go_manage : Effect
  start_rendezvous end_rendezvous : Effect
  connect_done : Effect
  close_socket : ℕ → Effect
  close_sock_closed close_sock_shutdown : Effect
  message_in_nil : Effect
  recv_event send_event : Packet → ℕ → Effect
  shutdown_event : SockState → Bool → Effect

abbrev pub Handler : Type 0 → Type 0
Handler = Action UdtSocket Effect

-- The HandshakeReqType and SocketType numbers, as uint32.
abbrev pub hs_request : ℕ
hs_request = 1

abbrev pub hs_rendezvous : ℕ
hs_rendezvous = 0

abbrev pub hs_response : ℕ
hs_response = 2 ^ 32 - 1

abbrev pub hs_response2 : ℕ
hs_response2 = 2 ^ 32 - 2

abbrev pub hs_refused : ℕ
hs_refused = 1002

abbrev pub type_stream : ℕ
type_stream = 1

abbrev pub type_dgram : ℕ
type_dgram = 2

abbrev pub is_open_state : SockState → Bool
is_open_state closed = false
is_open_state refused = false
is_open_state corrupted = false
is_open_state timeout = false
is_open_state _ = true

abbrev pub is_open : UdtSocket → Bool
is_open s = is_open_state s.sock_state

-- newSocket, with the multiplexer's mtu and the random number for the first packet
unfoldable pub new_socket : ℕ → PacketId → Config → ℕ → Bool → Bool → UdpAddr → UdtSocket
new_socket mux_mtu seq config sock_id is_server is_datagram raddr =
    let mtu =
      if ltb 0 config.max_packet_size && ltb config.max_packet_size mux_mtu
      then config.max_packet_size
      else mux_mtu in
    let win =
      if config.max_flow_win_size == 0
      then default_config.max_flow_win_size
      else config.max_flow_win_size in
    record {
      raddr = raddr;
      config = config;
      udt_ver = 4;
      is_datagram = is_datagram;
      is_server = is_server;
      sock_id = sock_id;
      far_sock_id = 0;
      init_pkt_seq = seq;
      connect_wait = false;
      sock_state = init;
      mtu = mtu % 2 ^ 32;
      max_flow_win_size = if ltb win 32 then 32 else win;
      conn_timeout = none;
      conn_retry = none;
      linger_timer = none;
    }
