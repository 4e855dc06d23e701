-- ===== src/Udt/Recv/State.antt =====
-- The state of udtSocketRecv, its effects, and what its handlers are given.
--
-- A slice or a channel that is nil is `none`, and a time that is zero; a timer is its duration. The
-- packets' times do not go back, so the time between two of them is the difference.
pub use go_udt.Udt.Monad.{after, return, get, put, emit, stop, need_some}
use go_udt.Udt.Monad.{Action}
use go_udt.Common.{◌≡◌, refl, ℕ, List, [], ◌∷◌, Option, none, some, get_elem?}
use go_udt.Common.Int.{negsuc}
use go_udt.Packet.PktSeq.{PacketId, add}
use go_udt.Packet.Handshake.{HandshakePacket}
use go_udt.Packet.Data.{DataPacket}
use go_udt.Packet.Any.{Packet}
use go_udt.Udt.Search.{Search, found, missing}
use go_udt.Udt.Heaps.RecvLoss.{RecvLossEntry}
use go_udt.Udt.Heaps.AckHistory.{AckHistoryEntry}

pub record UdtSocketRecv : Type 0 where
  pub far_next_pkt_seq : PacketId
  pub far_recd_pkt_seq : PacketId
  pub last_ack : ℕ
  pub largest_ack : ℕ
  pub recv_pkt_pend : Option (List DataPacket)
  pub recv_loss_list : Option (List RecvLossEntry)
  pub ack_history : Option (List AckHistoryEntry)
  pub sent_ack : PacketId
  pub recv_ack2 : PacketId
  pub recv_last_arrival : Option ℕ
  pub recv_last_probe : Option ℕ
  pub ack_period : ℕ
  pub ack_interval : ℕ
  pub unack_pkt_count : ℕ
  pub light_ack_count : ℕ
  pub recv_pkt_history : Option (List ℕ)
  pub recv_pkt_pair_history : Option (List ℕ)
  pub ack_sent_event2 : Option ℕ
  pub ack_sent_event : Option ℕ
  pub ack_timer_event : Option ℕ

-- What it puts on channels, or calls in its socket.
pub data Effect : Type 0 where
  send_packet : Packet → Effect
  message_in : List ℕ → Effect
  apply_rtt : ℕ → Effect
  cong_pkt_recv : DataPacket → Effect

abbrev pub Handler : Type 0 → Type 0
Handler = Action UdtSocketRecv Effect

-- The calls of a handler in sequence, shut so that a handler is taken by its calls.
infixl 5 ◌>>=◌ ◌>>◌
unfoldable pub ◌>>=◌ : {A B : Type 0} → Handler A → (A → Handler B) → Handler B
◌>>=◌ m f s = elim (m s) [ none ↦ none | some (a, s', es) ↦ after es (f a s') ]

abbrev pub ◌>>◌ : {A B : Type 0} → Handler A → Handler B → Handler B
◌>>◌ m k = m >>= λ _. k

-- The socket's fields that it reads, Go's clock, FloydRivest.Buckets, and the rounds that sendNAK's
-- loop is given.
pub record Context : Type 0 where
  pub rtt : ℕ
  pub rtt_var : ℕ
  pub max_flow_win_size : ℕ
  pub clock : ℕ
  pub buckets : List ℕ → ℕ → List ℕ
  pub fuel : ℕ

-- newUdtSocketRecv
abbrev pub new_udt_socket_recv : ℕ → UdtSocketRecv
new_udt_socket_recv syn_time = record {
  far_next_pkt_seq = 0;
  far_recd_pkt_seq = 0;
  last_ack = 0;
  largest_ack = 0;
  recv_pkt_pend = none;
  recv_loss_list = none;
  ack_history = none;
  sent_ack = 0;
  recv_ack2 = 0;
  recv_last_arrival = none;
  recv_last_probe = none;
  ack_period = 0;
  ack_interval = 0;
  unack_pkt_count = 0;
  light_ack_count = 0;
  recv_pkt_history = none;
  recv_pkt_pair_history = none;
  ack_sent_event2 = none;
  ack_sent_event = none;
  ack_timer_event = some syn_time;
}

unfoldable pub configure_handshake : HandshakePacket → UdtSocketRecv → UdtSocketRecv
unfolding add
configure_handshake p s = record s {
  far_next_pkt_seq = p.init_pkt_seq;
  far_recd_pkt_seq = add p.init_pkt_seq (negsuc 0);
  sent_ack = p.init_pkt_seq;
  recv_ack2 = p.init_pkt_seq;
}

-- The entry that a search returns, with its index; the outer `none` where it does not return.
abbrev pub entry_at : {A : Type 0} → List A → Search → Option (Option (ℕ × A))
entry_at h (found i) = elim (get_elem? h i) [ none ↦ none | some a ↦ some (some (i, a)) ]
entry_at h missing = some none
entry_at h _ = none

-- The entries of a slice that may be nil.
abbrev pub entries : {A : Type 0} → Option (List A) → List A
entries none = []
entries (some h) = h

-- `if len(h) == 0 { h = nil }`
abbrev pub nil_if_empty : {A : Type 0} → List A → Option (List A)
nil_if_empty [] = none
nil_if_empty (x ∷ h) = some (x ∷ h)

-- What a call does first decides how it goes on.
pub bind-none :
    {A B : Type 0} (m : Handler A) (f : A → Handler B) (s : UdtSocketRecv)
    → m s ≡ none
    → (m >>= f) s ≡ none
unfolding ◌>>=◌
bind-none m f s e = rw (◌>>=◌, e) refl

pub bind-some :
    {A B : Type 0} (m : Handler A) (f : A → Handler B) (s : UdtSocketRecv) {a : A}
    {t : UdtSocketRecv} {es : List Effect}
    → m s ≡ some (a, t, es)
    → (m >>= f) s ≡ after es (f a t)
unfolding ◌>>=◌
bind-some m f s e = rw (◌>>=◌, e) refl
