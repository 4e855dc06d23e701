-- ===== src/Udt/Cong/Native/Object.antt =====
-- The object of NativeCongestionControl (udt/congestion_native.go). A time is the nanoseconds since
-- the zero time.
use go_udt.Common.{ℕ, Bool, false}
use go_udt.Common.Int.{ℤ, pos}
use go_udt.Packet.PktSeq.{PacketId}

pub record NativeCongestionControl : Type 0 where
  pub rc_interval : ℤ
  pub last_rc_time : ℕ
  pub slow_start : Bool
  pub last_ack : PacketId
  pub loss : Bool
  pub last_dec_seq : PacketId
  pub last_dec_period : ℤ
  pub nak_count : ℤ
  pub dec_random : ℤ
  pub avg_nak_num : ℤ
  pub dec_count : ℤ

-- `&NativeCongestionControl{}`
abbrev pub new_native : NativeCongestionControl
new_native = record {
  rc_interval = pos 0;
  last_rc_time = 0;
  slow_start = false;
  last_ack = 0;
  loss = false;
  last_dec_seq = 0;
  last_dec_period = pos 0;
  nak_count = pos 0;
  dec_random = pos 0;
  avg_nak_num = pos 0;
  dec_count = pos 0;
}
