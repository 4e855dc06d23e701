-- ===== src/Udt/Cong/Native/Panics.antt =====
-- The divisions of OnACK and OnNAK (udt/congestion_native.go) on a connection.
use go_udt.Common.{
  ℕ, ◌*◌, ◌/◌, ◌^◌, ◌<◌, ◌≤◌, false, List, [], ◌∷◌, ◌++◌, All, none, some, Option-cases, inl, inr,
  ◌≡◌, refl, ap, ◌∙◌, ltb, if◌then◌else◌, arith,
}
use go_udt.Common.Int.{pos}
use go_udt.Common.Int64
use go_udt.Packet.PktSeq.{PacketId}
use go_udt.Udt.Cong.Float64.{Float64}
use go_udt.Udt.Cong.State
use go_udt.Udt.Cong.State.{
  Moment, UdtSocketCc, Effect, CongestionControl, store_snd_period, after, ◌>>=◌, ◌>>◌,
}
use go_udt.Udt.Cong.Msg.{CongMsgType, CongMsg, Arg, nil, ids}
use go_udt.Udt.Cong.Msg
use go_udt.Udt.Cong.Plumbing.{dispatch, handle, handle_all, new_udt_socket_cc}
use go_udt.Udt.Cong.Native.{NativeCongestionControl, new_native, native}
use go_udt.Udt.Cong.Native.Rate.{slower, spare_bandwidth, increase, next_period}
use go_udt.Udt.Cong.Native.Reference.{SeqArg, memoryless, dispatch-new, handle_all-native}

abbrev Cc : Type 0
Cc = UdtSocketCc NativeCongestionControl

cons-eq-none :
    (ctl : CongestionControl NativeCongestionControl) (m : Moment) (msg : CongMsg)
    (run : List (Moment × CongMsg)) (s : Cc)
    → ((t : Cc) (es : List Effect)
        → handle ctl m msg s ≡ some (tt, t, es)
        → handle_all ctl run t ≡ none)
    → handle_all ctl ((m, msg) ∷ run) s ≡ none
unfolding handle_all
cons-eq-none ctl m msg run s rest = elim (Option-cases (handle ctl m msg s)) [
  | inl e ↦ rw (◌>>=◌, e) refl
  | inr ((_, t, es), e) ↦ rw (◌>>=◌, e) (ap (after es) (rest t es e))
]

module _ (ctl : CongestionControl NativeCongestionControl) (P : Cc → Type 0) (Q : CongMsg → Type 0)
    (keeps : (m : Moment) (msg : CongMsg) (s t : Cc) (es : List Effect)
      → Q msg
      → P s
      → handle ctl m msg s ≡ some (tt, t, es)
      → P t) where
  -- Messages that keep `P`, before some that end in a panic wherever `P` holds.
  handle_all-eq-none :
      (xs ys : List (Moment × CongMsg)) (s : Cc)
      → ((t : Cc) → P t → handle_all ctl ys t ≡ none)
      → All (λ r. Q r.1) xs
      → P s
      → handle_all ctl (xs ++ ys) s ≡ none
  handle_all-eq-none [] ys s last ok p = last s p
  handle_all-eq-none ((m, msg) ∷ xs) ys s last ok p =
      cons-eq-none ctl m msg (xs ++ ys) s
        (λ t es e. handle_all-eq-none xs ys t last ok.1 (keeps m msg s t es ok.0 p e))

-- A message that neither starts the connection nor reports packets.
abbrev pub IsQuiet : CongMsgType → Type 0
IsQuiet CongMsgType.cong_init = ⊥
IsQuiet CongMsgType.cong_on_ack = ⊥
IsQuiet CongMsgType.cong_on_nak = ⊥
IsQuiet _ = Unit {0}

abbrev pub IsLater : CongMsgType → Type 0
IsLater CongMsgType.cong_init = ⊥
IsLater _ = Unit {0}

module _ (fl : Float64) (m : Moment) (id : PacketId) where
  quiet-period :
      (mtyp : CongMsgType) (arg : Arg) (s t : Cc) (es : List Effect)
      → IsQuiet mtyp
      → dispatch (memoryless fl) m mtyp id arg s ≡ some (tt, t, es)
      → t.snd_period ≡ s.snd_period
  unfolding dispatch memoryless
  quiet-period CongMsgType.cong_close arg s t es q e = ground arith
  quiet-period _ arg s t es q e = ground arith

  -- A period of 0 stays 0 until an ACK panics.
  later-period_zero :
      (mtyp : CongMsgType) (arg : Arg) (s t : Cc) (es : List Effect)
      → IsLater mtyp
      → s.snd_period ≡ pos 0
      → dispatch (memoryless fl) m mtyp id arg s ≡ some (tt, t, es)
      → t.snd_period ≡ pos 0
  unfolding dispatch memoryless State.set_packet_send_period slower Int64.mul Int64.div
  later-period_zero CongMsgType.cong_on_ack arg s t es q z e = ground arith
  later-period_zero CongMsgType.cong_on_nak arg s t es q z e = ground arith
  later-period_zero _ arg s t es q z e = ground arith

  init-period :
      (arg : Arg) (s t : Cc) (es : List Effect)
      → dispatch (memoryless fl) m CongMsgType.cong_init id arg s ≡ some (tt, t, es)
      → t.snd_period ≡ pos 1000
  unfolding dispatch memoryless State.set_packet_send_period
  init-period arg s t es e = ground arith

  ack_zero-eq-none :
      (behind : List (Moment × CongMsg)) (s : Cc)
      → s.snd_period ≡ pos 0
      → handle_all (memoryless fl) ((m, Msg.on_ack id) ∷ behind) s ≡ none
  unfolding handle_all dispatch memoryless Int64.div
  ack_zero-eq-none behind s z = ground arith

no_spare :
    (bandwidth : ℕ)
    → bandwidth ≤ 1_000_000
    → Int64.lt (pos 0) (spare_bandwidth (pos 0) bandwidth (pos 1000) (pos 1_000_000)) ≡ false
unfolding spare_bandwidth Int64.sub Int64.lt Int64.int64 Int64.uint64
no_spare bandwidth h = ground arith

module _ (fl : Float64)
    (zero_div : fl.to_int (
        fl.div
          (fl.of_int (pos 0))
          (fl.add (fl.mul (fl.of_int (pos 1000)) (fl.lit 1 2)) (fl.of_int (pos 0))))
      ≡ pos 0) where
  first_period :
      (m : Moment)
      → m.bandwidth ≤ 1_000_000
      → next_period fl
          (pos 0)
          (pos 1000)
          (increase fl (spare_bandwidth (pos 0) m.bandwidth (pos 1000) (pos 1_000_000)) m.mtu)
        ≡ pos 0
  unfolding next_period increase
  first_period m h = rw (increase, no_spare m.bandwidth h) zero_div

  first_ack-period :
      (m : Moment) (ack : PacketId) (s t : Cc) (es : List Effect)
      → m.bandwidth ≤ 1_000_000
      → s.snd_period ≡ pos 1000
      → handle (memoryless fl) m (Msg.on_ack ack) s ≡ some (tt, t, es)
      → t.snd_period ≡ pos 0
  unfolding dispatch memoryless State.set_packet_send_period Int64.div
  first_ack-period m ack s t es slow p e = ground (arith, first_period m slow)

  second_half :
      (m1 m2 : Moment) (ack1 ack2 : PacketId) (between behind : List (Moment × CongMsg))
      → m1.bandwidth ≤ 1_000_000
      → All (λ r. IsLater r.1.mtyp) between
      → (s : Cc) → s.snd_period ≡ pos 1000
      → handle_all
          (memoryless fl)
          ((m1, Msg.on_ack ack1) ∷ (between ++ (m2, Msg.on_ack ack2) ∷ behind))
          s
        ≡ none
  second_half m1 m2 ack1 ack2 between behind slow later s p =
      cons-eq-none (memoryless fl) m1 (Msg.on_ack ack1) _ s λ t es e.
        handle_all-eq-none (memoryless fl) (λ s. s.snd_period ≡ pos 0) (λ msg. IsLater msg.mtyp)
          (λ m msg s t es q p e. later-period_zero fl m msg.pkt_id msg.mtyp msg.arg s t es q p e)
          between ((m2, Msg.on_ack ack2) ∷ behind) t (ack_zero-eq-none fl m2 ack2 behind) later
          (first_ack-period m1 ack1 s t es slow p e)

  -- After Init, the first ACK sets the period between packets to 0, and the second one divides by it:
  -- the control panics, whatever came between and comes after, unless it has panicked before. The
  -- messages before the first ACK are neither ACKs nor NAKs, none is another Init, the lists of NAKs
  -- are of sequence numbers, and the bandwidth at the first ACK is at most a million packets a
  -- second; of the floating point numbers is asked that 0 / (1000 · 0.01 + 0) is 0.
  pub second_ack-panics :
      (m m1 m2 : Moment) (seq ack1 ack2 : PacketId)
      (before between behind : List (Moment × CongMsg))
      → m1.bandwidth ≤ 1_000_000
      → All (λ r. IsQuiet r.1.mtyp) before
      → All (λ r. IsLater r.1.mtyp) between
      → All
          (λ r. SeqArg r.1.arg)
          ((m, Msg.init seq)
            ∷ (before ++ (m1, Msg.on_ack ack1) ∷ (between ++ (m2, Msg.on_ack ack2) ∷ behind)))
      → handle_all
          (native fl)
          ((m, Msg.init seq)
            ∷ (before ++ (m1, Msg.on_ack ack1) ∷ (between ++ (m2, Msg.on_ack ack2) ∷ behind)))
          (new_udt_socket_cc new_native)
        ≡ none
  second_ack-panics m m1 m2 seq ack1 ack2 before between behind slow quiet later ok =
      handle_all-native fl _ _ refl ok
      ∙ cons-eq-none (memoryless fl) m (Msg.init seq) _ _ λ s es e.
        handle_all-eq-none (memoryless fl) (λ s. s.snd_period ≡ pos 1000) (λ msg. IsQuiet msg.mtyp)
          (λ m msg s t es q p e. quiet-period fl m msg.pkt_id msg.mtyp msg.arg s t es q e ∙ p)
          before ((m1, Msg.on_ack ack1) ∷ (between ++ (m2, Msg.on_ack ack2) ∷ behind)) s
          (second_half m1 m2 ack1 ack2 between behind slow later) quiet
          (init-period fl m seq nil (new_udt_socket_cc new_native) s es e)

slower_pos : (p : ℕ) → p * 1125 < 2 ^ 63 → slower (pos p) ≡ some (pos (p * 1125 / 1000))
unfolding slower Int64.mul Int64.div Int64.int64 Int64.uint64
slower_pos p h = ground arith

-- A loss report never finds a count of NAKs, so it comes to this: where its first packet is in the
-- lower half of the sequence numbers (at most 2 ^ 30), or there is none, the control panics; otherwise
-- the period grows to 1.125 times its value, rounded down, and nothing else changes. The bandwidth is
-- not limited, the numbers are sequence numbers, and 1125 times the period, in nanoseconds, fits an
-- int64; beyond that the multiplication wraps around.
pub on_nak_outcome :
    (fl : Float64) (m : Moment) (first : PacketId) (rest : List PacketId) (p : ℕ) (s : Cc)
    → s.congestion ≡ new_native
    → All (λ x. x < 2 ^ 31) (first ∷ rest)
    → m.max_bandwidth ≡ 0
    → s.snd_period ≡ pos p
    → p * 1125 < 2 ^ 63
    → (handle (native fl) m (Msg.on_nak []) s ≡ none)
      × (handle (native fl) m (Msg.on_nak (first ∷ rest)) s ≡ (
          if ltb (2 ^ 30) first
          then some (
            tt,
            record s { snd_period = pos (p * 1125 / 1000) },
            store_snd_period (pos (p * 1125 / 1000)) ∷ [],
          )
          else none))
unfolding dispatch memoryless State.set_packet_send_period State.limited_period
on_nak_outcome fl m first rest p s fresh ok free period h = (
  dispatch-new fl m CongMsgType.cong_on_nak 0 (ids []) s fresh tt,
  dispatch-new fl m CongMsgType.cong_on_nak 0 (ids (first ∷ rest)) s fresh ok
      ∙ ground (arith, slower_pos p h),
)
