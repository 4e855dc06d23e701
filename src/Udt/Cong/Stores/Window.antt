-- ===== src/Udt/Cong/Stores/Window.antt =====
-- The window and the state of the sender under the stores of NativeCongestionControl
-- (udt/congestion_native.go), and the limit of SetPacketSendPeriod (udt/udtsocket_send.go).
use go_udt.Common.{
  ℕ, zero, suc, ◌/◌, ◌<◌, false, List, [], ◌∷◌, ◌++◌, All, none, some, inl, inr, ◌⊎◌, ◌≡◌, refl,
  sym, ap, ◌∙◌, subst, if◌then◌else◌, arith,
}
use go_udt.Common.Int.{ℤ, pos, negsuc}
use go_udt.Common.Int64
use go_udt.Packet.PktSeq.{PacketId}
use go_udt.Udt.Monad.{bind-eq-some}
use go_udt.Udt.Send.State.{UdtSocketSend, reeval_send_state}
use go_udt.Udt.Cong.Float64.{Float64}
use go_udt.Udt.Cong.State
use go_udt.Udt.Cong.State.{
  Moment, UdtSocketCc, Effect, CongestionControl, after, ◌>>=◌, ◌>>◌, store_congest_window,
  store_snd_period, store_rto_period, store_ack_period, store_ack_interval, limited_period, second,
}
use go_udt.Udt.Cong.Msg.{CongMsgType, CongMsg, Arg}
use go_udt.Udt.Cong.Plumbing.{dispatch, handle, handle_all, new_udt_socket_cc}
use go_udt.Udt.Cong.Native.{NativeCongestionControl, new_native, native}
use go_udt.Udt.Cong.Native.Reference.{SeqArg, memoryless, handle_all-native}
use go_udt.Udt.Cong.Stores.{store_send, store_all}

abbrev Cc : Type 0
Cc = UdtSocketCc NativeCongestionControl

abbrev IsFixed : Effect → Type 0
IsFixed (store_congest_window w) = w ≡ 16
IsFixed (store_rto_period rto) = ⊥
IsFixed (store_ack_interval ack) = ⊥
IsFixed _ = Unit {0}

All-append : (xs ys : List Effect) → All IsFixed xs → All IsFixed ys → All IsFixed (xs ++ ys)
All-append [] ys h k = k
All-append (x ∷ xs) ys h k = (h.0, All-append xs ys h.1 k)

dispatch-IsFixed :
    (fl : Float64) (m : Moment) (mtyp : CongMsgType) (id : PacketId) (arg : Arg) (s t : Cc)
    (es : List Effect)
    → dispatch (memoryless fl) m mtyp id arg s ≡ some (tt, t, es)
    → All IsFixed es
unfolding dispatch memoryless State.set_packet_send_period State.set_congestion_window_size
    State.set_ack_period
dispatch-IsFixed fl m CongMsgType.cong_init id arg s t es e = ground arith
dispatch-IsFixed fl m CongMsgType.cong_on_ack id arg s t es e = ground arith
dispatch-IsFixed fl m CongMsgType.cong_on_nak id arg s t es e = ground arith
dispatch-IsFixed fl m _ id arg s t es e = ground arith

handle_all-IsFixed :
    (fl : Float64) (run : List (Moment × CongMsg)) (s t : Cc) (es : List Effect)
    → handle_all (memoryless fl) run s ≡ some (tt, t, es)
    → All IsFixed es
unfolding handle_all
handle_all-IsFixed fl [] s t es e = ground arith
handle_all-IsFixed fl ((m, msg) ∷ run) s t es e =
    let (_, u, fs, gs, first, rest, both) =
      bind-eq-some (handle (memoryless fl) m msg) (λ _. handle_all (memoryless fl) run) s e in
    subst (All IsFixed) (sym both) (
      All-append fs gs (dispatch-IsFixed fl m msg.mtyp msg.pkt_id msg.arg s u fs first)
        (handle_all-IsFixed fl run u t gs rest))

store_send-IsFixed :
    (e : Effect) (s : UdtSocketSend)
    → IsFixed e
    → s.congest_window ≡ 16
    → store_send e s ≡ record s { snd_period = (store_send e s).snd_period }
unfolding store_send
store_send-IsFixed (store_congest_window w) s h c = ground arith
store_send-IsFixed _ s h c = ground arith

store_all-IsFixed :
    (es : List Effect) (s : UdtSocketSend)
    → All IsFixed es
    → s.congest_window ≡ 16
    → store_all es s ≡ record s { snd_period = (store_all es s).snd_period }
unfolding store_all
store_all-IsFixed [] s h c = refl
store_all-IsFixed (e ∷ es) s h c =
    let same = store_send-IsFixed e s h.0 c in
    let later = store_all-IsFixed es (store_send e s) h.1 (ap (λ r. r.congest_window) same ∙ c) in
    later
    ∙ ap {A = UdtSocketSend}
        (λ r. record r { snd_period = (store_all es (store_send e s)).snd_period }) same

-- Whatever messages a connection handles before it ends or panics, all that the control changes in
-- the sender is the period between packets: the congestion window keeps the 16 packets that the
-- sender starts with, so the window never limits a sender more nor less than that, and the override
-- of the EXP timer is never set. The lists of NAKs are of sequence numbers.
pub handle_all-sender :
    (fl : Float64) (run : List (Moment × CongMsg)) (t : Cc) (es : List Effect) (s : UdtSocketSend)
    → All (λ r. SeqArg r.1.arg) run
    → handle_all (native fl) run (new_udt_socket_cc new_native) ≡ some (tt, t, es)
    → s.congest_window ≡ 16
    → (store_all es s ≡ record s { snd_period = (store_all es s).snd_period })
      × ((store_all es s).congest_window ≡ 16)
      × (reeval_send_state (store_all es s) ≡ reeval_send_state s)
unfolding reeval_send_state
handle_all-sender fl run t es s ok e c =
    let fixed =
      handle_all-IsFixed fl run (new_udt_socket_cc new_native) t es
        (sym (handle_all-native fl run (new_udt_socket_cc new_native) refl ok) ∙ e) in
    let same = store_all-IsFixed es s fixed c in
    (same, ap (λ r. r.congest_window) same ∙ c, ap reeval_send_state same)

abbrev larger : ℤ → ℤ → ℤ
unfolding Int64.lt
larger a b = if Int64.lt a b then b else a

larger_lem :
    (a b : ℤ)
    → (Int64.lt (larger a b) a ≡ false)
      × (Int64.lt (larger a b) b ≡ false)
      × ((larger a b ≡ a) ⊎ (larger a b ≡ b))
unfolding Int64.lt
larger_lem (pos a) (pos b) = (ground arith, ground arith, ground arith)
larger_lem (pos a) (negsuc b) = (ground arith, refl, inl refl)
larger_lem (negsuc a) (pos b) = (refl, ground arith, inr refl)
larger_lem (negsuc a) (negsuc b) = (ground arith, ground arith, ground arith)

-- The period that the sender takes. Without a limit it is the control's; with one that allows n whole
-- packets a second, it is the larger one of the control's and the n-th part of a second; and where
-- the limit allows less than one packet a second, the division panics.
pub limited_period_outcome :
    (fl : Float64) (m : Moment) (snd : ℤ) (n : ℕ)
    → fl.to_int (fl.div (fl.of_int (pos m.max_bandwidth)) (fl.of_int (pos m.mtu))) ≡ pos n
    → (m.max_bandwidth ≡ 0 → limited_period fl m snd ≡ some snd)
      × (0 < m.max_bandwidth → n ≡ 0 → limited_period fl m snd ≡ none)
      × (0 < m.max_bandwidth
          → 0 < n
          → (p : ℤ) × (limited_period fl m snd ≡ some p)
            × (Int64.lt p snd ≡ false)
            × (Int64.lt p (pos (1_000_000_000 / n)) ≡ false)
            × ((p ≡ snd) ⊎ (p ≡ pos (1_000_000_000 / n))))
unfolding limited_period Int64.div Int64.lt
limited_period_outcome fl m snd zero e = (
  λ free. ground (arith, e),
  λ limited none_left. ground (arith, e),
  λ limited some_left. absurd (omega arith),
)
limited_period_outcome fl m snd (suc n) e = (
  λ free. ground (arith, e),
  λ limited none_left. absurd (omega arith),
  λ limited some_left. (
    larger snd (pos (1_000_000_000 / suc n)),
    ground (arith, e),
    (larger_lem snd (pos (1_000_000_000 / suc n))).0,
    (larger_lem snd (pos (1_000_000_000 / suc n))).1,
    (larger_lem snd (pos (1_000_000_000 / suc n))).2,
  ),
)
