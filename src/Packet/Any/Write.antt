-- ===== src/Packet/Any/Write.antt =====
-- What WriteTo leaves in a buffer, for every packet type.
use go_udt.Common.{ℕ, ◌≤◌, ◌<◌, ◌≡◌, refl, ap, List, ◌++◌, length, drop}
use go_udt.Common.Run.{ok, err, too_small}
use go_udt.Packet.Handshake.{length-pad16}
use go_udt.Packet.Handshake
use go_udt.Packet.KeepAlive
use go_udt.Packet.Ack
use go_udt.Packet.LightAck
use go_udt.Packet.Nak
use go_udt.Packet.Congestion
use go_udt.Packet.Shutdown
use go_udt.Packet.Ack2
use go_udt.Packet.MsgDropReq
use go_udt.Packet.SpecialErr
use go_udt.Packet.UserDef
use go_udt.Packet.Data
use go_udt.Packet.Any.{
  Packet, handshake, keep_alive, ack, light_ack, nak, congestion, shutdown, ack2, msg_drop_req,
  special_err, user_def, data_pkt, wire, size, write_to,
}

pub length-wire : (p : Packet) → length (wire p) ≡ size p
unfolding wire size
length-wire (handshake p) = Handshake.length-wire p
length-wire (keep_alive p) = refl
length-wire (ack p) = Ack.length-wire p
length-wire (light_ack p) = refl
length-wire (nak p) = Nak.length-wire p
length-wire (congestion p) = refl
length-wire (shutdown p) = refl
length-wire (ack2 p) = refl
length-wire (msg_drop_req p) = refl
length-wire (special_err p) = refl
length-wire (user_def p) = UserDef.length-wire p
length-wire (data_pkt p) = Data.length-wire p

-- Into a buffer with room for the packet, WriteTo writes exactly the bytes of its layout, reports
-- their number, and keeps what stands behind them.
pub write_to-wire :
    (p : Packet) (buf : List ℕ)
    → size p ≤ length buf
    → write_to p buf ≡ (ok (size p), wire p ++ drop (size p) buf)
unfolding write_to wire size
write_to-wire (handshake p) buf h = Handshake.write_to-wire p buf h
write_to-wire (keep_alive p) buf h = KeepAlive.write_to-wire p buf h
write_to-wire (ack p) buf h = Ack.write_to-wire p buf h
write_to-wire (light_ack p) buf h = LightAck.write_to-wire p buf h
write_to-wire (nak p) buf h = Nak.write_to-wire p buf h
write_to-wire (congestion p) buf h = Congestion.write_to-wire p buf h
write_to-wire (shutdown p) buf h = Shutdown.write_to-wire p buf h
write_to-wire (ack2 p) buf h = Ack2.write_to-wire p buf h
write_to-wire (msg_drop_req p) buf h = MsgDropReq.write_to-wire p buf h
write_to-wire (special_err p) buf h = SpecialErr.write_to-wire p buf h
write_to-wire (user_def p) buf h = UserDef.write_to-wire p buf h
write_to-wire (data_pkt p) buf h = Data.write_to-wire p buf h

-- Given a buffer that is shorter than the packet, WriteTo reports the error; it does not panic.
pub write_to-too_small :
    (p : Packet) (buf : List ℕ) → length buf < size p → (write_to p buf).0 ≡ err too_small
unfolding write_to size
write_to-too_small (handshake p) buf h = ap (λ r. r.0) (Handshake.write_to-too_small p buf h)
write_to-too_small (keep_alive p) buf h = ap (λ r. r.0) (KeepAlive.write_to-too_small p buf h)
write_to-too_small (ack p) buf h = Ack.write_to-too_small p buf h
write_to-too_small (light_ack p) buf h = ap (λ r. r.0) (LightAck.write_to-too_small p buf h)
write_to-too_small (nak p) buf h = Nak.write_to-too_small p buf h
write_to-too_small (congestion p) buf h = ap (λ r. r.0) (Congestion.write_to-too_small p buf h)
write_to-too_small (shutdown p) buf h = ap (λ r. r.0) (Shutdown.write_to-too_small p buf h)
write_to-too_small (ack2 p) buf h = ap (λ r. r.0) (Ack2.write_to-too_small p buf h)
write_to-too_small (msg_drop_req p) buf h = ap (λ r. r.0) (MsgDropReq.write_to-too_small p buf h)
write_to-too_small (special_err p) buf h = ap (λ r. r.0) (SpecialErr.write_to-too_small p buf h)
write_to-too_small (user_def p) buf h = ap (λ r. r.0) (UserDef.write_to-too_small p buf h)
write_to-too_small (data_pkt p) buf h = ap (λ r. r.0) (Data.write_to-too_small p buf h)
