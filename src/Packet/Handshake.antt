-- ===== src/Packet/Handshake.antt =====
-- HandshakePacket (udt/packet/packet_handshake.go).
use go_udt.Common.{
  ℕ, ◌-◌, ◌%◌, ◌^◌, ◌≤◌, ◌<◌, ◌≡◌, refl, List, [], ◌++◌, length, take, drop, replicate, arith,
  lt→ltb, append-nil, length-append, length-take, length-replicate, take-append, take_all,
}
use native.Mathlib.Nat.{mod-eq_of_lt}
use go_udt.Common.Run.{ok, err, too_small}
use go_udt.Packet.Slice.{
  Slice, ◌>>=◌, ◌>>◌, return, need, be32, put_uint32, copy_to, uint32_at, bytes_at,
}
use go_udt.Packet.Wire.{
  Fills, return-Fills, store-Fills, copy_to-Fills, then-Fills, need-Fills, Fills-front,
}
use go_udt.Packet.Reads.{
  Reads, return-Reads, bind-Reads, need-Reads, uint32_at-Reads, bytes_at-Reads,
}
use go_udt.Packet.Header.{
  CtrlHeader, IsWireHeader, write_hdr_to, read_hdr_from, hdr_wire, write_hdr_to-Fills,
  read_hdr_from-Reads, pt_handshake,
}

pub record HandshakePacket : Type 0 where
  pub hdr : CtrlHeader
  pub udt_ver : ℕ
  pub sock_type : ℕ
  pub init_pkt_seq : ℕ
  pub max_pkt_size : ℕ
  pub max_flow_win_size : ℕ
  pub req_type : ℕ
  pub sock_id : ℕ
  pub syn_cookie : ℕ
  pub sock_addr : List ℕ

-- `sockAddr := make([]byte, 16); copy(sockAddr, p.SockAddr)`
abbrev pub pad16 : List ℕ → List ℕ
pad16 a = take 16 a ++ replicate (16 - length a) 0

unfoldable pub write_to : HandshakePacket → Slice ℕ
unfolding write_hdr_to
write_to p = do
  need 64
  write_hdr_to p.hdr pt_handshake 0
  put_uint32 16 p.udt_ver
  put_uint32 20 p.sock_type
  put_uint32 24 p.init_pkt_seq
  put_uint32 28 p.max_pkt_size
  put_uint32 32 p.max_flow_win_size
  put_uint32 36 p.req_type
  put_uint32 40 p.sock_id
  put_uint32 44 p.syn_cookie
  copy_to 48 (pad16 p.sock_addr)
  return 64

unfoldable pub read_from : HandshakePacket → Slice HandshakePacket
unfolding read_hdr_from
read_from p = do
  need 64
  (info, hdr) ← read_hdr_from p.hdr
  udt_ver ← uint32_at 16
  sock_type ← uint32_at 20
  init_pkt_seq ← uint32_at 24
  max_pkt_size ← uint32_at 28
  max_flow_win_size ← uint32_at 32
  req_type ← uint32_at 36
  sock_id ← uint32_at 40
  syn_cookie ← uint32_at 44
  sock_addr ← bytes_at 48 16
  return (record p {
    hdr = hdr;
    udt_ver = udt_ver;
    sock_type = sock_type % 2 ^ 16;
    init_pkt_seq = init_pkt_seq;
    max_pkt_size = max_pkt_size;
    max_flow_win_size = max_flow_win_size;
    req_type = req_type;
    sock_id = sock_id;
    syn_cookie = syn_cookie;
    sock_addr = sock_addr;
  })

pub record IsWire (p : HandshakePacket) : Type 0 where
  pub hdr_fits : IsWireHeader p.hdr
  pub udt_ver_fits : p.udt_ver < 2 ^ 32
  pub sock_type_fits : p.sock_type < 2 ^ 16
  pub init_pkt_seq_fits : p.init_pkt_seq < 2 ^ 32
  pub max_pkt_size_fits : p.max_pkt_size < 2 ^ 32
  pub max_flow_win_size_fits : p.max_flow_win_size < 2 ^ 32
  pub req_type_fits : p.req_type < 2 ^ 32
  pub sock_id_fits : p.sock_id < 2 ^ 32
  pub syn_cookie_fits : p.syn_cookie < 2 ^ 32
  pub sock_addr_fits : length p.sock_addr ≡ 16

-- The layout on the wire.
abbrev pub wire : HandshakePacket → List ℕ
wire p =
    hdr_wire p.hdr pt_handshake 0
    ++ (be32 p.udt_ver
        ++ (be32 p.sock_type
            ++ (be32 p.init_pkt_seq
                ++ (be32 p.max_pkt_size
                    ++ (be32 p.max_flow_win_size
                        ++ (be32 p.req_type
                            ++ (be32 p.sock_id ++ (be32 p.syn_cookie ++ pad16 p.sock_addr))))))))

pub length-pad16 : (a : List ℕ) → length (pad16 a) ≡ 16
length-pad16 a = omega (
  arith,
  length-append (take 16 a) (replicate (16 - length a) 0),
  length-take 16 a,
  length-replicate {A = ℕ} (16 - length a) 0,
)

pub pad16_full : (a : List ℕ) → length a ≡ 16 → pad16 a ≡ a
pad16_full a h = rw (take_all 16 a (omega arith), h, append-nil)

-- The bytes ahead of the address.
abbrev fixed_wire : HandshakePacket → List ℕ → List ℕ
fixed_wire p rest =
    hdr_wire p.hdr pt_handshake 0
    ++ (be32 p.udt_ver
        ++ (be32 p.sock_type
            ++ (be32 p.init_pkt_seq
                ++ (be32 p.max_pkt_size
                    ++ (be32 p.max_flow_win_size
                        ++ (be32 p.req_type ++ (be32 p.sock_id ++ (be32 p.syn_cookie ++ rest))))))))

pub length-wire : (p : HandshakePacket) → length (wire p) ≡ 64
length-wire p = omega (arith, length-pad16 p.sock_addr)

write_to-Fills :
    (p : HandshakePacket) → Fills 0 (write_to p) 64 (fixed_wire p (pad16 p.sock_addr ++ []))
unfolding write_to
write_to-Fills p =
    need-Fills 64 (omega (arith, length-append (pad16 p.sock_addr) [], length-pad16 p.sock_addr)) (
      then-Fills (write_hdr_to-Fills p.hdr pt_handshake 0) (
        then-Fills (store-Fills 16 (be32 p.udt_ver)) (
          then-Fills (store-Fills 20 (be32 p.sock_type)) (
            then-Fills (store-Fills 24 (be32 p.init_pkt_seq)) (
              then-Fills (store-Fills 28 (be32 p.max_pkt_size)) (
                then-Fills (store-Fills 32 (be32 p.max_flow_win_size)) (
                  then-Fills (store-Fills 36 (be32 p.req_type)) (
                    then-Fills (store-Fills 40 (be32 p.sock_id)) (
                      then-Fills (store-Fills 44 (be32 p.syn_cookie)) (
                        then-Fills (copy_to-Fills 48 (pad16 p.sock_addr))
                          (return-Fills _ 64)))))))))))

pub write_to-wire :
    (p : HandshakePacket) (buf : List ℕ)
    → 64 ≤ length buf
    → write_to p buf ≡ (ok 64, wire p ++ drop 64 buf)
write_to-wire p buf h =
    Fills-front (rw (append-nil (pad16 p.sock_addr)) at (write_to-Fills p)) 64 (length-wire p) buf h

pub write_to-too_small :
    (p : HandshakePacket) (buf : List ℕ) → length buf < 64 → write_to p buf ≡ (err too_small, buf)
unfolding write_to need
write_to-too_small p buf h = rw (lt→ltb (length buf) 64 h)

read_addr :
    (p : HandshakePacket) (rest : List ℕ)
    → length p.sock_addr ≡ 16
    → Reads (fixed_wire p (p.sock_addr ++ rest)) (bytes_at 48 16) p.sock_addr
read_addr p rest h = rw (take-append 16 p.sock_addr rest h) at (
    bytes_at-Reads {bytes = fixed_wire p (p.sock_addr ++ rest)} 48 16
      (omega (arith, length-append p.sock_addr rest)))

-- A packet is read back from any data that begins with its bytes.
pub read_from-wire :
    (q p : HandshakePacket) (rest : List ℕ) → IsWire p → Reads (wire p ++ rest) (read_from q) p
unfolding read_from
read_from-wire q p rest w = rw (pad16_full p.sock_addr w.sock_addr_fits) (
    need-Reads 64 (omega (arith, length-append p.sock_addr rest, w.sock_addr_fits)) (
      bind-Reads _ (read_hdr_from-Reads q.hdr p.hdr pt_handshake 0 _ w.hdr_fits (omega arith)) (
        bind-Reads _ (uint32_at-Reads 16 p.udt_ver _ refl w.udt_ver_fits) (
          bind-Reads _ (uint32_at-Reads 20 p.sock_type _ refl (omega arith)) (
            bind-Reads _ (uint32_at-Reads 24 p.init_pkt_seq _ refl w.init_pkt_seq_fits) (
              bind-Reads _ (uint32_at-Reads 28 p.max_pkt_size _ refl w.max_pkt_size_fits) (
                bind-Reads _
                  (uint32_at-Reads 32 p.max_flow_win_size _ refl w.max_flow_win_size_fits)
                  (bind-Reads _ (uint32_at-Reads 36 p.req_type _ refl w.req_type_fits) (
                    bind-Reads _ (uint32_at-Reads 40 p.sock_id _ refl w.sock_id_fits) (
                      bind-Reads _ (uint32_at-Reads 44 p.syn_cookie _ refl w.syn_cookie_fits)
                        (bind-Reads _ (read_addr p rest w.sock_addr_fits) done)))))))))))
  where
    done :
        Reads
          (fixed_wire p (p.sock_addr ++ rest))
          (return (record p { sock_type = p.sock_type % 2 ^ 16 }))
          p
    done = rw (mod-eq_of_lt w.sock_type_fits) (return-Reads p)

pub read_from-whole : (q p : HandshakePacket) → IsWire p → Reads (wire p) (read_from q) p
read_from-whole q p w = rw (append-nil (wire p)) at (read_from-wire q p [] w)
