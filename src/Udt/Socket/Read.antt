-- ===== src/Udt/Socket/Read.antt =====
-- fetchReadPacket, connectionError, Read and Write.
--
-- A message is the bytes that the receiver puts on the channel, and `none` the nil of a shutdown.
-- What a Read finds on the channel is there when it is called. A deadline passes where the channel
-- is empty; `blocked` stands for a call that waits for ever.
pub mod Partial
use go_udt.Common.{
  ℕ, zero, suc, ◌+◌, ◌-◌, Bool, true, false, not, ◌&&◌, List, [], ◌∷◌, ◌++◌, Option, none, some,
  length, take, drop, ltb, leb, ◌==◌, if◌then◌else◌,
}
use go_udt.Udt.Socket.State.{
  SockState, init, rendezvous, connecting, connected, closed, refused, corrupted, timeout,
}

pub data ReadError : Type 0 where
  timed_out truncated : ReadError
  connection : SockState → ReadError

pub record ReadState : Type 0 where
  pub message_in : List (Option (List ℕ))
  pub curr_partial_read : Option (List ℕ)
  pub deadline : Bool
  pub deadline_passed : Bool

-- connectionError, as the state that it names
unfoldable pub connection_error : SockState → Option ReadError
connection_error refused = some (connection refused)
connection_error corrupted = some (connection corrupted)
connection_error closed = some (connection closed)
connection_error timeout = some (connection timeout)
connection_error _ = none

pub data Fetched : Type 0 where
  message : Option (List ℕ) → ReadState → Fetched
  expired : ReadState → Fetched
  waits : Fetched

unfoldable pub fetch_read_packet : Bool → ReadState → Fetched
fetch_read_packet true r = if r.deadline_passed then expired r else elim r.message_in [
  | m ∷ ms ↦ message m (record r { message_in = ms })
  | [] ↦ if r.deadline then expired (record r { deadline_passed = true }) else waits
]
fetch_read_packet false r = elim r.message_in [
  | m ∷ ms ↦ message m (record r { message_in = ms })
  | [] ↦ message none r
]

-- The bytes that are copied into the caller's buffer, and the error.
pub data ReadResult : Type 0 where
  done : List ℕ → Option ReadError → ReadState → ReadResult
  blocked : ReadResult
  out_of_fuel : ReadResult

abbrev pub is_none : {A : Type 0} → Option A → Bool
is_none none = true
is_none (some a) = false

-- Read of a datagram socket into a buffer of `l` bytes
unfoldable pub read_datagram : Option ReadError → ℕ → ReadState → ReadResult
unfolding fetch_read_packet
read_datagram conn_err l r = elim (fetch_read_packet (is_none conn_err) r) [
  | waits ↦ blocked
  | expired r' ↦ done [] (some timed_out) r'
  | message none r' ↦ done [] conn_err r'
  | message (some m) r' ↦ done (take l m) (if ltb l (length m) then some truncated else none) r'
]

-- `thisN := copy(p[idx:], s.currPartialRead)` and what follows it, for the `n` bytes in `out`
abbrev pub copy_part : ℕ → List ℕ → List ℕ → ReadState → List ℕ × ReadState
copy_part l out m r =
    let out' = out ++ take (l - length out) m in
    (
      out',
      record r {
        curr_partial_read =
            if leb (length m) (length out') then none else some (drop (length out') m);
      },
    )

-- Read of a stream socket: `for idx < l { … }`
unfoldable pub read_loop : ℕ → Option ReadError → ℕ → List ℕ → ReadState → ReadResult
unfolding fetch_read_packet
read_loop zero conn_err l out r = out_of_fuel
read_loop (suc fuel) conn_err l out r = elim (ltb (length out) l) [
  | false ↦ done out none r
  | true ↦ elim r.curr_partial_read [
    | some m ↦ let (out', r') = copy_part l out m r in read_loop fuel conn_err l out' r'
    | none ↦ elim (fetch_read_packet (length out == 0 && is_none conn_err) r) [
      | waits ↦ blocked
      | expired r' ↦ done out (some timed_out) r'
      | message (some m) r' ↦
          let (out', r'') = copy_part l out m r' in read_loop fuel conn_err l out' r''
      | message none r' ↦ elim (length out == 0) [
        | false ↦ done out none r'
        | true ↦ elim conn_err [
          | some e ↦ done out (some e) r'
          | none ↦ read_loop fuel none l out r'
        ]
      ]
    ]
  ]
]

-- A round takes a message, but for the first and the last one.
unfoldable pub read_stream : Option ReadError → ℕ → ReadState → ReadResult
unfolding read_loop
read_stream conn_err l r = read_loop (suc (suc (suc (length r.message_in)))) conn_err l [] r

unfoldable pub read : SockState → Bool → ℕ → ReadState → ReadResult
unfolding connection_error read_datagram read_stream
read sock_state is_datagram l r =
    if is_datagram
    then read_datagram (connection_error sock_state) l r
    else read_stream (connection_error sock_state) l r
