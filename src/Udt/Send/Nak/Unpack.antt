-- ===== src/Udt/Send/Nak/Unpack.antt =====
-- What a NAK lists, and that the loop over its entries takes exactly that.
use go_udt.Common.{
  ℕ, ◌+◌, ◌-◌, ◌%◌, ◌^◌, ◌≤◌, ◌<◌, ◌≡◌, ◌⊎◌, inl, inr, refl, true, false, List, [], ◌∷◌, ◌++◌, none,
  some, All, arith, Bool-cases,
}
use go_udt.Packet.PktSeq.{PacketId}
use go_udt.Packet.PktSeq.Walk.{run_from, walk-eq-run_from}
use go_udt.Udt.Send.State.{UdtSocketSend, shutdown_event, corrupted, ◌>>=◌}
use go_udt.Udt.Send.Nak.{is_unsent, assert_valid_sent_pkt_id, is_range_start, span, unpack}

-- The packets that the entries of a NAK list, of a sender that has sent up to `sent`: a number by
-- itself, or the numbers from a start of range up to, and without, the entry behind it.
pub data Lists (sent : PacketId) : List ℕ → List PacketId → Type 0 where
  nothing : Lists sent [] []
  single :
      (e : ℕ) {es ids : List ℕ}
      → e < 2 ^ 31
      → is_unsent sent e ≡ false
      → Lists sent es ids
      → Lists sent (e ∷ es) (e ∷ ids)
  range :
      (e last : ℕ) {es ids : List ℕ}
      → 2 ^ 31 ≤ e
      → last < 2 ^ 31
      → is_unsent sent (e % 2 ^ 31) ≡ false
      → is_unsent sent last ≡ false
      → Lists sent es ids
      → Lists sent
          (e ∷ last ∷ es)
          (run_from (e % 2 ^ 31) ((last + 2 ^ 31 - e % 2 ^ 31) % 2 ^ 31) ++ ids)

-- What the entries are where the first one is no start of a range, and where it is one.
Lists-plain :
    (sent : PacketId) (e : ℕ) (es ids : List ℕ)
    → is_range_start e ≡ false
    → Lists sent (e ∷ es) ids
    → (is_unsent sent e ≡ false) × (rest : List PacketId) × Lists sent es rest
Lists-plain sent e es ids plain (Lists.single e' fits known l) = (known, _, l)
Lists-plain sent e es ids plain (Lists.range e' last start fits known known' l) =
    absurd (ground arith)

Lists-start :
    (sent : PacketId) (e last : ℕ) (es ids : List ℕ)
    → is_range_start e ≡ true
    → Lists sent (e ∷ last ∷ es) ids
    → (is_unsent sent (e % 2 ^ 31) ≡ false)
      × (is_range_start last ≡ false)
      × (is_unsent sent last ≡ false)
      × (rest : List PacketId) × Lists sent es rest
Lists-start sent e last es ids start (Lists.single e' fits known l) = absurd (ground arith)
Lists-start sent e last es ids start (Lists.range e' last' start' fits known known' l) =
    (known, ground arith, known', _, l)

Lists-alone :
    (sent : PacketId) (e : ℕ) (ids : List ℕ) → is_range_start e ≡ true → Lists sent (e ∷ []) ids → ⊥
Lists-alone sent e ids start (Lists.single e' fits known l) = ground arith

assert_passes :
    (s : UdtSocketSend) (e : PacketId)
    → is_unsent s.send_pkt_seq e ≡ false
    → assert_valid_sent_pkt_id e s ≡ some (true, s, [])
unfolding assert_valid_sent_pkt_id
assert_passes s e h = rw h

assert_reports :
    (s : UdtSocketSend) (e : PacketId)
    → is_unsent s.send_pkt_seq e ≡ true
    → assert_valid_sent_pkt_id e s ≡ some (false, s, shutdown_event corrupted false ∷ [])
unfolding assert_valid_sent_pkt_id
assert_reports s e h = rw h

lt_of_plain : (e : ℕ) → is_range_start e ≡ false → e < 2 ^ 31
lt_of_plain e h = ground arith

ge_of_start : (e : ℕ) → is_range_start e ≡ true → 2 ^ 31 ≤ e
ge_of_start e h = ground arith

span-run_from :
    (a b : PacketId)
    → a < 2 ^ 31
    → b < 2 ^ 31
    → span a b ≡ some (run_from a ((b + 2 ^ 31 - a) % 2 ^ 31))
unfolding span
span-run_from a b ha hb = walk-eq-run_from (2 ^ 31) a b ha hb (omega arith)

abbrev pub Unpacked : UdtSocketSend → List ℕ → Type 0
Unpacked s es =
    ((ids : List PacketId) × Lists s.send_pkt_seq es ids × (unpack es s ≡ some (some ids, s, [])))
    ⊎ (((ids : List PacketId) → Lists s.send_pkt_seq es ids → ⊥)
        × (unpack es s ≡ some (none, s, shutdown_event corrupted false ∷ [])))

unpack_single :
    (s : UdtSocketSend) (e last : ℕ) (es : List ℕ)
    → is_range_start e ≡ false
    → Unpacked s (last ∷ es)
    → Unpacked s (e ∷ last ∷ es)
unfolding unpack
unpack_single s e last es plain ih = elim (Bool-cases (is_unsent s.send_pkt_seq e)) [
  | inl u ↦ inr (
    λ ids l. (let (known, _, _) = Lists-plain s.send_pkt_seq e (last ∷ es) ids plain l in cc),
    rw (unpack, plain, ◌>>=◌, assert_reports s e u) refl,
  )
  | inr u ↦ elim ih [
    | inl (ids, l, eq) ↦ inl (
      e ∷ ids,
      Lists.single e (lt_of_plain e plain) u l,
      rw (unpack, plain, ◌>>=◌, assert_passes s e u, eq) refl,
    )
    | inr (bad, eq) ↦ inr (
      λ ids l.
          (let (_, rest, l') = Lists-plain s.send_pkt_seq e (last ∷ es) ids plain l in bad rest l'),
      rw (unpack, plain, ◌>>=◌, assert_passes s e u, eq) refl,
    )
  ]
]

unpack_range :
    (s : UdtSocketSend) (e last : ℕ) (es : List ℕ)
    → e < 2 ^ 32
    → is_range_start e ≡ true
    → Unpacked s es
    → Unpacked s (e ∷ last ∷ es)
unfolding unpack
unpack_range s e last es fits start ih = elim (Bool-cases (is_unsent s.send_pkt_seq (e % 2 ^ 31))) [
  | inl u ↦ inr (
    λ ids l. (let (known, _, _, _, _) = inverted ids l in cc),
    rw (unpack, start, ◌>>=◌, assert_reports s (e % 2 ^ 31) u) refl,
  )
  | inr u ↦
      let ok = assert_passes s (e % 2 ^ 31) u in
      elim (Bool-cases (is_range_start last)) [
        | inl again ↦ inr (
          λ ids l. (let (_, plain, _, _, _) = inverted ids l in cc),
          rw (unpack, start, ◌>>=◌, ok, again) refl,
        )
        | inr plain ↦ elim (Bool-cases (is_unsent s.send_pkt_seq last)) [
          | inl v ↦ inr (
            λ ids l. (let (_, _, known, _, _) = inverted ids l in cc),
            rw (unpack, start, ◌>>=◌, ok, plain, assert_reports s last v) refl,
          )
          | inr v ↦
              let walked = span-run_from (e % 2 ^ 31) last (omega arith) (lt_of_plain last plain) in
              elim ih [
                | inl (ids, l, eq) ↦ inl (
                  _,
                  Lists.range e last (ge_of_start e start) (lt_of_plain last plain) u v l,
                  rw (unpack, start, ◌>>=◌, ok, plain, assert_passes s last v, walked, eq) refl,
                )
                | inr (bad, eq) ↦ inr (
                  λ ids l. (let (_, _, _, rest, l') = inverted ids l in bad rest l'),
                  rw (unpack, start, ◌>>=◌, ok, plain, assert_passes s last v, walked, eq) refl,
                )
              ]
        ]
      ]
]
  where
    inverted :
        (ids : List PacketId)
        → Lists s.send_pkt_seq (e ∷ last ∷ es) ids
        → (is_unsent s.send_pkt_seq (e % 2 ^ 31) ≡ false)
          × (is_range_start last ≡ false)
          × (is_unsent s.send_pkt_seq last ≡ false)
          × (rest : List PacketId) × Lists s.send_pkt_seq es rest
    inverted ids l = Lists-start s.send_pkt_seq e last es ids start l

-- Of a NAK of whatever entries, the loop gives the packets they list, or reports the connection as
-- corrupted once; it always ends, and changes nothing.
pub unpack_lem : (s : UdtSocketSend) (es : List ℕ) → All (λ e. e < 2 ^ 32) es → Unpacked s es
unfolding unpack
unpack_lem s [] fits = inl ([], Lists.nothing, refl)
unpack_lem s (e ∷ []) (fit, fits) = elim (Bool-cases (is_range_start e)) [
  | inl start ↦ inr (λ ids l. Lists-alone s.send_pkt_seq e ids start l, rw (unpack, start) refl)
  | inr plain ↦ elim (Bool-cases (is_unsent s.send_pkt_seq e)) [
    | inl u ↦ inr (
      λ ids l. (let (known, _, _) = Lists-plain s.send_pkt_seq e [] ids plain l in cc),
      rw (unpack, plain, ◌>>=◌, assert_reports s e u) refl,
    )
    | inr u ↦ inl (
      e ∷ [],
      Lists.single e (lt_of_plain e plain) u Lists.nothing,
      rw (unpack, plain, ◌>>=◌, assert_passes s e u) refl,
    )
  ]
]
unpack_lem s (e ∷ last ∷ es) (fit, fits) = elim (Bool-cases (is_range_start e)) [
  | inl start ↦ unpack_range s e last es fit start (unpack_lem s es fits.1)
  | inr plain ↦ unpack_single s e last es plain (unpack_lem s (last ∷ es) fits)
]
