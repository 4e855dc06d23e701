-- ===== src/Udt/Recv/Speeds.antt =====
-- getRcvSpeeds: the median filters over the two windows. A shift of a duration is written as a
-- multiplication or a division.
use go_udt.Common.{
  ℕ, ◌+◌, ◌*◌, ◌/◌, ◌&&◌, List, [], ◌∷◌, Option, none, some, length, get_elem?, ltb, if◌then◌else◌,
}
use go_udt.Udt.Recv.State.{UdtSocketRecv}

-- time.Second, in nanoseconds
abbrev pub second : ℕ
second = 1_000_000_000

-- The loop of a median filter: how many entries are inside the bounds, and their sum.
abbrev pub inside : ℕ → List ℕ → ℕ × ℕ → ℕ × ℕ
inside median [] acc = acc
inside median (d ∷ ds) acc =
    inside median ds
      (if ltb d (median * 8) && ltb (median / 8) d then (acc.0 + 1, acc.1 + d) else acc)

-- The first half; `none` is the panic on an index out of range.
unfoldable pub recv_speed : (List ℕ → ℕ → List ℕ) → Option (List ℕ) → Option ℕ
recv_speed buckets none = some 0
recv_speed buckets (some history) =
    let n = length history in
    let ours = buckets history (n / 2) in
    elim (get_elem? ours (n / 2)) [
      | none ↦ none
      | some median ↦
          let (count, sum) = inside median ours (0, 0) in
          some (if ltb (n / 2) count then second * count / sum else 0)
    ]

-- The second half, which runs where there is no window: its copy of the nil slice is empty.
unfoldable pub bandwidth : (List ℕ → ℕ → List ℕ) → Option (List ℕ) → Option ℕ
bandwidth buckets (some history) = some 0
bandwidth buckets none =
    let ours = buckets [] 0 in
    elim (get_elem? ours 0) [
      | none ↦ none
      | some median ↦
          let (count, sum) = inside median ours (1, median) in
          if ltb 0 sum then some (second * count / sum) else none
    ]

unfoldable pub get_rcv_speeds : (List ℕ → ℕ → List ℕ) → UdtSocketRecv → Option (ℕ × ℕ)
unfolding recv_speed bandwidth
get_rcv_speeds buckets s = elim (recv_speed buckets s.recv_pkt_history) [
  | none ↦ none
  | some speed ↦ elim (bandwidth buckets s.recv_pkt_pair_history) [
    | none ↦ none
    | some band ↦ some (speed, band)
  ]
]
