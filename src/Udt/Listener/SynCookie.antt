-- ===== src/Udt/Listener/SynCookie.antt =====
-- genSynCookie, checkSynCookie and goBumpSynEpoch. The hash (crypto/sha1) is a parameter: `sum b` is
-- what its Sum(b) returns.
pub mod Epochs
mod Tests
use go_udt.Common.{
  ℕ, zero, suc, ◌+◌, ◌-◌, ◌*◌, ◌/◌, ◌%◌, ◌^◌, Bool, true, false, not, ◌||◌, List, ◌++◌, ◌==◌,
  if◌then◌else◌,
}
use go_udt.Common.Run.{Run, ok, err, panic}
use go_udt.Udt.Address.{UdpAddr}
use go_udt.Packet.Slice.{be16, be32, from_be32}

pub record Listener : Type 0 where
  pub syn_epoch : ℕ
  pub syn_cookie : ℕ

-- `((l.synEpoch & 0x1f) << 11) | (hash & 0x07ff)`: the two parts share no bit.
abbrev pub cookie_of : ℕ → ℕ → ℕ
cookie_of epoch hash = epoch % 2 ^ 5 * 2 ^ 11 + hash % 2 ^ 11

unfoldable pub gen_syn_cookie : (List ℕ → List ℕ) → Listener → UdpAddr → Run ℕ
gen_syn_cookie sum l from =
    let val = be32 l.syn_cookie ++ (from.ip ++ be16 (from.port % 2 ^ 16)) in
    elim (from_be32 (sum val)) [
      | ok hash ↦ ok (cookie_of l.syn_epoch hash)
      | err e ↦ err e
      | panic ↦ panic
    ]

-- `(cookie & 0xf100) >> 11`: the mask has the bits 12 to 15, and bit 8, which is shifted out.
abbrev pub epoch_of : ℕ → ℕ
epoch_of cookie = cookie / 2 ^ 12 % 2 ^ 4 * 2

-- The tests of checkSynCookie, with the cookie that it has made anew.
abbrev pub is_accepted : ℕ → ℕ → ℕ → Bool
is_accepted syn_epoch new_cookie cookie =
    if not (new_cookie % 2 ^ 11 == cookie % 2 ^ 11)
    then false
    else (epoch_of cookie == syn_epoch % 2 ^ 5)
      || (epoch_of cookie == (syn_epoch + 2 ^ 32 - 1) % 2 ^ 32 % 2 ^ 5)

unfoldable pub check_syn_cookie : (List ℕ → List ℕ) → ℕ → Listener → UdpAddr → Run (Bool × ℕ)
unfolding gen_syn_cookie
check_syn_cookie sum cookie l from = elim (gen_syn_cookie sum l from) [
  | ok new_cookie ↦ ok (is_accepted l.syn_epoch new_cookie cookie, new_cookie)
  | err e ↦ err e
  | panic ↦ panic
]

-- `l.synEpoch++`, every 64 seconds
unfoldable pub bump_syn_epoch : Listener → Listener
bump_syn_epoch l = record l { syn_epoch = (l.syn_epoch + 1) % 2 ^ 32 }
