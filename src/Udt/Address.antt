-- ===== src/Udt/Address.antt =====
-- A net.UDPAddr. An IP is its sixteen-byte form, in which IP.Equal compares two of them.
use go_udt.Common.{ℕ, ◌≡◌, refl, Bool, true, false, ◌&&◌, List, [], ◌∷◌, ◌==◌, arith}

pub record UdpAddr : Type 0 where
  pub ip : List ℕ
  pub port : ℕ

abbrev pub same_ip : List ℕ → List ℕ → Bool
same_ip [] [] = true
same_ip [] (y ∷ ys) = false
same_ip (x ∷ xs) [] = false
same_ip (x ∷ xs) (y ∷ ys) = (x == y) && same_ip xs ys

-- `from.IP.Equal(s.raddr.IP) && from.Port == s.raddr.Port`
unfoldable pub same_addr : UdpAddr → UdpAddr → Bool
same_addr a b = same_ip a.ip b.ip && (a.port == b.port)

same_ip_refl : (xs : List ℕ) → same_ip xs xs ≡ true
same_ip_refl [] = refl
same_ip_refl (x ∷ xs) = ground (arith, same_ip_refl xs)

pub same_addr_refl : (a : UdpAddr) → same_addr a a ≡ true
unfolding same_addr
same_addr_refl a = ground (arith, same_ip_refl a.ip)
