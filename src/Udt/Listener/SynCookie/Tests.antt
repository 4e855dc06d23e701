-- ===== src/Udt/Listener/SynCookie/Tests.antt =====
-- Runs of the SYN cookie, with a hash that appends a fixed digest, and its theorems there.
use go_udt.Common.{ℕ, ◌%◌, ◌≡◌, ◌⊎◌, ◌↔◌, refl, Bool, true, false, List, [], ◌∷◌, ◌++◌, arith}
use go_udt.Common.Run.{ok}
use go_udt.Udt.Address.{UdpAddr}
use go_udt.Udt.Listener.SynCookie.{Listener, cookie_of, gen_syn_cookie, check_syn_cookie}
use go_udt.Udt.Listener.SynCookie.Epochs.{
  bumps, gen_syn_cookie-any_address, check_syn_cookie-epochs,
}

abbrev fixed_sum : List ℕ → List ℕ
fixed_sum b = b ++ 1 ∷ 2 ∷ 3 ∷ 4 ∷ []

abbrev fixed_sum_appends : (b : List ℕ) → (digest : List ℕ) × (fixed_sum b ≡ b ++ digest)
fixed_sum_appends b = (1 ∷ 2 ∷ 3 ∷ 4 ∷ [], refl)

abbrev odd_epoch : Listener
odd_epoch = record { syn_epoch = 7; syn_cookie = 0xabcd_1234 }

abbrev next_epoch : Listener
next_epoch = record { syn_epoch = 8; syn_cookie = 0xabcd_1234 }

abbrev peer : UdpAddr
peer = record { ip = 10 ∷ 0 ∷ 0 ∷ 1 ∷ []; port = 9000 }

abbrev other : UdpAddr
other = record { ip = 10 ∷ 0 ∷ 0 ∷ 2 ∷ []; port = 9001 }

-- A cookie of an odd epoch is for every address, and is not for the next epoch.
cookies :
    (gen_syn_cookie fixed_sum odd_epoch peer ≡ ok 0x3a34)
    × (check_syn_cookie fixed_sum 0x3a34 odd_epoch other ≡ ok (true, 0x3a34))
    × (check_syn_cookie fixed_sum 0x3a34 next_epoch peer ≡ ok (false, 0x4234))
unfolding gen_syn_cookie check_syn_cookie
cookies = (refl, refl, refl)

gen_syn_cookie-any_address_example :
    gen_syn_cookie fixed_sum odd_epoch peer ≡ ok (cookie_of 7 0xabcd_1234)
gen_syn_cookie-any_address_example =
    gen_syn_cookie-any_address fixed_sum fixed_sum_appends odd_epoch peer (omega arith)

check_syn_cookie-epochs_example :
    (accepted : Bool) × (new_cookie : ℕ) × (check_syn_cookie fixed_sum 0x3a34
        (bumps 1 odd_epoch)
        other
      ≡ ok (accepted, new_cookie))
    × ((accepted ≡ true) ↔ ((◌≡◌ {A = ℕ} 1 0) ⊎ ((◌≡◌ {A = ℕ} 1 1) × (7 % 2 ≡ 0))))
check_syn_cookie-epochs_example =
    check_syn_cookie-epochs fixed_sum fixed_sum_appends odd_epoch peer other 0x3a34 1 (omega arith)
      (omega arith) (omega arith) cookies.0
