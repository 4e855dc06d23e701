-- ===== src/Udt/Listener/SynCookie/Epochs.antt =====
-- How long a SYN cookie is accepted, and from whom.
use go_udt.Common.{
  ℕ, zero, suc, ◌+◌, ◌-◌, ◌*◌, ◌/◌, ◌%◌, ◌^◌, ◌<◌, ◌≡◌, ◌⊎◌, inl, inr, ◌↔◌, refl, sym, ◌∙◌, Bool,
  true, false, ◌||◌, List, ◌++◌, ◌==◌, Bool-cases, arith,
}
use go_udt.Common.Run.{ok}
use go_udt.Packet.Slice.{be16, be32, be32_value}
use go_udt.Udt.Address.{UdpAddr}
use go_udt.Udt.Listener.SynCookie.{
  Listener, cookie_of, gen_syn_cookie, epoch_of, is_accepted, check_syn_cookie, bump_syn_epoch,
}

-- `n` rounds of goBumpSynEpoch
abbrev pub bumps : ℕ → Listener → Listener
unfolding bump_syn_epoch
bumps zero l = l
bumps (suc n) l = bump_syn_epoch (bumps n l)

bumps_lem :
    (n : ℕ) (l : Listener)
    → l.syn_epoch < 2 ^ 32
    → ((bumps n l).syn_epoch ≡ (l.syn_epoch + n) % 2 ^ 32) × ((bumps n l).syn_cookie ≡ l.syn_cookie)
unfolding bumps bump_syn_epoch
bumps_lem zero l h = (omega arith, refl)
bumps_lem (suc n) l h = let (epoch, cookie) = bumps_lem n l h in (omega (arith, epoch), cookie)

decoded : (k s : ℕ) → k < 32 → s < 2 ^ 11 → epoch_of (k * 2 ^ 11 + s) ≡ k / 2 * 2
decoded k s hk hs = omega arith

later : (e d : ℕ) → (e + d) % 2 ^ 32 % 2 ^ 5 ≡ (e % 2 ^ 5 + d) % 2 ^ 5
later e d = omega arith

before : (e d : ℕ) → ((e + d) % 2 ^ 32 + 2 ^ 32 - 1) % 2 ^ 32 % 2 ^ 5 ≡ (e % 2 ^ 5 + d + 31) % 2 ^ 5
before e d = omega arith

-- The two tests of the epoch, for a cookie of epoch `k` that is checked `d` epochs later.
abbrev in_time : ℕ → ℕ → Bool
in_time k d = (k / 2 * 2 == (k + d) % 2 ^ 5) || (k / 2 * 2 == (k + d + 31) % 2 ^ 5)

in_time_only : (k d : ℕ) → k < 32 → d < 31 → in_time k d ≡ true → (d ≡ 0) ⊎ ((d ≡ 1) × (k % 2 ≡ 0))
in_time_only k zero hk hd h = inl refl
in_time_only k (suc d) hk hd h = elim (Bool-cases (k / 2 * 2 == (k + suc d) % 2 ^ 5)) [
  | inl t ↦ absurd (let q : k / 2 * 2 ≡ (k + suc d) % 2 ^ 5 = ground arith in omega arith)
  | inr t ↦ elim (Bool-cases (k / 2 * 2 == (k + suc d + 31) % 2 ^ 5)) [
    | inl u ↦
        let q : k / 2 * 2 ≡ (k + suc d + 31) % 2 ^ 5 = ground arith in
        inr (omega arith, omega arith)
    | inr u ↦ absurd (cc)
  ]
]

≡→== : (a b : ℕ) → a ≡ b → (a == b) ≡ true
≡→== a b e = ground arith

either : (a b : Bool) → (a ≡ true) ⊎ (b ≡ true) → (a || b) ≡ true
either true b h = refl
either false b (inl h) = cc
either false b (inr h) = h

in_time_if : (k d : ℕ) → k < 32 → d < 31 → (d ≡ 0) ⊎ ((d ≡ 1) × (k % 2 ≡ 0)) → in_time k d ≡ true
in_time_if k d hk hd (inl z) = elim (Bool-cases (k % 2 == 0)) [
  | inl t ↦
      let q : k % 2 ≡ 0 = ground arith in
      either (k / 2 * 2 == (k + d) % 2 ^ 5) (k / 2 * 2 == (k + d + 31) % 2 ^ 5)
        (inl (≡→== _ _ (omega arith)))
  | inr t ↦
      let q : k % 2 ≡ 1 = ground arith in
      either (k / 2 * 2 == (k + d) % 2 ^ 5) (k / 2 * 2 == (k + d + 31) % 2 ^ 5)
        (inr (≡→== _ _ (omega arith)))
]
in_time_if k d hk hd (inr (o, even)) =
    either (k / 2 * 2 == (k + d) % 2 ^ 5) (k / 2 * 2 == (k + d + 31) % 2 ^ 5)
      (inr (≡→== _ _ (omega arith)))

-- The tests of checkSynCookie, `d` epochs later, on a cookie of the same secret.
accepted_in_time :
    (e d c : ℕ)
    → is_accepted ((e + d) % 2 ^ 32) (cookie_of ((e + d) % 2 ^ 32) c) (cookie_of e c)
      ≡ in_time (e % 2 ^ 5) d
accepted_in_time e d c =
    rw
      (
        ≡→== (cookie_of ((e + d) % 2 ^ 32) c % 2 ^ 11) (cookie_of e c % 2 ^ 11) (omega arith),
        decoded (e % 2 ^ 5) (c % 2 ^ 11) (omega arith) (omega arith),
        later e d,
        before e d,
      )
      refl

ok-injective : {a b : ℕ} → ok a ≡ ok b → a ≡ b
ok-injective e = cc

module _ (sum : List ℕ → List ℕ)
    (sum_appends : (b : List ℕ) → (digest : List ℕ) × (sum b ≡ b ++ digest)) where
  -- Since Sum appends to its argument, the four bytes that the code reads of it are those of the
  -- listener's secret: the cookie is the same whatever the address is.
  pub gen_syn_cookie-any_address :
      (l : Listener) (from : UdpAddr)
      → l.syn_cookie < 2 ^ 32
      → gen_syn_cookie sum l from ≡ ok (cookie_of l.syn_epoch l.syn_cookie)
  unfolding gen_syn_cookie
  gen_syn_cookie-any_address l from h =
      let (digest, e) = sum_appends (be32 l.syn_cookie ++ (from.ip ++ be16 (from.port % 2 ^ 16))) in
      rw (gen_syn_cookie, e, be32_value l.syn_cookie h) refl

  checked :
      (l l' : Listener) (from' : UdpAddr) (d : ℕ)
      → l.syn_cookie < 2 ^ 32
      → l'.syn_epoch ≡ (l.syn_epoch + d) % 2 ^ 32
      → l'.syn_cookie ≡ l.syn_cookie
      → check_syn_cookie sum (cookie_of l.syn_epoch l.syn_cookie) l' from'
        ≡ ok (in_time (l.syn_epoch % 2 ^ 5) d, cookie_of ((l.syn_epoch + d) % 2 ^ 32) l.syn_cookie)
  unfolding check_syn_cookie
  checked l l' from' d h epoch secret =
      rw
        (
          check_syn_cookie,
          gen_syn_cookie-any_address l' from' (omega (arith, secret)),
          epoch,
          secret,
          accepted_in_time l.syn_epoch d l.syn_cookie,
        )
        refl

  -- A cookie that is checked d < 31 epochs after it was made, by the same listener and for whatever
  -- address, is accepted exactly in its own epoch, and in the next one if its own is even.
  pub check_syn_cookie-epochs :
      (l : Listener) (from from' : UdpAddr) (cookie d : ℕ)
      → l.syn_epoch < 2 ^ 32
      → l.syn_cookie < 2 ^ 32
      → d < 31
      → gen_syn_cookie sum l from ≡ ok cookie
      → (accepted : Bool) × (new_cookie : ℕ) × (check_syn_cookie sum cookie (bumps d l) from'
          ≡ ok (accepted, new_cookie))
        × ((accepted ≡ true) ↔ ((d ≡ 0) ⊎ ((d ≡ 1) × (l.syn_epoch % 2 ≡ 0))))
  unfolding check_syn_cookie
  check_syn_cookie-epochs l from from' cookie d he hc hd made =
      let (epoch, secret) = bumps_lem d l he in
      let k = l.syn_epoch % 2 ^ 5 in
      let same : cookie_of l.syn_epoch l.syn_cookie ≡ cookie =
        ok-injective (sym (gen_syn_cookie-any_address l from hc) ∙ made) in
      (
        in_time k d,
        _,
        rw same at (checked l (bumps d l) from' d hc epoch secret),
        (
          λ h. (elim (in_time_only k d (omega arith) hd h) [
            | inl z ↦ inl z
            | inr (o, p) ↦ inr (o, omega arith)
          ]),
          λ h.
              in_time_if k d (omega arith) hd
                (elim h [ inl z ↦ inl z | inr (o, p) ↦ inr (o, omega arith) ]),
        ),
      )
