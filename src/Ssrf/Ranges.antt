-- ===== src/Ssrf/Ranges.antt =====
-- The private addresses by their octets.
use see_no_evil.Prelude.{
  ℕ, ◌/◌, ◌%◌, ◌^◌, ◌*◌, ◌+◌, ◌≡◌, ◌<◌, refl, Bool, true, ◌&&◌, ◌||◌, [], ◌∷◌, any, ◌∙◌, ◌==◌, leb,
  arith,
}
use see_no_evil.Ssrf.{v4, v6, quad, is_private_ip}

-- The addresses a.b.c.d that the source lists, in dotted form.
abbrev pub is_listed : ℕ → ℕ → ℕ → Bool
is_listed a b c =
    any (λ holds. holds)
      ((a == 0)
        ∷ (a == 10)
        ∷ (a == 127)
        ∷ (a == 172 && leb 16 b && leb b 31)
        ∷ (a == 192 && b == 168)
        ∷ (a == 169 && b == 254)
        ∷ (a == 100 && leb 64 b && leb b 127)
        ∷ (a == 198 && (b == 18 || b == 19))
        ∷ (a == 192 && b == 0 && c == 2)
        ∷ (a == 198 && b == 51 && c == 100)
        ∷ (a == 203 && b == 0 && c == 113)
        ∷ (leb 224 a && leb a 239)
        ∷ [])

module _ (a b c d : ℕ) (ha : a < 256) (hb : b < 256) (hc : c < 256) (hd : d < 256) where
  zero_net : (quad a b c d / 16777216 == 0) ≡ (a == 0)
  zero_net = ground arith

  ten : (quad a b c d / 16777216 == 10) ≡ (a == 10)
  ten = ground arith

  loopback : (quad a b c d / 16777216 == 127) ≡ (a == 127)
  loopback = ground arith

  twelve : (quad a b c d / 1048576 == 2753) ≡ ((a == 172 && leb 16 b && leb b 31))
  twelve = ground arith

  sixteen : (quad a b c d / 65536 == 49320) ≡ ((a == 192 && b == 168))
  sixteen = ground arith

  link_local : (quad a b c d / 65536 == 43518) ≡ ((a == 169 && b == 254))
  link_local = ground arith

  carrier : (quad a b c d / 4194304 == 401) ≡ ((a == 100 && leb 64 b && leb b 127))
  carrier = ground arith

  benchmark : (quad a b c d / 131072 == 25353) ≡ ((a == 198 && (b == 18 || b == 19)))
  benchmark = ground arith

  test1 : (quad a b c d / 256 == 12582914) ≡ ((a == 192 && b == 0 && c == 2))
  test1 = ground arith

  test2 : (quad a b c d / 256 == 12989284) ≡ ((a == 198 && b == 51 && c == 100))
  test2 = ground arith

  test3 : (quad a b c d / 256 == 13303921) ≡ ((a == 203 && b == 0 && c == 113))
  test3 = ground arith

  multicast : (quad a b c d / 268435456 == 14) ≡ ((leb 224 a && leb a 239))
  multicast = ground arith

  quad_listed : is_private_ip (v4 (quad a b c d)) ≡ is_listed a b c
  unfolding is_private_ip
  quad_listed =
      rw
        (
          zero_net, ten, loopback, twelve, sixteen, link_local, carrier, benchmark, test1, test2,
          test3, multicast,
        )
        refl

is_private_ip-unmapped :
    (n : ℕ) → n < 2 ^ 32 → is_private_ip (v6 (65535 * 2 ^ 32 + n)) ≡ is_private_ip (v4 n)
unfolding is_private_ip
is_private_ip-unmapped n h =
    let high : ((65535 * 2 ^ 32 + n) / 2 ^ 32 == 65535) ≡ true = ground (arith, h) in
    let low : (65535 * 2 ^ 32 + n) % 2 ^ 32 ≡ n = omega (arith, h) in rw (high, low) refl

-- An address a.b.c.d of four octets is private exactly if it is listed, and so is the IPv6 address
-- that it is mapped to.
pub is_private_ip-quad :
    (a b c d : ℕ)
    → a < 256
    → b < 256
    → c < 256
    → d < 256
    → (is_private_ip (v4 (quad a b c d)) ≡ is_listed a b c)
      × (is_private_ip (v6 (65535 * 2 ^ 32 + quad a b c d)) ≡ is_listed a b c)
is_private_ip-quad a b c d ha hb hc hd =
    let same = quad_listed a b c d ha hb hc hd in
    (same, is_private_ip-unmapped (quad a b c d) (omega (arith, ha, hb, hc, hd)) ∙ same)
