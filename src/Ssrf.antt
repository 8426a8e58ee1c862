-- ===== src/Ssrf.antt =====
-- The addresses that no outgoing request may name, services/api/src/seenoevil_api/ssrf.py. `urlparse`
-- and the reading of an address literal are parameters.
pub mod Ranges
mod Tests
use see_no_evil.Prelude.{
  ℕ, ◌/◌, ◌%◌, ◌^◌, ◌*◌, ◌+◌, ◌-◌, Bool, true, false, ◌&&◌, Option, none, some, List, [], ◌∷◌, any,
  ◌==◌, if◌then◌else◌,
}
use see_no_evil.Text.{Text, codes, eqb, truthy, strip, lower}
use see_no_evil.Policy.Urls.{UrlLib, Url}

-- An address of 32 or of 128 bits.
pub data Ip : Type 0 where
  v4 : ℕ → Ip
  v6 : ℕ → Ip

pub record Network : Type 0 where
  pub network_address : Ip
  pub prefixlen : ℕ

-- `ipaddress.ip_address`; `none` is its `ValueError`.
pub record IpLib : Type 0 where
  pub ip_address : Text → Option Ip

abbrev pub quad : ℕ → ℕ → ℕ → ℕ → ℕ
quad a b c d = a * 16777216 + b * 65536 + c * 256 + d

abbrev pub network : ℕ → ℕ → ℕ → ℕ → Network
network a b c len = record { network_address = v4 (quad a b c 0); prefixlen = len }

abbrev pub network6 : ℕ → ℕ → Network
network6 address len = record { network_address = v6 address; prefixlen = len }

abbrev pub private_networks : List Network
private_networks =
    network 0 0 0 8
    ∷ network 10 0 0 8
    ∷ network 127 0 0 8
    ∷ network 172 16 0 12
    ∷ network 192 168 0 16
    ∷ network 169 254 0 16
    ∷ network 100 64 0 10
    ∷ network 198 18 0 15
    ∷ network 192 0 2 24
    ∷ network 198 51 100 24
    ∷ network 203 0 113 24
    ∷ network 224 0 0 4
    ∷ network6 (253 * 2 ^ 120) 8
    ∷ network6 (1018 * 2 ^ 118) 10
    ∷ network6 1 128
    ∷ network6 (65535 * 2 ^ 32) 96
    ∷ network6 0 128
    ∷ []

-- `ip in net`: the same version and the same first bits.
abbrev contains_bits : ℕ → ℕ → ℕ → Bool
contains_bits rest address n = n / 2 ^ rest == address / 2 ^ rest

abbrev contains_ip : Ip → ℕ → Ip → Bool
contains_ip (v4 address) len (v4 n) = contains_bits (32 - len) address n
contains_ip (v6 address) len (v6 n) = contains_bits (128 - len) address n
contains_ip (v4 address) len (v6 n) = false
contains_ip (v6 address) len (v4 n) = false

abbrev pub is_in : Ip → Network → Bool
is_in ip net = contains_ip net.network_address net.prefixlen ip

-- `ip.ipv4_mapped` where there is one.
abbrev pub unmapped : Ip → Ip
unmapped (v4 n) = v4 n
unmapped (v6 n) = if n / 2 ^ 32 == 65535 then v4 (n % 2 ^ 32) else v6 n

-- The loop over the networks.
unfoldable pub is_private_ip : Ip → Bool
is_private_ip ip = let own = unmapped ip in any (λ net. is_in own net) private_networks

module _ (urls : UrlLib) (ips : IpLib) where
  abbrev is_private_literal : Option Ip → Bool
  is_private_literal none = false
  is_private_literal (some ip) = is_private_ip ip

  abbrev is_private_host : Option Text → Bool
  is_private_host none = false
  is_private_host (some host) =
      let own = lower (strip host) in
      let private = is_private_literal (ips.ip_address own) in
      if truthy host then (if eqb own (codes "localhost") then true else private) else false

  abbrev is_private_parsed : Option Url → Bool
  is_private_parsed none = false
  is_private_parsed (some u) = is_private_host u.hostname

  unfoldable pub is_private_url : Text → Bool
  unfolding is_private_ip lower strip eqb
  is_private_url url = is_private_parsed (urls.urlparse url)
