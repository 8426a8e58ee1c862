-- ===== src/Auth/Clients.antt =====
-- The address of a client, `client_ip` of auth.py, by which its rate limiters count. The reading of
-- addresses and networks is a parameter.
pub mod Forwarded
use see_no_evil.Prelude.{
  ℕ, ◌*◌, ◌^◌, Bool, true, false, Option, none, some, List, [], ◌∷◌, map, keep, any, reverse, ◌==◌,
  if◌then◌else◌,
}
use see_no_evil.Text.{Text, codes, eqb, truthy, strip, split, member, contains}
use see_no_evil.Ssrf.{Ip, v4, v6, Network, network, network6, is_in}

-- `ip_address` and `ip_network` of Python's ipaddress, the latter with `strict=False`; `none` is
-- `ValueError`.
pub record AddressLib : Type 0 where
  pub ip_address : Text → Option Ip
  pub ip_network : Text → Option Network

abbrev pub trusted_hosts : List Text
trusted_hosts = codes "127.0.0.1" ∷ codes "::1" ∷ codes "10.0.0.1" ∷ codes "::ffff:127.0.0.1" ∷ []

abbrev pub trusted_nets : List Network
trusted_nets =
    network 127 0 0 8
    ∷ network 10 88 0 16
    ∷ network 172 16 0 12
    ∷ network6 (253 * 2 ^ 120) 8
    ∷ network6 (1018 * 2 ^ 118) 10
    ∷ network6 1 128
    ∷ []

abbrev same_ip : Ip → Ip → Bool
same_ip (v4 a) (v4 b) = a == b
same_ip (v6 a) (v6 b) = a == b
same_ip _ _ = false

module _ (lib : AddressLib) where
  -- An address in a network; where either is unreadable, the texts are compared.
  abbrev net_or_text : Text → Text → Option Network → Option Ip → Bool
  net_or_text host t (some net) (some ip) = is_in ip net
  net_or_text host t _ _ = eqb host t

  abbrev ip_or_text : Text → Text → Option Ip → Option Ip → Bool
  ip_or_text host t (some a) (some b) = same_ip a b
  ip_or_text host t _ _ = eqb host t

  -- One entry of SEENOEVIL_TRUSTED_PROXIES.
  abbrev entry_matches : Text → Text → Bool
  entry_matches host t =
      if truthy t
      then if contains (codes "/") t
        then net_or_text host t (lib.ip_network t) (lib.ip_address host)
        else if eqb host t
        then true
        else ip_or_text host t (lib.ip_address host) (lib.ip_address t)
      else false

  abbrev in_default_nets : Option Ip → Bool
  in_default_nets none = false
  in_default_nets (some ip) = any (λ net. is_in ip net) trusted_nets

  -- The text of the environment variable is an argument.
  unfoldable pub host_is_trusted_proxy : Text → Text → Bool
  unfolding member split strip contains eqb
  host_is_trusted_proxy extra host =
      if member host trusted_hosts
      then true
      else if any (λ entry. entry_matches host (strip entry)) (split b',' extra)
      then true
      else in_default_nets (lib.ip_address host)

  abbrev pub last_or : Text → List Text → Text
  last_or host [] = host
  last_or host (part ∷ parts) = last_or part parts

  -- The parts of X-Forwarded-For that are not empty.
  unfoldable pub hops : Text → List Text
  unfolding split strip
  hops xff = keep truthy (map strip (split b',' xff))

  abbrev pub host_of_peer : Option Text → Text
  host_of_peer none = codes "unknown"
  host_of_peer (some host) = host

  abbrev pub forwarded : Text → Text → Option Text → Text
  forwarded extra host none = host
  forwarded extra host (some xff) =
      if truthy xff
      then if host_is_trusted_proxy extra host then last_or host (hops xff) else host
      else host

  unfoldable pub client_ip : Text → Option Text → Option Text → Text
  unfolding host_is_trusted_proxy hops
  client_ip extra peer xff = forwarded extra (host_of_peer peer) xff
