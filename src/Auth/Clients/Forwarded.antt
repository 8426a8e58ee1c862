-- ===== src/Auth/Clients/Forwarded.antt =====
-- What a client can write into its address.
use see_no_evil.Prelude.{
  ℕ, ◌≡◌, refl, ap, inl, inr, true, false, some, List, [], ◌∷◌, ◌++◌, map, keep, ◌==◌, Bool-cases,
  arith, All,
}
use see_no_evil.Text.{Text, truthy, strip, split}
use see_no_evil.Auth.Clients.{AddressLib, host_is_trusted_proxy, last_or, hops, client_ip}

split_some :
    (sep : ℕ) (s : Text) → (part : Text) × (parts : List Text) × (split sep s ≡ part ∷ parts)
unfolding split
split_some sep [] = ([], [], refl)
split_some sep (c ∷ s) = elim (Bool-cases (c == sep)) [
  | inl cut ↦ rw cut ([], split sep s, refl)
  | inr on ↦ let (part, parts, e) = split_some sep s in rw (on, e) (c ∷ part, parts, refl)
]

-- A separator cuts a text in two lists of parts.
split-append : (sep : ℕ) (s t : Text) → split sep (s ++ (sep ∷ t)) ≡ split sep s ++ split sep t
unfolding split
split-append sep [] t = let own : (sep == sep) ≡ true = ground arith in rw own refl
split-append sep (c ∷ s) t = elim (Bool-cases (c == sep)) [
  | inl cut ↦ rw cut (ap (λ parts. [] ∷ parts) (split-append sep s t))
  | inr on ↦ let (part, parts, e) = split_some sep s in rw (on, split-append sep s t, e) refl
]

split_one : (sep : ℕ) (t : Text) → All (λ c. (c == sep) ≡ false) t → split sep t ≡ t ∷ []
unfolding split
split_one sep [] h = refl
split_one sep (c ∷ t) (far, h) = rw (far, split_one sep t h) refl

given_header : (s last : Text) → truthy (s ++ (b',' ∷ last)) ≡ true
given_header [] last = refl
given_header (c ∷ s) last = refl

module _ (lib : AddressLib) where
  last_or-append :
      (host last : Text) (parts : List Text)
      → truthy (strip last) ≡ true
      → last_or lib host (keep truthy (map strip (parts ++ (last ∷ [])))) ≡ strip last
  last_or-append host last [] given = rw given refl
  last_or-append host last (part ∷ parts) given = elim (Bool-cases (truthy (strip part))) [
    | inl there ↦ rw there (last_or-append (strip part) last parts given)
    | inr empty ↦ rw empty (last_or-append host last parts given)
  ]

  -- Behind a trusted proxy the address of a client is what the proxy appended to the header, whatever
  -- the client wrote before it.
  pub client_ip-append :
      (extra host s last : Text)
      → host_is_trusted_proxy lib extra host ≡ true
      → All (λ c. (c == b',') ≡ false) last
      → truthy (strip last) ≡ true
      → client_ip lib extra (some host) (some (s ++ (b',' ∷ last))) ≡ strip last
  unfolding client_ip hops
  client_ip-append extra host s last trusted no_comma given =
      rw (given_header s last, trusted, split-append b',' s last, split_one b',' last no_comma)
        (last_or-append host last (split b',' s) given)
