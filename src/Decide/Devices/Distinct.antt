-- ===== src/Decide/Devices/Distinct.antt =====
-- Devices under distinct MACs.
use see_no_evil.Prelude.{
  ◌≡◌, refl, inl, inr, Bool, false, none, List, [], ◌∷◌, ◌++◌, map, keep, Bool-cases, arith,
}
use see_no_evil.Text.{Text, eqb}
use see_no_evil.Text.Laws.{eqb_iff}
use see_no_evil.Models.{Device}
use see_no_evil.Decide.Devices.{by_mac}

-- No two devices have one MAC.
abbrev pub HasDistinctMacs : List Device → Type 0
HasDistinctMacs [] = Unit
HasDistinctMacs (d ∷ devices) = (by_mac d.mac devices ≡ none) × HasDistinctMacs devices

module _ (f : Device → Device) (same : (d : Device) → (f d).mac ≡ d.mac) where
  by_mac-map :
      (mac : Text) (devices : List Device)
      → by_mac mac devices ≡ none
      → by_mac mac (map f devices) ≡ none
  unfolding by_mac
  by_mac-map mac [] gone = refl
  by_mac-map mac (d ∷ devices) gone = elim (Bool-cases (eqb d.mac mac)) [
    | inl here ↦ absurd (ground arith)
    | inr other ↦ rw (same d, other) (by_mac-map mac devices (rw other at gone))
  ]

  -- Rows that change keep their MACs.
  pub Distinct-map :
      (devices : List Device) → HasDistinctMacs devices → HasDistinctMacs (map f devices)
  Distinct-map [] h = tt
  Distinct-map (d ∷ devices) (alone, h) =
      (rw (same d) (by_mac-map d.mac devices alone), Distinct-map devices h)

module _ (stays : Device → Bool) where
  by_mac-keep :
      (mac : Text) (devices : List Device)
      → by_mac mac devices ≡ none
      → by_mac mac (keep stays devices) ≡ none
  unfolding by_mac
  by_mac-keep mac [] gone = refl
  by_mac-keep mac (d ∷ devices) gone = elim (Bool-cases (eqb d.mac mac)) [
    | inl here ↦ absurd (ground arith)
    | inr other ↦ elim (Bool-cases (stays d)) [
      | inl in_place ↦ rw (in_place, other) (by_mac-keep mac devices (rw other at gone))
      | inr out ↦ rw out (by_mac-keep mac devices (rw other at gone))
    ]
  ]

  -- Rows are taken away.
  pub Distinct-keep :
      (devices : List Device) → HasDistinctMacs devices → HasDistinctMacs (keep stays devices)
  Distinct-keep [] h = tt
  Distinct-keep (d ∷ devices) (alone, h) = elim (Bool-cases (stays d)) [
    | inl in_place ↦ rw in_place (by_mac-keep d.mac devices alone, Distinct-keep devices h)
    | inr out ↦ rw out (Distinct-keep devices h)
  ]

by_mac-append :
    (mac : Text) (devices : List Device) (new : Device)
    → by_mac mac devices ≡ none
    → eqb new.mac mac ≡ false
    → by_mac mac (devices ++ (new ∷ [])) ≡ none
unfolding by_mac
by_mac-append mac [] new gone other = rw other refl
by_mac-append mac (d ∷ devices) new gone other = elim (Bool-cases (eqb d.mac mac)) [
  | inl here ↦ absurd (ground arith)
  | inr far ↦ rw far (by_mac-append mac devices new (rw far at gone) other)
]

-- A row under a new MAC is added.
pub Distinct-append :
    (devices : List Device) (new : Device)
    → HasDistinctMacs devices
    → by_mac new.mac devices ≡ none
    → HasDistinctMacs (devices ++ (new ∷ []))
unfolding by_mac
Distinct-append [] new h gone = (refl, tt)
Distinct-append (d ∷ devices) new (alone, h) gone = elim (Bool-cases (eqb d.mac new.mac)) [
  | inl same ↦ absurd (ground arith)
  | inr other ↦ (
    by_mac-append d.mac devices new alone
        (ground (arith, eqb_iff d.mac new.mac, eqb_iff new.mac d.mac)),
    Distinct-append devices new h (rw other at gone),
  )
]
