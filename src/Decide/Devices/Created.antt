-- ===== src/Decide/Devices/Created.antt =====
-- Devices that are made by themselves: how many, and under which MACs.
use see_no_evil.Prelude.{
  ℕ, suc, ◌≡◌, refl, ap, ◌≤◌, inl, inr, Option, none, some, List, [], ◌∷◌, ◌++◌, map, ltb, ◌==◌,
  if◌then◌else◌, Bool-cases, Option-cases, arith,
}
use see_no_evil.Text.{Text}
use see_no_evil.Models.{Device}
use see_no_evil.Table.{update}
use see_no_evil.Decide.Devices.Distinct.{HasDistinctMacs, Distinct-map, Distinct-append}
use see_no_evil.Decide.Devices.{
  by_ip, by_mac, given_by, recent_count, is_recent, seen, seen_again, new_device, seed_mac,
  create_device, auto_create_device,
}

-- A row that is seen again keeps its MAC and its age.
seen_same :
    (now : ℕ) (ip : Option Text) (d : Device)
    → ((seen now ip d).mac ≡ d.mac) × ((seen now ip d).created_at ≡ d.created_at)
seen_same now none d = (refl, refl)
seen_same now (some ip) d = (refl, refl)

module _ (now : ℕ) (ip : Option Text) (id : ℕ) where
  at_row : Device → Device
  at_row d = if d.id == id then seen now ip d else d

  at_row_same : (d : Device) → ((at_row d).mac ≡ d.mac) × ((at_row d).created_at ≡ d.created_at)
  unfolding at_row
  at_row_same d = elim (Bool-cases (d.id == id)) [
    | inl here ↦ rw here (seen_same now ip d)
    | inr other ↦ rw other (refl, refl)
  ]

  recent_count-map :
      (devices : List Device) → recent_count now (map at_row devices) ≡ recent_count now devices
  unfolding recent_count
  recent_count-map [] = refl
  recent_count-map (d ∷ devices) = rw ((at_row_same d).1) (elim (Bool-cases (is_recent now d)) [
    | inl young ↦ rw young (ap suc (recent_count-map devices))
    | inr old ↦ rw old (recent_count-map devices)
  ])

keep-append :
    (now : ℕ) (devices : List Device) (new : Device)
    → recent_count now (devices ++ (new ∷ [])) ≤ suc (recent_count now devices)
unfolding recent_count
keep-append now [] new = ground arith
keep-append now (d ∷ devices) new = elim (Bool-cases (is_recent now d)) [
  | inl young ↦ rw young (omega (arith, keep-append now devices new))
  | inr old ↦ rw old (keep-append now devices new)
]

module _ (now fresh_id : ℕ) (mac ip : Option Text) (profile_id : ℕ) (devices : List Device) where
  -- What holds of the table after a row was seen again or made, or nothing was done.
  by_steps :
      (P : List Device → Type 0)
      → P devices
      → ((d : Device) → P (seen_again now ip devices d).1)
      → ((seed : Text)
          → by_mac seed devices ≡ none
          → P (create_device now fresh_id mac ip seed profile_id devices).1)
      → P (auto_create_device now fresh_id mac ip profile_id devices).1
  unfolding auto_create_device
  by_steps P as_is again made = elim (Option-cases (given_by by_ip ip devices)) [
    | inr (d, found) ↦ rw found (again d)
    | inl no_ip ↦ elim (Option-cases (seed_mac mac ip)) [
      | inl no_seed ↦ rw (no_ip, no_seed) as_is
      | inr (seed, seeded_by) ↦ elim (Option-cases (by_mac seed devices)) [
        | inr (d, found) ↦ rw (no_ip, seeded_by, found) (again d)
        | inl gone ↦ rw (no_ip, seeded_by, gone) (made seed gone)
      ]
    ]
  ]

  -- The proxy's requests make no device where more than 20 are younger than an hour: at most 21
  -- such devices stay at most 21.
  pub auto_create_device-recent_count :
      recent_count now devices ≤ 21
      → recent_count now (auto_create_device now fresh_id mac ip profile_id devices).1 ≤ 21
  unfolding update at_row
  auto_create_device-recent_count few =
      by_steps (λ after. recent_count now after ≤ 21) few
        (λ d. rw (recent_count-map now ip d.id devices) few)
        (λ seed gone. elim (Bool-cases (ltb 20 (recent_count now devices))) [
          | inl full ↦ rw full few
          | inr free ↦ rw free (
              ground
                (arith, keep-append now devices (new_device now fresh_id mac ip seed profile_id)))
        ])

  -- No two devices get one MAC.
  pub auto_create_device-HasDistinctMacs :
      HasDistinctMacs devices
      → HasDistinctMacs (auto_create_device now fresh_id mac ip profile_id devices).1
  unfolding update at_row
  auto_create_device-HasDistinctMacs distinct =
      by_steps HasDistinctMacs distinct
        (λ d.
          Distinct-map (at_row now ip d.id) (λ r. (at_row_same now ip d.id r).0) devices distinct)
        (λ seed gone. elim (Bool-cases (ltb 20 (recent_count now devices))) [
          | inl full ↦ rw full distinct
          | inr free ↦ rw free (Distinct-append devices _ distinct gone)
        ])
