-- ===== src/Inventory/Seen.antt =====
-- What the scanner's reports leave of the devices that are known.
use see_no_evil.Prelude.{
  ℕ, ◌≡◌, refl, ◌∙◌, inl, inr, Option, some, List, [], ◌∷◌, ◌==◌, ==_iff, if◌then◌else◌, Bool-cases,
  Option-cases, arith,
}
use see_no_evil.Text.{Text}
use see_no_evil.Models.{Device, Profile}
use see_no_evil.Auth.Settings.{given}
use see_no_evil.Table.{get, get-update_self, get-update_ne}
use see_no_evil.Decide.{default_profile}
use see_no_evil.Decide.Devices.{device_id, by_mac}
use see_no_evil.Inventory.Devices.{
  DiscoveredDevice, observed, discovered_row, upsert_found, upsert_device, discover_all,
  discover_devices,
}
use see_no_evil.Inventory.Tables.{get-append_some}

-- The row afterwards has the MAC, the profile and the bypass that it had, and its name unless that
-- was empty.
abbrev pub IsSeen : Device → Device → Type 0
IsSeen r r' =
    (r'.mac ≡ r.mac)
    × (r'.profile_id ≡ r.profile_id)
    × (r'.bypass_proxy ≡ r.bypass_proxy)
    × (r'.name ≡ (if given r.name then r.name else r'.name))

IsSeen-refl : (r : Device) → IsSeen r r
IsSeen-refl r = (refl, refl, refl, ground arith)

same_name_trans :
    (a b c : Option Text)
    → b ≡ (if given a then a else b)
    → c ≡ (if given b then b else c)
    → c ≡ (if given a then a else c)
same_name_trans a b c n n' = elim (Bool-cases (given a)) [
  | inl named ↦ let same : b ≡ a = rw named at n in rw named (rw (same, named) at n')
  | inr empty ↦ rw empty refl
]

IsSeen-trans : (r s t : Device) → IsSeen r s → IsSeen s t → IsSeen r t
IsSeen-trans r s t (m, p, b, n) (m', p', b', n') =
    (m' ∙ m, p' ∙ p, b' ∙ b, same_name_trans r.name s.name t.name n n')

observed-IsSeen : (now : ℕ) (d : DiscoveredDevice) (r : Device) → IsSeen r (observed now d r)
observed-IsSeen now d r = (refl, refl, refl, ground arith)

abbrev pub StillSeen : ℕ → Device → List Device → Type 0
StillSeen k r devices = (r' : Device) × (get device_id k devices ≡ some r') × IsSeen r r'

module _ (next_id : List Device → ℕ) (now profile : ℕ) (k : ℕ) where
  upsert-StillSeen :
      (d : DiscoveredDevice) (devices : List Device) (r : Device)
      → get device_id k devices ≡ some r
      → StillSeen k r (upsert_found next_id now profile d devices (by_mac d.mac devices)).1
  upsert-StillSeen d devices r found = elim (Option-cases (by_mac d.mac devices)) [
    | inl gone ↦ rw gone (
      r,
      get-append_some device_id k devices (discovered_row next_id now profile (next_id devices) d)
          found,
      IsSeen-refl r,
    )
    | inr (e, known) ↦ elim (Bool-cases (e.id == k)) [
      | inl here ↦
          let same : e.id ≡ k = (==_iff e.id k).0 here in
          rw (known, same)
            (
              observed now d r,
              get-update_self device_id (observed now d) (λ x. refl) k devices ∙ rw found refl,
              observed-IsSeen now d r,
            )
      | inr other ↦ rw known (
        r,
        get-update_ne device_id (observed now d) (λ x. refl) e.id k devices other ∙ found,
        IsSeen-refl r,
      )
    ]
  ]

  discover_all-StillSeen :
      (ds : List DiscoveredDevice) (devices : List Device) (r : Device)
      → get device_id k devices ≡ some r
      → StillSeen k r (discover_all next_id now profile ds devices).1
  unfolding discover_all upsert_device
  discover_all-StillSeen [] devices r found = (r, found, IsSeen-refl r)
  discover_all-StillSeen (d ∷ ds) devices r found =
      let (s, there, seen) = upsert-StillSeen d devices r found in
      let (t, end, seen') =
        discover_all-StillSeen ds (upsert_device next_id now profile d devices).1 s there in
      (t, end, IsSeen-trans r s t seen seen')

module _ {Float : Type 0} (profiles : List (Profile Float)) (next_id : List Device → ℕ)
    (default_name : Text) where
  -- A report of the scanner, however it is answered, leaves every device that was known under its id,
  -- with its MAC, profile and bypass, and with its name unless that was empty.
  pub discover_devices-StillSeen :
      (now : ℕ) (ds : List DiscoveredDevice) (devices : List Device) (k : ℕ) (r : Device)
      → get device_id k devices ≡ some r
      → StillSeen k r (discover_devices profiles next_id default_name now ds devices).1
  unfolding discover_devices
  discover_devices-StillSeen now ds devices k r found =
      elim (Option-cases (default_profile default_name profiles)) [
        | inl gone ↦ rw gone (r, found, IsSeen-refl r)
        | inr (p, there) ↦ rw there (discover_all-StillSeen next_id now p.id k ds devices r found)
      ]
