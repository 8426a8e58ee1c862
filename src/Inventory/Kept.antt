-- ===== src/Inventory/Kept.antt =====
-- What the handlers of devices keep.
use see_no_evil.Prelude.{
  ℕ, ◌≡◌, refl, inl, inr, Bool, true, not, Option, none, some, List, [], ◌∷◌, ◌++◌, ◌==◌,
  if◌then◌else◌, Bool-cases, Option-cases,
}
use see_no_evil.Text.{Text, eqb}
use see_no_evil.Models.{Device, Profile}
use see_no_evil.Table.{get, update, delete}
use see_no_evil.Decide.{default_profile}
use see_no_evil.Decide.Devices.{device_id, by_mac}
use see_no_evil.Decide.Devices.Distinct.{
  HasDistinctMacs, Distinct-map, Distinct-keep, Distinct-append,
}
use see_no_evil.Inventory.{Field, set_field}
use see_no_evil.Inventory.Devices.{
  DeviceCreate, DeviceUpdate, DiscoveredDevice, is_profile, is_profile_field, created_row,
  create_unless, create_device, or_same, changed_row, changed, update_device, delete_device,
  observed, discovered_row, upsert_found, upsert_device, discover_all, discover_devices,
}
use see_no_evil.Inventory.Tables.{All-append, All-keep, All-map, HasProfiles, is_profile-first}

module _ {Float : Type 0} where
  -- Each device has its own MAC and a profile.
  abbrev pub IsWell : List (Profile Float) → List Device → Type 0
  IsWell profiles devices = HasDistinctMacs devices × HasProfiles profiles devices

  module _ (profiles : List (Profile Float)) where
    Referring : Device → Type 0
    Referring d = is_profile profiles d.profile_id ≡ true

    added :
        (devices : List Device) (new : Device)
        → IsWell profiles devices
        → by_mac new.mac devices ≡ none
        → is_profile profiles new.profile_id ≡ true
        → IsWell profiles (devices ++ (new ∷ []))
    unfolding Referring
    added devices new (macs, refs) gone known =
        (Distinct-append devices new macs gone, All-append Referring devices new refs known)

    at_id : ℕ → (Device → Device) → Device → Device
    at_id id f d = if d.id == id then f d else d

    at_id_mac :
        (id : ℕ) (f : Device → Device)
        → ((d : Device) → (f d).mac ≡ d.mac)
        → (d : Device) → (at_id id f d).mac ≡ d.mac
    unfolding at_id
    at_id_mac id f mac d = elim (Bool-cases (d.id == id)) [
      | inl here ↦ rw here (mac d)
      | inr other ↦ rw other refl
    ]

    at_id_ref :
        (id : ℕ) (f : Device → Device)
        → ((d : Device) → Referring d → Referring (f d))
        → (d : Device) → Referring d
        → Referring (at_id id f d)
    unfolding at_id
    at_id_ref id f ref d h = elim (Bool-cases (d.id == id)) [
      | inl here ↦ rw here (ref d h)
      | inr other ↦ rw other h
    ]

    -- The row with an id is replaced by one of the same MAC.
    replaced :
        (id : ℕ) (f : Device → Device) (devices : List Device)
        → ((d : Device) → (f d).mac ≡ d.mac)
        → ((d : Device) → Referring d → Referring (f d))
        → IsWell profiles devices
        → IsWell profiles (update device_id id f devices)
    unfolding update at_id Referring
    replaced id f devices mac ref (macs, refs) = (
      Distinct-map (at_id id f) (at_id_mac id f mac) devices macs,
      All-map Referring (at_id id f) (at_id_ref id f ref) devices refs,
    )

    create_unless-IsWell :
        (new : Device) (devices : List Device)
        → IsWell profiles devices
        → is_profile profiles new.profile_id ≡ true
        → IsWell profiles (create_unless new devices (by_mac new.mac devices)).1
    create_unless-IsWell new devices well known = elim (Option-cases (by_mac new.mac devices)) [
      | inl gone ↦ rw gone (added devices new well gone known)
      | inr (d, found) ↦ rw found well
    ]

    pub create_device-IsWell :
        (now id : ℕ) (body : DeviceCreate) (devices : List Device)
        → IsWell profiles devices
        → IsWell profiles (create_device profiles now id body devices).1
    unfolding create_device
    create_device-IsWell now id body devices well =
        elim (Bool-cases (is_profile profiles body.profile_id)) [
          | inl known ↦ rw known (create_unless-IsWell (created_row now id body) devices well known)
          | inr gone ↦ rw gone well
        ]

    pub delete_device-IsWell :
        (id : ℕ) (devices : List Device)
        → IsWell profiles devices
        → IsWell profiles (delete_device id devices).1
    unfolding delete_device delete Referring
    delete_device-IsWell id devices (macs, refs) = elim (Option-cases (get device_id id devices)) [
      | inl gone ↦ rw gone (macs, refs)
      | inr (d, found) ↦ rw found (
        Distinct-keep (λ r. not (r.id == id)) devices macs,
        All-keep Referring (λ r. not (r.id == id)) devices refs,
      )
    ]

    changed_row-mac :
        (body : DeviceUpdate) (d : Device) (p : Option ℕ) (b : Option Bool)
        → (or_same d (changed_row body d p b)).mac ≡ d.mac
    changed_row-mac body d none b = refl
    changed_row-mac body d (some p) none = refl
    changed_row-mac body d (some p) (some b) = refl

    changed-mac : (body : DeviceUpdate) (d : Device) → (or_same d (changed body d)).mac ≡ d.mac
    changed-mac body d =
        changed_row-mac body d (set_field body.profile_id d.profile_id)
          (set_field body.bypass_proxy d.bypass_proxy)

    changed_row-Referring :
        (body : DeviceUpdate) (d : Device) (f : Field ℕ) (b : Option Bool)
        → is_profile_field profiles f ≡ true
        → Referring d
        → Referring (or_same d (changed_row body d (set_field f d.profile_id) b))
    unfolding Referring
    changed_row-Referring body d none none known h = h
    changed_row-Referring body d none (some b) known h = h
    changed_row-Referring body d (some none) b known h = h
    changed_row-Referring body d (some (some id)) none known h = h
    changed_row-Referring body d (some (some id)) (some b) known h = known

    changed-Referring :
        (body : DeviceUpdate) (d : Device)
        → is_profile_field profiles body.profile_id ≡ true
        → Referring d
        → Referring (or_same d (changed body d))
    changed-Referring body d known h =
        changed_row-Referring body d body.profile_id (set_field body.bypass_proxy d.bypass_proxy)
          known h

    pub update_device-IsWell :
        (id : ℕ) (body : DeviceUpdate) (devices : List Device)
        → IsWell profiles devices
        → IsWell profiles (update_device profiles id body devices).1
    unfolding update_device
    update_device-IsWell id body devices well = elim (Option-cases (get device_id id devices)) [
      | inl gone ↦ rw gone well
      | inr (d, found) ↦ elim (Bool-cases (is_profile_field profiles body.profile_id)) [
        | inr unknown ↦ rw (found, unknown) well
        | inl known ↦ elim (Option-cases (changed body d)) [
          | inl broken ↦ rw (found, known, broken) well
          | inr (d', done) ↦
              rw (found, known, done)
                (replaced id (λ old. or_same old (changed body old)) devices (changed-mac body)
                  (λ r. changed-Referring body r known) well)
        ]
      ]
    ]

    module _ (next_id : List Device → ℕ) (now : ℕ) (p : Profile Float)
        (known : is_profile profiles p.id ≡ true) where
      upsert_found-IsWell :
          (d : DiscoveredDevice) (devices : List Device)
          → IsWell profiles devices
          → IsWell profiles (upsert_found next_id now p.id d devices (by_mac d.mac devices)).1
      unfolding Referring
      upsert_found-IsWell d devices well = elim (Option-cases (by_mac d.mac devices)) [
        | inl gone ↦
            rw gone
              (added devices (discovered_row next_id now p.id (next_id devices) d) well gone known)
        | inr (e, found) ↦
            rw found (replaced e.id (observed now d) devices (λ r. refl) (λ r h. h) well)
      ]

      discover_all-IsWell :
          (ds : List DiscoveredDevice) (devices : List Device)
          → IsWell profiles devices
          → IsWell profiles (discover_all next_id now p.id ds devices).1
      unfolding discover_all upsert_device
      discover_all-IsWell [] devices well = well
      discover_all-IsWell (d ∷ ds) devices well =
          discover_all-IsWell ds (upsert_device next_id now p.id d devices).1
            (upsert_found-IsWell d devices well)

    pub discover_devices-IsWell :
        (next_id : List Device → ℕ) (default_name : Text) (now : ℕ) (ds : List DiscoveredDevice)
        (devices : List Device)
        → IsWell profiles devices
        → IsWell profiles (discover_devices profiles next_id default_name now ds devices).1
    unfolding discover_devices
    discover_devices-IsWell next_id default_name now ds devices well =
        elim (Option-cases (default_profile default_name profiles)) [
          | inl gone ↦ rw gone well
          | inr (p, found) ↦ rw found (
              discover_all-IsWell next_id now p
                (is_profile-first (λ q. eqb q.name default_name) profiles
                  (unfold default_profile in found))
                ds devices well)
        ]
