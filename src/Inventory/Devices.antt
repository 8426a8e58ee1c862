-- ===== src/Inventory/Devices.antt =====
-- The handlers of routers/devices.py that change rows.
use see_no_evil.Prelude.{
  ℕ, Bool, true, false, Option, none, some, List, [], ◌∷◌, ◌++◌, if◌then◌else◌,
}
use see_no_evil.Text.{Text}
use see_no_evil.Http.{Reply, ok, http}
use see_no_evil.Models.{Device, Profile}
use see_no_evil.Table.{get, update, delete}
use see_no_evil.Auth.Settings.{given}
use see_no_evil.Decide.{profile_id, default_profile}
use see_no_evil.Decide.Devices.{device_id, by_mac}
use see_no_evil.Inventory.{Field, set_field, set_nullable}

pub record DeviceCreate : Type 0 where
  pub mac : Text
  pub name : Option Text
  pub profile_id : ℕ
  pub bypass_proxy : Bool

pub record DeviceUpdate : Type 0 where
  pub name : Field Text
  pub profile_id : Field ℕ
  pub bypass_proxy : Field Bool

pub record DiscoveredDevice : Type 0 where
  pub mac : Text
  pub ip : Option Text
  pub hostname : Option Text
  pub vendor : Option Text

pub record DiscoverResponseItem : Type 0 where
  pub mac : Text
  pub device_id : ℕ
  pub created : Bool

-- `x = y if not x and y else x`, on texts.
abbrev pub filled : Option Text → Option Text → Option Text
filled old new = if given old then old else if given new then new else old

abbrev pub given_or : Option Text → Option Text → Option Text
given_or new old = if given new then new else old

-- What the scanner's report changes in a row.
abbrev pub observed : ℕ → DiscoveredDevice → Device → Device
observed now d row = record row {
  last_seen_at = some now;
  name = filled row.name d.hostname;
  ip = given_or d.ip row.ip;
  vendor = filled row.vendor d.vendor;
}

abbrev pub is_some {ℓ} : {A : Type ℓ} → Option A → Bool
is_some none = false
is_some (some a) = true

-- The row of a body, where no constraint is broken.
abbrev pub created_row : ℕ → ℕ → DeviceCreate → Device
created_row now id body = record {
  id = id;
  mac = body.mac;
  name = body.name;
  profile_id = body.profile_id;
  bypass_proxy = body.bypass_proxy;
  ip = none;
  vendor = none;
  last_seen_at = none;
  created_at = now;
}

abbrev pub create_unless : Device → List Device → Option Device → Reply Device × List Device
create_unless new devices (some other) = (http 409, devices)
create_unless new devices none = (ok new, devices ++ (new ∷ []))

-- `setattr` of the fields that were sent; `none` breaks a constraint.
abbrev pub changed_row : DeviceUpdate → Device → Option ℕ → Option Bool → Option Device
changed_row body d none bypass = none
changed_row body d (some profile) none = none
changed_row body d (some profile) (some bypass) =
    some (record d {
      name = set_nullable body.name d.name;
      profile_id = profile;
      bypass_proxy = bypass;
    })

abbrev pub changed : DeviceUpdate → Device → Option Device
changed body d =
    changed_row body d (set_field body.profile_id d.profile_id)
      (set_field body.bypass_proxy d.bypass_proxy)

abbrev pub or_same : Device → Option Device → Device
or_same d none = d
or_same d (some d') = d'

-- An `IntegrityError` of this commit is not caught.
abbrev pub store_changed :
    ℕ → DeviceUpdate → List Device → Option Device → Reply Device × List Device
store_changed id body devices none = (http 500, devices)
store_changed id body devices (some d) =
    (ok d, update device_id id (λ old. or_same old (changed body old)) devices)

abbrev pub delete_found : ℕ → List Device → Option Device → Reply (Unit {0}) × List Device
delete_found id devices none = (http 404, devices)
delete_found id devices (some d) = (ok tt, delete device_id id devices)

unfoldable pub delete_device : ℕ → List Device → Reply (Unit {0}) × List Device
unfolding get delete
delete_device id devices = delete_found id devices (get device_id id devices)

module _ {Float : Type 0} (profiles : List (Profile Float)) where
  abbrev pub is_profile : ℕ → Bool
  is_profile id = is_some (get profile_id id profiles)

  abbrev pub is_profile_field : Field ℕ → Bool
  is_profile_field none = true
  is_profile_field (some none) = false
  is_profile_field (some (some id)) = is_profile id

  unfoldable pub create_device : ℕ → ℕ → DeviceCreate → List Device → Reply Device × List Device
  unfolding by_mac get
  create_device now id body devices =
      if is_profile body.profile_id
      then create_unless (created_row now id body) devices (by_mac body.mac devices)
      else (http 400, devices)

  abbrev pub update_device_found :
      ℕ → DeviceUpdate → List Device → Option Device → Reply Device × List Device
  update_device_found id body devices none = (http 404, devices)
  update_device_found id body devices (some d) =
      if is_profile_field body.profile_id
      then store_changed id body devices (changed body d)
      else (http 400, devices)

  unfoldable pub update_device : ℕ → DeviceUpdate → List Device → Reply Device × List Device
  unfolding get update
  update_device id body devices = update_device_found id body devices (get device_id id devices)

module _ (next_id : List Device → ℕ) (now profile : ℕ) where
  abbrev pub discovered_row : ℕ → DiscoveredDevice → Device
  discovered_row id d = record {
    id = id;
    mac = d.mac;
    name = d.hostname;
    profile_id = profile;
    bypass_proxy = false;
    ip = d.ip;
    vendor = d.vendor;
    last_seen_at = some now;
    created_at = now;
  }

  abbrev pub upsert_found :
      DiscoveredDevice → List Device → Option Device → DiscoverResponseItem × List Device
  upsert_found d devices (some existing) = (
    record { mac = d.mac; device_id = existing.id; created = false },
    update device_id existing.id (observed now d) devices,
  )
  upsert_found d devices none =
      let new = discovered_row (next_id devices) d in
      (record { mac = d.mac; device_id = new.id; created = true }, devices ++ (new ∷ []))

  -- One turn of the loop.
  unfoldable pub upsert_device : DiscoveredDevice → List Device → DiscoverResponseItem × List Device
  unfolding by_mac update
  upsert_device d devices = upsert_found d devices (by_mac d.mac devices)

  unfoldable pub discover_all :
      List DiscoveredDevice → List Device → List DiscoverResponseItem × List Device
  discover_all [] devices = ([], devices)
  discover_all (d ∷ ds) devices =
      let first = upsert_device d devices in
      let rest = discover_all ds first.1 in (first.0 ∷ rest.0, rest.1)

module _ {Float : Type 0} (profiles : List (Profile Float)) (next_id : List Device → ℕ)
    (default_name : Text) where
  abbrev pub discover_into :
      ℕ
      → List DiscoveredDevice
      → List Device
      → Option (Profile Float)
      → Reply (List DiscoverResponseItem) × List Device
  discover_into now ds devices none = (http 503, devices)
  discover_into now ds devices (some p) =
      let done = discover_all next_id now p.id ds devices in (ok done.0, done.1)

  unfoldable pub discover_devices :
      ℕ → List DiscoveredDevice → List Device → Reply (List DiscoverResponseItem) × List Device
  unfolding default_profile discover_all
  discover_devices now ds devices =
      discover_into now ds devices (default_profile default_name profiles)
