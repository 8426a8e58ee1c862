-- ===== src/Inventory/Integrity.antt =====
-- The two tables over any requests of administrators and of the scanner.
use see_no_evil.Prelude.{ℕ, List, [], ◌∷◌}
use see_no_evil.Text.{Text}
use see_no_evil.Models.{Device, Profile}
use see_no_evil.Inventory.Devices.{
  DeviceCreate, DeviceUpdate, DiscoveredDevice, create_device, update_device, delete_device,
  discover_devices,
}
use see_no_evil.Inventory.Profiles.{ProfileUpdate, create_profile, update_profile, delete_profile}
use see_no_evil.Inventory.Kept.{
  IsWell, create_device-IsWell, update_device-IsWell, delete_device-IsWell, discover_devices-IsWell,
}
use see_no_evil.Inventory.Referred.{
  create_profile-HasProfiles, update_profile-HasProfiles, delete_profile-HasProfiles,
}

module _ (Float : Type 0) where
  -- A request that changes one of the two tables, with the ids and the time of its new rows.
  pub data Request : Type 0 where
    device_created : ℕ → ℕ → DeviceCreate → Request
    device_updated : ℕ → DeviceUpdate → Request
    device_deleted : ℕ → Request
    discovered : ℕ → List DiscoveredDevice → Request
    profile_created : Profile Float → Request
    profile_updated : ℕ → ProfileUpdate Float → Request
    profile_deleted : ℕ → Request

module _ {Float : Type 0} (next_id : List Device → ℕ) (default_name : Text) where
  abbrev pub handle :
      Request Float → List (Profile Float) × List Device → List (Profile Float) × List Device
  handle (device_created now id body) (profiles, devices) =
      (profiles, (create_device profiles now id body devices).1)
  handle (device_updated id body) (profiles, devices) =
      (profiles, (update_device profiles id body devices).1)
  handle (device_deleted id) (profiles, devices) = (profiles, (delete_device id devices).1)
  handle (discovered now ds) (profiles, devices) =
      (profiles, (discover_devices profiles next_id default_name now ds devices).1)
  handle (profile_created new) (profiles, devices) = ((create_profile new profiles).1, devices)
  handle (profile_updated id body) (profiles, devices) =
      ((update_profile id body profiles).1, devices)
  handle (profile_deleted id) (profiles, devices) =
      ((delete_profile id devices profiles).1, devices)

  unfoldable pub serve :
      List (Request Float) → List (Profile Float) × List Device → List (Profile Float) × List Device
  serve [] tables = tables
  serve (r ∷ rest) tables = serve rest (handle r tables)

  handle-IsWell :
      (r : Request Float) (profiles : List (Profile Float)) (devices : List Device)
      → IsWell profiles devices
      → IsWell (handle r (profiles, devices)).0 (handle r (profiles, devices)).1
  handle-IsWell (device_created now id body) profiles devices well =
      create_device-IsWell profiles now id body devices well
  handle-IsWell (device_updated id body) profiles devices well =
      update_device-IsWell profiles id body devices well
  handle-IsWell (device_deleted id) profiles devices well =
      delete_device-IsWell profiles id devices well
  handle-IsWell (discovered now ds) profiles devices well =
      discover_devices-IsWell profiles next_id default_name now ds devices well
  handle-IsWell (profile_created new) profiles devices (macs, refs) =
      (macs, create_profile-HasProfiles new profiles devices refs)
  handle-IsWell (profile_updated id body) profiles devices (macs, refs) =
      (macs, update_profile-HasProfiles id body profiles devices refs)
  handle-IsWell (profile_deleted id) profiles devices (macs, refs) =
      (macs, delete_profile-HasProfiles id profiles devices refs)

  -- Where no two devices have one MAC and each has its profile, that is so after any requests to
  -- create, change or delete devices and profiles and any reports of the scanner.
  pub serve-IsWell :
      (requests : List (Request Float)) (profiles : List (Profile Float)) (devices : List Device)
      → IsWell profiles devices
      → IsWell (serve requests (profiles, devices)).0 (serve requests (profiles, devices)).1
  unfolding serve
  serve-IsWell [] profiles devices well = well
  serve-IsWell (r ∷ rest) profiles devices well =
      serve-IsWell rest (handle r (profiles, devices)).0 (handle r (profiles, devices)).1
        (handle-IsWell r profiles devices well)
