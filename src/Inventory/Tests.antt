-- ===== src/Inventory/Tests.antt =====
-- A household with one profile and one device.
use see_no_evil.Prelude.{ℕ, suc, ◌≡◌, refl, false, none, some, List, [], ◌∷◌, length}
use see_no_evil.Text.{Text, codes}
use see_no_evil.Text.Number.{pos}
use see_no_evil.Http.{http}
use see_no_evil.Models.{Device, Profile}
use see_no_evil.Table.{get}
use see_no_evil.Decide.Devices.{by_mac}
use see_no_evil.Inventory.Devices.{DeviceUpdate, DiscoveredDevice, update_device, discover_devices}
use see_no_evil.Inventory.Kept.{IsWell}
use see_no_evil.Inventory.Integrity.{
  device_updated, discovered, profile_deleted, serve, serve-IsWell,
}
use see_no_evil.Inventory.Seen.{StillSeen, discover_devices-StillSeen}

abbrev child : Profile ℕ
child = record {
  id = 1;
  name = codes "child";
  image_thresholds = [];
  schedule = [];
  quota_minutes_per_day = pos 0;
  allow_domains = [];
  enforce_allowlist = false;
  deny_domains = [];
  deny_url_keywords = [];
  allow_youtube_channels = [];
  deny_youtube_channels = [];
}

abbrev phone : Device
phone = record {
  id = 1;
  mac = codes "aa:bb:cc:dd:ee:ff";
  name = some (codes "phone");
  profile_id = 1;
  bypass_proxy = false;
  ip = none;
  vendor = none;
  last_seen_at = none;
  created_at = 0;
}

abbrev seen_on : Text → DiscoveredDevice
seen_on mac = record {
  mac = mac;
  ip = some (codes "192.168.1.9");
  hostname = some (codes "host");
  vendor = none;
}

abbrev next_id : List Device → ℕ
next_id devices = suc (length devices)

abbrev report : List DiscoveredDevice
report = seen_on (codes "aa:bb:cc:dd:ee:ff") ∷ seen_on (codes "02:00:00:00:00:01") ∷ []

-- A null for a column that must not be null.
abbrev null_bypass : DeviceUpdate
null_bypass = record { name = none; profile_id = none; bypass_proxy = some none }

null_bypass_tests : (update_device (child ∷ []) 1 null_bypass (phone ∷ [])).0 ≡ http 500
unfolding update_device get
null_bypass_tests = refl

serve-IsWell_example :
    IsWell
      (serve next_id
        (codes "child")
        (discovered 7 report ∷ device_updated 1 null_bypass ∷ profile_deleted 1 ∷ [])
        (child ∷ [], phone ∷ [])).0
      (serve next_id
        (codes "child")
        (discovered 7 report ∷ device_updated 1 null_bypass ∷ profile_deleted 1 ∷ [])
        (child ∷ [], phone ∷ [])).1
unfolding by_mac get
serve-IsWell_example =
    serve-IsWell next_id (codes "child")
      (discovered 7 report ∷ device_updated 1 null_bypass ∷ profile_deleted 1 ∷ []) (child ∷ [])
      (phone ∷ []) ((refl, tt), (refl, tt))

discover_devices-StillSeen_example :
    StillSeen 1 phone
      (discover_devices (child ∷ []) next_id (codes "child") 7 report (phone ∷ [])).1
unfolding get
discover_devices-StillSeen_example =
    discover_devices-StillSeen (child ∷ []) next_id (codes "child") 7 report (phone ∷ []) 1 phone
      refl
