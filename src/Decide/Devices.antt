-- ===== src/Decide/Devices.antt =====
-- How a request of the proxy finds its device, or makes one: `_resolve_device`,
-- `_synthetic_mac_from_ip` and `_auto_create_device` of
-- services/api/src/seenoevil_api/routers/decide.py. The handler runs alone on the data base, so
-- that its branches for a failing flush or count are not reached.
pub mod Macs
pub mod Distinct
pub mod Created
use see_no_evil.Prelude.{
  ℕ, zero, suc, ◌+◌, ◌-◌, ◌/◌, ◌%◌, Bool, true, false, not, ◌&&◌, Option, none, some, List, [], ◌∷◌,
  ◌++◌, map, keep, length, first, reverse, leb, ltb, ◌==◌, if◌then◌else◌,
}
use see_no_evil.Text.{Text, codes, eqb, truthy, split}
use see_no_evil.Text.Number.{ℤ, pos, negsuc, int}
use see_no_evil.Models.{Device}
use see_no_evil.Table.{get, update}
use see_no_evil.Auth.Settings.{given}

abbrev pub device_id : Device → ℕ
device_id d = d.id

abbrev pub has_ip : Text → Device → Bool
has_ip ip d = elim d.ip [ none ↦ false | some own ↦ eqb own ip ]

abbrev pub has_mac : Text → Device → Bool
has_mac mac d = eqb d.mac mac

unfoldable pub by_ip : Text → List Device → Option Device
by_ip ip devices = first (has_ip ip) devices

unfoldable pub by_mac : Text → List Device → Option Device
by_mac mac devices = first (has_mac mac) devices

abbrev pub given_by :
    (Text → List Device → Option Device) → Option Text → List Device → Option Device
given_by search none devices = none
given_by search (some value) devices = if truthy value then search value devices else none

-- The id decides alone where it is given, else the source address, else the MAC.
unfoldable pub resolve_device : Option ℕ → Option Text → Option Text → List Device → Option Device
resolve_device (some id) client_ip mac devices = get device_id id devices
resolve_device none client_ip mac devices =
    if given client_ip then given_by by_ip client_ip devices else given_by by_mac mac devices

abbrev pub octet_of : Option ℤ → Option ℕ
octet_of none = none
octet_of (some (negsuc n)) = none
octet_of (some (pos n)) = if leb n 255 then some n else none

abbrev pub hex_digit : ℕ → ℕ
hex_digit n = if ltb n 10 then b'0' + n else b'a' + (n - 10)

-- `f"{n:02x}"` of an octet, after a colon.
unfoldable pub hex : ℕ → Text
hex n = b':' ∷ hex_digit (n / 16) ∷ hex_digit (n % 16) ∷ []

infixl 5 ◌>>=◌
abbrev ◌>>=◌ : {A B : Type 0} → Option A → (A → Option B) → Option B
none >>= k = none
some a >>= k = k a

-- The four numbers of an IPv4 address.
unfoldable pub octets : Text → Option (ℕ × (ℕ × (ℕ × ℕ)))
unfolding int split
octets ip = elim (split b'.' ip) [
  | a ∷ b ∷ c ∷ d ∷ [] ↦ do
    i ← octet_of (int a)
    j ← octet_of (int b)
    k ← octet_of (int c)
    l ← octet_of (int d)
    some (i, (j, (k, l)))
  | _ ↦ none
]

abbrev pub mac_of : Option (ℕ × (ℕ × (ℕ × ℕ))) → Option Text
mac_of none = none
mac_of (some (i, (j, (k, l)))) = some (codes "02:00" ++ (hex i ++ (hex j ++ (hex k ++ hex l))))

unfoldable pub synthetic_mac_from_ip : Text → Option Text
unfolding hex
synthetic_mac_from_ip ip = mac_of (octets ip)

abbrev pub upper_char : ℕ → ℕ
upper_char c = if leb 97 c && leb c 122 then c - 32 else c

abbrev pub take_first : ℕ → Text → Text
take_first zero s = []
take_first (suc n) [] = []
take_first (suc n) (c ∷ s) = c ∷ take_first n s

-- `mac.replace(":", "")[-6:].upper()`.
unfoldable pub suffix_of : Text → Text
suffix_of mac = map upper_char (reverse (take_first 6 (reverse (keep (λ c. not (c == b':')) mac))))

unfoldable pub device_name : Option Text → Option Text → Text
unfolding suffix_of
device_name (some mac) ip = codes "auto-" ++ suffix_of mac
device_name none (some ip) = codes "auto-" ++ ip
device_name none none = codes "auto-device"

-- One hour.
abbrev pub hour : ℕ
hour = 3600000000

abbrev pub is_recent : ℕ → Device → Bool
is_recent now d = leb now (d.created_at + hour)

unfoldable pub recent_count : ℕ → List Device → ℕ
recent_count now devices = length (keep (is_recent now) devices)

-- The row that is seen again, at the address of the request where there is one.
abbrev pub seen : ℕ → Option Text → Device → Device
seen now none d = record d { last_seen_at = some now }
seen now (some ip) d = record d {
  last_seen_at = some now;
  ip = if truthy ip then some ip else d.ip;
}

abbrev pub seen_again : ℕ → Option Text → List Device → Device → Option Device × List Device
seen_again now ip devices d = (some (seen now ip d), update device_id d.id (seen now ip) devices)

abbrev pub new_device : ℕ → ℕ → Option Text → Option Text → Text → ℕ → Device
new_device now fresh_id mac ip seed profile_id = record {
  id = fresh_id;
  mac = seed;
  name = some (device_name mac ip);
  profile_id = profile_id;
  bypass_proxy = false;
  ip = ip;
  vendor = none;
  last_seen_at = some now;
  created_at = now;
}

abbrev pub seed_mac : Option Text → Option Text → Option Text
seed_mac (some mac) ip = some mac
seed_mac none (some ip) = if truthy ip then synthetic_mac_from_ip ip else none
seed_mac none none = none

-- No row has the seed: at most 21 rows may be younger than an hour.
abbrev pub create_device :
    ℕ → ℕ → Option Text → Option Text → Text → ℕ → List Device → Option Device × List Device
create_device now fresh_id mac ip seed profile_id devices =
    if ltb 20 (recent_count now devices)
    then (none, devices)
    else let new = new_device now fresh_id mac ip seed profile_id in
      (some new, devices ++ (new ∷ []))

abbrev pub mac_found :
    ℕ
    → ℕ
    → Option Text
    → Option Text
    → Text
    → ℕ
    → List Device
    → Option Device
    → Option Device × List Device
mac_found now fresh_id mac ip seed profile_id devices (some d) = seen_again now ip devices d
mac_found now fresh_id mac ip seed profile_id devices none =
    create_device now fresh_id mac ip seed profile_id devices

abbrev pub seeded :
    ℕ → ℕ → Option Text → Option Text → ℕ → List Device → Option Text → Option Device × List Device
seeded now fresh_id mac ip profile_id devices none = (none, devices)
seeded now fresh_id mac ip profile_id devices (some seed) =
    mac_found now fresh_id mac ip seed profile_id devices (by_mac seed devices)

abbrev pub ip_found :
    ℕ
    → ℕ
    → Option Text
    → Option Text
    → ℕ
    → List Device
    → Option Device
    → Option Device × List Device
ip_found now fresh_id mac ip profile_id devices (some d) = seen_again now ip devices d
ip_found now fresh_id mac ip profile_id devices none =
    seeded now fresh_id mac ip profile_id devices (seed_mac mac ip)

-- The reported MAC is not empty where there is one.
unfoldable pub auto_create_device :
    ℕ → ℕ → Option Text → Option Text → ℕ → List Device → Option Device × List Device
unfolding synthetic_mac_from_ip recent_count device_name
auto_create_device now fresh_id mac ip profile_id devices =
    ip_found now fresh_id mac ip profile_id devices (given_by by_ip ip devices)
