-- ===== src/Scanner.antt =====
-- The scanner service, services/scanner/src/seenoevil_scanner/scanner.py: the reading of nmap's
-- output, a scan, and the control plane that starts one. The matches of the two regular expressions
-- are parameters, as are what nmap prints and what the API answers.
pub mod Control
pub mod Config
mod Tests
use see_no_evil.Prelude.{
  ℕ, zero, suc, ◌+◌, Bool, true, false, not, ◌&&◌, Option, none, some, List, [], ◌∷◌, length, keep,
  if◌then◌else◌,
}
use see_no_evil.Text.{Text, codes, eqb, truthy, strip, lower, starts_with, drop, compare_digest}
use see_no_evil.Inventory.Devices.{DiscoveredDevice, DiscoverResponseItem}

-- The groups of `_RE_REPORT`, host and address, and of `_RE_MAC`, MAC and vendor, on a line.
pub record NmapLib : Type 0 where
  pub splitlines : Text → List Text
  pub report : Text → Option (Option Text × Text)
  pub mac : Text → Option (Text × Text)

abbrev some_text : Text → Option Text
some_text s = if truthy s then some s else none

-- `Discovered`, in the form in which the API reads it.
abbrev pub device_of : Text → Text → Text → Option Text → DiscoveredDevice
device_of mac vendor ip host = record {
  mac = lower mac;
  ip = some ip;
  hostname = host;
  vendor = some_text (strip vendor);
}

-- The pending address, with its host.
abbrev pub Pending : Type 0
Pending = Option (Text × Option Text)

module _ (lib : NmapLib) where
  abbrev pub on_mac : Option (Text × Text) → Pending → List DiscoveredDevice × Pending
  on_mac none pending = ([], pending)
  on_mac (some m) none = ([], none)
  on_mac (some (mac, vendor)) (some (ip, host)) = (device_of mac vendor ip host ∷ [], none)

  abbrev pub on_line :
      Text → Option (Option Text × Text) → Pending → List DiscoveredDevice × Pending
  on_line line (some (host, ip)) pending = ([], some (ip, host))
  on_line line none pending = on_mac (lib.mac line) pending

  abbrev pub join_devices : List DiscoveredDevice → List DiscoveredDevice → List DiscoveredDevice
  join_devices [] ds = ds
  join_devices (e ∷ es) ds = e ∷ join_devices es ds

  -- The loop over the lines.
  unfoldable pub read_lines : List Text → Pending → List DiscoveredDevice
  read_lines [] pending = []
  read_lines (line ∷ lines) pending =
      let step = on_line line (lib.report line) pending in
      join_devices step.0 (read_lines lines step.1)

  unfoldable pub parse_nmap_output : Text → List DiscoveredDevice
  unfolding read_lines
  parse_nmap_output text = read_lines (lib.splitlines text) none

-- What nmap does, and what the API answers to a report.
pub data Sweep : Type 0 where
  printed : Text → Sweep
  timed_out crashed : Sweep

pub data Answer : Type 0 where
  accepted : List DiscoverResponseItem → Answer
  http_error broken : Answer

pub data ScanResult : Type 0 where
  found : ℕ → ℕ → ScanResult
  scan_busy nmap_timed_out report_failed scan_failed : ScanResult

abbrev pub is_ok : ScanResult → Bool
is_ok (found n created) = true
is_ok _ = false

module _ (lib : NmapLib) (api : List DiscoveredDevice → Answer) where
  abbrev pub answered : ℕ → Answer → ScanResult
  answered n (accepted items) = found n (length (keep (λ i. i.created) items))
  answered n http_error = report_failed
  answered n broken = scan_failed

  -- Nothing is reported where nothing was found.
  abbrev pub reported : List DiscoveredDevice → ScanResult
  reported [] = found 0 0
  reported (d ∷ ds) = answered (length (d ∷ ds)) (api (d ∷ ds))

  -- `perform_scan` once it holds the lock.
  unfoldable pub scan : Sweep → ScanResult
  unfolding parse_nmap_output
  scan (printed text) = reported (parse_nmap_output lib text)
  scan timed_out = nmap_timed_out
  scan crashed = scan_failed

  -- A scan while another one runs is refused at once.
  unfoldable pub perform_scan : Bool → Sweep → ScanResult
  unfolding scan
  perform_scan locked sweep = let result = scan sweep in if locked then scan_busy else result

-- `_check_auth`: the first token that is set, the configuration's last.
unfoldable pub expected_token : List (Option Text) → Option Text
expected_token [] = none
expected_token (none ∷ rest) = expected_token rest
expected_token (some token ∷ rest) = if truthy token then some token else expected_token rest

pub record Headers : Type 0 where
  pub authorization : Text
  pub scanner_token : Text

unfoldable pub provided_token : Headers → Text
unfolding starts_with strip
provided_token headers =
    if starts_with (codes "Bearer ") headers.authorization
    then strip (drop 7 headers.authorization)
    else if truthy headers.scanner_token
    then strip headers.scanner_token
    else []

-- `none` is the `TypeError` of the comparison.
abbrev pub matches : Text → Option Text → Option Bool
matches provided none = some false
matches provided (some expected) =
    if truthy provided then compare_digest provided expected else some false

unfoldable pub check_auth : List (Option Text) → Headers → Option Bool
unfolding expected_token provided_token compare_digest
check_auth tokens headers = matches (provided_token headers) (expected_token tokens)
