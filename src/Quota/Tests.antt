-- ===== src/Quota/Tests.antt =====
-- Quotas of one device over a few requests.
use see_no_evil.Prelude.{ℕ, ◌≡◌, refl, false, none, some, List, [], ◌∷◌}
use see_no_evil.Text.{codes}
use see_no_evil.Models.{Device, Profile}
use see_no_evil.Table.{get}
use see_no_evil.Decide.{committed, busy, minutes_used_today}
use see_no_evil.Decide.Devices.{resolve_device}
use see_no_evil.Quota.{QuotaHeartbeat, heartbeat, reset_quota, upsert, clear_row, row_of}
use see_no_evil.Quota.Ledger.{
  ledger, Request, beat_with, reset_of, serve, replay, minutes_used_today-serve,
}

abbrev phone : Device
phone = record {
  id = 7;
  mac = codes "aa:bb:cc:dd:ee:ff";
  name = none;
  profile_id = 1;
  bypass_proxy = false;
  ip = some (codes "192.168.1.20");
  vendor = none;
  last_seen_at = none;
  created_at = 0;
}

abbrev minutes : ℕ → QuotaHeartbeat
minutes n = record { device_mac = none; device_id = some 7; client_ip = none; minutes = n }

abbrev profiles : List (Profile ℕ)
profiles = []

abbrev requests : List (ℕ × Request)
requests =
    (1, beat_with committed (minutes 3))
    ∷ (2, beat_with committed (minutes 4))
    ∷ (2, beat_with busy (minutes 9))
    ∷ (2, beat_with committed (minutes 1))
    ∷ (2, reset_of 7 (some 1))
    ∷ []

served_tests :
    (minutes_used_today (some phone) 1 (serve profiles (phone ∷ []) requests []) ≡ 0)
    × (minutes_used_today (some phone) 2 (serve profiles (phone ∷ []) requests []) ≡ 5)
unfolding serve heartbeat reset_quota upsert clear_row row_of get resolve_device minutes_used_today
served_tests = (refl, refl)

minutes_used_today-serve_example :
    minutes_used_today (some phone) 2 (serve profiles (phone ∷ []) requests [])
    ≡ replay (phone ∷ []) requests (ledger []) 7 2
minutes_used_today-serve_example =
    minutes_used_today-serve profiles (phone ∷ []) requests [] phone 2
