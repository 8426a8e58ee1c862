-- ===== src/Quota.antt =====
-- Quota accounting, services/api/src/seenoevil_api/routers/quota.py. Today's date in the pod's time
-- zone, quota_day.py, is an argument; so is what the commit does.
pub mod Ledger
mod Tests
use see_no_evil.Prelude.{
  ℕ, ◌+◌, Bool, true, false, ◌&&◌, Option, none, some, List, [], ◌∷◌, first, ◌==◌, if◌then◌else◌,
}
use see_no_evil.Text.{Text}
use see_no_evil.Text.Number.{ℤ}
use see_no_evil.Http.{Reply, ok, http}
use see_no_evil.Models.{Device, Profile, Quota}
use see_no_evil.Table.{get}
use see_no_evil.Decide.{Commit, committed, busy, failed, profile_id}
use see_no_evil.Decide.Devices.{device_id, resolve_device}

-- `QuotaHeartbeat`, with its MAC in normal form.
pub record QuotaHeartbeat : Type 0 where
  pub device_mac : Option Text
  pub device_id : Option ℕ
  pub client_ip : Option Text
  pub minutes : ℕ

pub record QuotaStatus : Type 0 where
  pub device_id : ℕ
  pub day : ℕ
  pub minutes_used : ℕ
  pub minutes_quota : ℤ

abbrev pub is_row : ℕ → ℕ → Quota → Bool
is_row device day q = q.device_id == device && q.day == day

unfoldable pub row_of : ℕ → ℕ → List Quota → Option Quota
row_of device day quotas = first (is_row device day) quotas

abbrev pub minutes_of : Option Quota → ℕ
minutes_of none = 0
minutes_of (some q) = q.minutes_used

-- `INSERT … ON CONFLICT (device_id, day) DO UPDATE`.
unfoldable pub upsert : ℕ → ℕ → ℕ → List Quota → List Quota
upsert device day minutes [] = record { device_id = device; day = day; minutes_used = minutes } ∷ []
upsert device day minutes (q ∷ quotas) =
    if is_row device day q
    then record q { minutes_used = q.minutes_used + minutes } ∷ quotas
    else q ∷ upsert device day minutes quotas

-- `row.minutes_used = 0`, where there is a row.
unfoldable pub clear_row : ℕ → ℕ → List Quota → List Quota
clear_row device day [] = []
clear_row device day (q ∷ quotas) =
    if is_row device day q
    then record q { minutes_used = 0 } ∷ quotas
    else q ∷ clear_row device day quotas

abbrev pub or_today : ℕ → Option ℕ → ℕ
or_today today none = today
or_today today (some day) = day

module _ {Float : Type 0} (profiles : List (Profile Float)) (devices : List Device) where
  -- The reply, of the row that was read and the device's profile.
  abbrev pub status_of : ℕ → ℕ → Device → Option (Profile Float) → Reply QuotaStatus
  status_of day used device none = http 500
  status_of day used device (some p) = ok (record {
    device_id = device.id;
    day = day;
    minutes_used = used;
    minutes_quota = p.quota_minutes_per_day;
  })

  abbrev pub status_read : ℕ → Device → List Quota → Reply QuotaStatus
  status_read day device quotas =
      status_of day (minutes_of (row_of device.id day quotas)) device
        (get profile_id device.profile_id profiles)

  -- A busy data base is 503 and changes nothing; any other failure is uncaught.
  abbrev pub beat : Commit → ℕ → ℕ → List Quota → Option Device → Reply QuotaStatus × List Quota
  beat commit today minutes quotas none = (http 404, quotas)
  beat committed today minutes quotas (some d) =
      let quotas' = upsert d.id today minutes quotas in (status_read today d quotas', quotas')
  beat busy today minutes quotas (some d) = (http 503, quotas)
  beat failed today minutes quotas (some d) = (http 500, quotas)

  unfoldable pub heartbeat :
      Commit → ℕ → QuotaHeartbeat → List Quota → Reply QuotaStatus × List Quota
  unfolding upsert row_of
  heartbeat commit today body quotas =
      beat commit today body.minutes quotas
        (resolve_device body.device_id body.client_ip body.device_mac devices)

  abbrev pub quota_read : ℕ → List Quota → Option Device → Reply QuotaStatus
  quota_read day quotas none = http 404
  quota_read day quotas (some d) = status_read day d quotas

  unfoldable pub get_quota : ℕ → ℕ → Option ℕ → List Quota → Reply QuotaStatus
  unfolding row_of
  get_quota today id day quotas = quota_read (or_today today day) quotas (get device_id id devices)

  abbrev pub cleared : ℕ → List Quota → Option Device → Reply (Unit {0}) × List Quota
  cleared day quotas none = (http 404, quotas)
  cleared day quotas (some d) = (ok tt, clear_row d.id day quotas)

  unfoldable pub reset_quota : ℕ → ℕ → Option ℕ → List Quota → Reply (Unit {0}) × List Quota
  unfolding clear_row
  reset_quota today id day quotas = cleared (or_today today day) quotas (get device_id id devices)
