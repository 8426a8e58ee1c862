-- ===== src/Quota/Ledger.antt =====
-- The table of quotas is a ledger: minutes by device and day.
use see_no_evil.Prelude.{
  ℕ, ◌+◌, ◌≡◌, refl, ap, ◌∙◌, ◌&&◌, Option, none, some, List, [], ◌∷◌, ◌==◌, if◌then◌else◌, arith,
}
use mathlib.Core.Path.{fun_ext}
use see_no_evil.Models.{Device, Profile, Quota}
use see_no_evil.Table.{get}
use see_no_evil.Decide.{Commit, committed, busy, failed, minutes_used_today}
use see_no_evil.Decide.Devices.{device_id, resolve_device}
use see_no_evil.Quota.{
  QuotaHeartbeat, row_of, minutes_of, upsert, clear_row, or_today, beat, heartbeat, cleared,
  reset_quota,
}

-- The abstract view: how many minutes a device has used on a day.
abbrev pub Ledger : Type 0
Ledger = ℕ → ℕ → ℕ

abbrev pub ledger : List Quota → Ledger
ledger quotas device day = minutes_of (row_of device day quotas)

abbrev pub set_minutes : ℕ → ℕ → ℕ → Ledger → Ledger
set_minutes device day minutes l device' day' =
    if device == device' && day == day' then minutes else l device' day'

-- The requests that change the table, with today's date at each.
pub data Request : Type 0 where
  beat_with : Commit → QuotaHeartbeat → Request
  reset_of : ℕ → Option ℕ → Request

ledger-upsert :
    (device day minutes device' day' : ℕ) (quotas : List Quota)
    → ledger (upsert device day minutes quotas) device' day'
      ≡ set_minutes device day (ledger quotas device day + minutes) (ledger quotas) device' day'
unfolding upsert row_of
ledger-upsert device day minutes device' day' [] = ground arith
ledger-upsert device day minutes device' day' (q ∷ quotas) =
    ground (arith, ledger-upsert device day minutes device' day' quotas)

ledger-clear_row :
    (device day device' day' : ℕ) (quotas : List Quota)
    → ledger (clear_row device day quotas) device' day'
      ≡ set_minutes device day 0 (ledger quotas) device' day'
unfolding clear_row row_of
ledger-clear_row device day device' day' [] = ground arith
ledger-clear_row device day device' day' (q ∷ quotas) =
    ground (arith, ledger-clear_row device day device' day' quotas)

-- What the decision reads is the ledger.
pub minutes_used_today-ledger :
    (d : Device) (today : ℕ) (quotas : List Quota)
    → minutes_used_today (some d) today quotas ≡ ledger quotas d.id today
unfolding minutes_used_today row_of
minutes_used_today-ledger d today quotas = refl

module _ {Float : Type 0} (profiles : List (Profile Float)) (devices : List Device) where
  abbrev pub handle : ℕ → Request → List Quota → List Quota
  handle today (beat_with commit body) quotas =
      (heartbeat profiles devices commit today body quotas).1
  handle today (reset_of id day) quotas = (reset_quota profiles devices today id day quotas).1

  unfoldable pub serve : List (ℕ × Request) → List Quota → List Quota
  serve [] quotas = quotas
  serve ((today, r) ∷ rest) quotas = serve rest (handle today r quotas)

abbrev pub add_minutes : ℕ → ℕ → Option Device → Ledger → Ledger
add_minutes today minutes none l = l
add_minutes today minutes (some d) l = set_minutes d.id today (l d.id today + minutes) l

abbrev pub reset_minutes : ℕ → Option Device → Ledger → Ledger
reset_minutes day none l = l
reset_minutes day (some d) l = set_minutes d.id day 0 l

abbrev pub beat_meaning : Commit → ℕ → ℕ → Option Device → Ledger → Ledger
beat_meaning committed today minutes o l = add_minutes today minutes o l
beat_meaning busy today minutes o l = l
beat_meaning failed today minutes o l = l

module _ (devices : List Device) where
  -- What a request means: a heartbeat that is committed adds its minutes to the device that it names,
  -- a reset sets a day to nothing, and nothing else changes the ledger.
  abbrev pub meaning : ℕ → Request → Ledger → Ledger
  meaning today (beat_with commit body) l =
      beat_meaning commit today body.minutes
        (resolve_device body.device_id body.client_ip body.device_mac devices) l
  meaning today (reset_of id day) l =
      reset_minutes (or_today today day) (get device_id id devices) l

  unfoldable pub replay : List (ℕ × Request) → Ledger → Ledger
  replay [] l = l
  replay ((today, r) ∷ rest) l = replay rest (meaning today r l)

module _ {Float : Type 0} (profiles : List (Profile Float)) (devices : List Device) where
  beat-ledger :
      (commit : Commit) (today minutes : ℕ) (quotas : List Quota) (o : Option Device)
      → ledger (beat profiles devices commit today minutes quotas o).1
        ≡ beat_meaning commit today minutes o (ledger quotas)
  beat-ledger committed today minutes quotas none = refl
  beat-ledger committed today minutes quotas (some d) =
      fun_ext (λ device'. fun_ext (λ day'. ledger-upsert d.id today minutes device' day' quotas))
  beat-ledger busy today minutes quotas none = refl
  beat-ledger busy today minutes quotas (some d) = refl
  beat-ledger failed today minutes quotas none = refl
  beat-ledger failed today minutes quotas (some d) = refl

  cleared-ledger :
      (day : ℕ) (quotas : List Quota) (o : Option Device)
      → ledger (cleared profiles devices day quotas o).1 ≡ reset_minutes day o (ledger quotas)
  cleared-ledger day quotas none = refl
  cleared-ledger day quotas (some d) =
      fun_ext (λ device'. fun_ext (λ day'. ledger-clear_row d.id day device' day' quotas))

  handle-ledger :
      (today : ℕ) (r : Request) (quotas : List Quota)
      → ledger (handle profiles devices today r quotas) ≡ meaning devices today r (ledger quotas)
  unfolding heartbeat reset_quota
  handle-ledger today (beat_with commit body) quotas =
      beat-ledger commit today body.minutes quotas
        (resolve_device body.device_id body.client_ip body.device_mac devices)
  handle-ledger today (reset_of id day) quotas =
      cleared-ledger (or_today today day) quotas (get device_id id devices)

  serve-replay :
      (requests : List (ℕ × Request)) (quotas : List Quota)
      → ledger (serve profiles devices requests quotas) ≡ replay devices requests (ledger quotas)
  unfolding serve replay
  serve-replay [] quotas = refl
  serve-replay ((today, r) ∷ rest) quotas =
      serve-replay rest (handle profiles devices today r quotas)
      ∙ ap (replay devices rest) (handle-ledger today r quotas)

  -- The minutes that a decision counts for a device on a day, after any heartbeats and resets, are
  -- those of the ledger in which every committed heartbeat adds its minutes to the device that it
  -- names, every reset sets its day to nothing, and all other requests change nothing.
  pub minutes_used_today-serve :
      (requests : List (ℕ × Request)) (quotas : List Quota) (d : Device) (today : ℕ)
      → minutes_used_today (some d) today (serve profiles devices requests quotas)
        ≡ replay devices requests (ledger quotas) d.id today
  minutes_used_today-serve requests quotas d today =
      minutes_used_today-ledger d today (serve profiles devices requests quotas)
      ∙ ap (λ l. l d.id today) (serve-replay requests quotas)
