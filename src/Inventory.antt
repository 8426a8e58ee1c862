-- ===== src/Inventory.antt =====
-- The profiles and the devices, services/api/src/seenoevil_api/routers/profiles.py and
-- routers/devices.py. Bodies have passed their validators, with MACs in normal form. `next_id` gives
-- the id of a new row; a constraint of the tables that is broken at the commit is `IntegrityError`.
pub mod Devices
pub mod Profiles
pub mod Tables
pub mod Kept
pub mod Referred
pub mod Integrity
pub mod Seen
mod Tests
use see_no_evil.Prelude.{ℕ, Bool, true, false, not, ◌&&◌, Option, none, some, List, [], ◌∷◌}

-- A field of a body that may be left out or be null.
abbrev pub Field {ℓ} : Type ℓ → Type ℓ
Field A = Option (Option A)

-- A column that must not be null, after `setattr`; `none` breaks the constraint.
abbrev pub set_field {ℓ} : {A : Type ℓ} → Field A → A → Option A
set_field none a = some a
set_field (some none) a = none
set_field (some (some b)) a = some b

-- A column that may be null.
abbrev pub set_nullable {ℓ} : {A : Type ℓ} → Field A → Option A → Option A
set_nullable none a = a
set_nullable (some b) a = b
