-- ===== src/Panic.antt =====
-- Panic-relax, services/api/src/seenoevil_api/panic.py: the row of the settings table and how it is
-- read. The calls of `datetime` that write and read a time are parameters.
mod Tests
use see_no_evil.Prelude.{
  ℕ, ◌+◌, ◌*◌, ◌≡◌, refl, ◌≤◌, ◌<◌, inl, inr, ◌↔◌, Bool, true, false, not, Option, none, some, List,
  [], ◌∷◌, leb, if◌then◌else◌, Bool-cases, arith,
}
use see_no_evil.Text.{Text, codes, truthy}
use see_no_evil.Auth.Settings.{given}

-- `datetime.isoformat` and `fromisoformat`, which raises `ValueError`.
pub record TimeLib : Type 0 where
  pub isoformat : ℕ → Text
  pub fromisoformat : Text → Option ℕ
  pub fromisoformat-isoformat : (t : ℕ) → fromisoformat (isoformat t) ≡ some t
  pub truthy-isoformat : (t : ℕ) → truthy (isoformat t) ≡ true

-- The stored JSON object; a key that is missing or null is `none`.
pub record Payload : Type 0 where
  pub active : Bool
  pub until : Option Text
  pub reason : Option Text
  pub set_by : Option Text
  pub set_at : Option Text

pub record PanicState : Type 0 where
  pub active : Bool
  pub until : Option ℕ
  pub reason : Text
  pub set_by : Option Text
  pub set_at : Option ℕ

abbrev pub inactive : PanicState
inactive = record { active = false; until = none; reason = []; set_by = none; set_at = none }

abbrev pub text_or_empty : Option Text → Text
text_or_empty none = []
text_or_empty (some s) = s

-- One minute.
abbrev pub minute : ℕ
minute = 60000000

-- `until is not None and until <= now`.
abbrev pub has_passed : ℕ → Option ℕ → Bool
has_passed now none = false
has_passed now (some until) = leb until now

module _ (lib : TimeLib) where
  -- `datetime.fromisoformat(s) if s else None`; the outer `none` is an exception.
  abbrev pub time_of : Option Text → Option (Option ℕ)
  time_of none = some none
  time_of (some s) =
      if truthy s
      then elim (lib.fromisoformat s) [ none ↦ none | some t ↦ some (some t) ]
      else some none

  abbrev pub with_set_at : Payload → Option ℕ → Option (Option ℕ) → Option PanicState
  with_set_at value until none = none
  with_set_at value until (some set_at) = some (record {
    active = true;
    until = until;
    reason = text_or_empty value.reason;
    set_by = value.set_by;
    set_at = set_at;
  })

  abbrev pub with_until : ℕ → Payload → Option (Option ℕ) → Option PanicState
  with_until now value none = none
  with_until now value (some until) =
      if has_passed now until then some inactive else with_set_at value until (time_of value.set_at)

  abbrev pub parse_payload : ℕ → Payload → Option PanicState
  parse_payload now value =
      if value.active then with_until now value (time_of value.until) else some inactive

  -- `_parse`; `none` is an exception.
  unfoldable pub parse : ℕ → Option Payload → Option PanicState
  parse now none = some inactive
  parse now (some value) = parse_payload now value

  -- The row that `set_active` writes, whatever stood there.
  unfoldable pub set_active : ℕ → ℕ → Text → Text → Option Payload → Option Payload
  set_active now duration_minutes reason set_by row = some (record {
    active = true;
    until = some (lib.isoformat (now + duration_minutes * minute));
    reason = some reason;
    set_by = some set_by;
    set_at = some (lib.isoformat now);
  })

  unfoldable pub clear : Option Payload → Option Payload
  clear none = none
  clear (some row) =
      some (record { active = false; until = none; reason = none; set_by = none; set_at = none })

  -- After panic-relax was set for some minutes, reading the state never raises, and it is active
  -- exactly before the minutes have passed.
  pub parse-set_active :
      (now later duration_minutes : ℕ) (reason set_by : Text) (row : Option Payload)
      → (state : PanicState) × (parse later (set_active now duration_minutes reason set_by row)
          ≡ some state)
        × ((state.active ≡ true) ↔ (later < now + duration_minutes * minute))
  unfolding parse set_active
  parse-set_active now later duration_minutes reason set_by row =
      let end = now + duration_minutes * minute in
      elim (Bool-cases (leb end later)) [
        | inl passed ↦ (
          inactive,
          rw (lib.truthy-isoformat end, lib.fromisoformat-isoformat end, passed) refl,
          (λ e. cc, λ l. absurd (ground arith)),
        )
        | inr running ↦ (
          record {
            active = true;
            until = some end;
            reason = reason;
            set_by = some set_by;
            set_at = some now;
          },
          rw
              (
                lib.truthy-isoformat end,
                lib.fromisoformat-isoformat end,
                running,
                lib.truthy-isoformat now,
                lib.fromisoformat-isoformat now,
              )
              refl,
          (λ e. ground arith, λ l. refl),
        )
      ]

  -- Whatever the row held, after it is cleared panic-relax is off.
  pub parse-clear : (later : ℕ) (row : Option Payload) → parse later (clear row) ≡ some inactive
  unfolding parse clear
  parse-clear later none = refl
  parse-clear later (some row) = refl
