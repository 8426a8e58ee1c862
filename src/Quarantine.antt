-- ===== src/Quarantine.antt =====
-- The quarantine queue, services/api/src/seenoevil_api/routers/quarantine.py. The table is a list
-- of rows; a handler returns its reply and the new table. Authentication stands before the
-- handlers and is not part of them; the clock's value `now` is an argument.
pub mod Final
pub mod Resolve
mod Tests
use see_no_evil.Prelude.{
  ℕ, zero, suc, ◌+◌, ◌-◌, Bool, true, false, not, ◌&&◌, ◌||◌, Option, none, some, List, [], ◌∷◌,
  map, length, keep, any, ltb, leb, ◌==◌, if◌then◌else◌,
}
use see_no_evil.Text.{Text, codes, eqb, truthy, strip, member}
use see_no_evil.Http.{Reply, ok, http}
use see_no_evil.Models.{Status, pending, allowed, denied, QuarantineItem}
use see_no_evil.Table.{get, update, delete}

-- `_PENDING_TTL`, one hour.
abbrev pub pending_ttl : ℕ
pending_ttl = 3600000000

abbrev pub is_pending : Status → Bool
is_pending pending = true
is_pending _ = false

abbrev pub status_text : Status → Text
status_text pending = codes "pending"
status_text allowed = codes "allowed"
status_text denied = codes "denied"

-- `ts < now - _PENDING_TTL`.
unfoldable pub is_expired : ℕ → ℕ → Bool
is_expired now ts = ltb (ts + pending_ttl) now

-- `BulkResolveResponse`.
pub record BulkResolveResponse : Type 0 where
  pub updated : ℕ
  pub skipped_expired : ℕ

abbrev pub valid_statuses : List Text
valid_statuses = codes "pending" ∷ codes "allowed" ∷ codes "denied" ∷ []

abbrev pub requested : Option (List ℕ) → ℕ → Bool
requested none id = true
requested (some ids) id = any (λ j. j == id) ids

abbrev pub note_or_default : Text → Text
note_or_default note = if truthy note then note else codes "(no note)"

-- The requests that change the queue, with the clock at each.
pub data Request : Type 0 where
  allow_item deny_item : ℕ → Request
  allow_bulk deny_bulk : Option (List ℕ) → Request
  flag : ℕ → Text → Text → Request
  remove : ℕ → Request

abbrev pub admin : Text
admin = codes "admin"

module _ {Float : Type 0} where
  abbrev pub item_id : QuarantineItem Float → ℕ
  item_id i = i.id

  -- `order_by(ts.desc())`.
  unfoldable pub insert_newest :
      QuarantineItem Float → List (QuarantineItem Float) → List (QuarantineItem Float)
  insert_newest i [] = i ∷ []
  insert_newest i (j ∷ items) = if ltb i.ts j.ts then j ∷ insert_newest i items else i ∷ j ∷ items

  unfoldable pub newest_first : List (QuarantineItem Float) → List (QuarantineItem Float)
  unfolding insert_newest
  newest_first [] = []
  newest_first (i ∷ items) = insert_newest i (newest_first items)

  unfoldable pub page : ℕ → ℕ → List (QuarantineItem Float) → List (QuarantineItem Float)
  page zero zero items = []
  page zero (suc limit) [] = []
  page zero (suc limit) (i ∷ items) = i ∷ page zero limit items
  page (suc offset) limit [] = []
  page (suc offset) limit (i ∷ items) = page offset limit items

  -- The `where` clauses of the list.
  abbrev pub is_shown : ℕ → Text → QuarantineItem Float → Bool
  is_shown now wanted i =
      (eqb wanted (codes "all") || eqb (status_text i.status) wanted)
      && (not (eqb wanted (codes "pending")) || not (is_expired now i.ts))

  unfoldable pub list_quarantine :
      ℕ → Text → ℕ → ℕ → List (QuarantineItem Float) → Reply (List (QuarantineItem Float))
  unfolding newest_first page member
  list_quarantine now wanted limit offset items =
      if not (member wanted valid_statuses) && not (eqb wanted (codes "all"))
      then http 400
      else ok (page offset limit (newest_first (keep (is_shown now wanted) items)))

  abbrev pub resolved : ℕ → Status → Text → QuarantineItem Float → QuarantineItem Float
  resolved now new_status who i = record i {
    status = new_status;
    resolved_at = some now;
    resolved_by = some who;
  }

  -- The checks of `_resolve` on the row that was found.
  abbrev pub resolve_found :
      ℕ
      → ℕ
      → Status
      → Text
      → List (QuarantineItem Float)
      → Option (QuarantineItem Float)
      → Reply (QuarantineItem Float) × List (QuarantineItem Float)
  resolve_found now id new_status who items none = (http 404, items)
  resolve_found now id new_status who items (some obj) =
      if not (is_pending obj.status)
      then (http 409, items)
      else if is_expired now obj.ts
      then (http 409, items)
      else (
        ok (resolved now new_status who obj),
        update item_id id (resolved now new_status who) items,
      )

  -- `_resolve`: 404 for no row, 409 for a row that is resolved or has expired.
  unfoldable pub resolve :
      ℕ
      → ℕ
      → Status
      → Text
      → List (QuarantineItem Float)
      → Reply (QuarantineItem Float) × List (QuarantineItem Float)
  resolve now id new_status who items =
      resolve_found now id new_status who items (get item_id id items)

  -- The rows that `_bulk_resolve` changes.
  abbrev pub is_selected : ℕ → Option (List ℕ) → QuarantineItem Float → Bool
  is_selected now ids i = is_pending i.status && requested ids i.id && not (is_expired now i.ts)

  abbrev pub is_skipped : ℕ → List ℕ → QuarantineItem Float → Bool
  is_skipped now ids i = is_pending i.status && requested (some ids) i.id && is_expired now i.ts

  abbrev pub skipped_expired_of : ℕ → Option (List ℕ) → List (QuarantineItem Float) → ℕ
  skipped_expired_of now none items = 0
  skipped_expired_of now (some ids) items = length (keep (is_skipped now ids) items)

  unfoldable pub bulk_resolve :
      ℕ
      → Option (List ℕ)
      → Status
      → Text
      → List (QuarantineItem Float)
      → BulkResolveResponse × List (QuarantineItem Float)
  unfolding is_expired
  bulk_resolve now (some []) new_status who items =
      (record { updated = 0; skipped_expired = 0 }, items)
  bulk_resolve now ids new_status who items = (
    record {
      updated = length (keep (is_selected now ids) items);
      skipped_expired = skipped_expired_of now ids items;
    },
    map (λ i. if is_selected now ids i then resolved now new_status who i else i) items,
  )

  abbrev pub flagged : ℕ → Text → Text → QuarantineItem Float → QuarantineItem Float
  flagged now note email i = record i {
    flag_note = some (note_or_default (strip note));
    flagged_by = some email;
    flagged_at = some now;
  }

  abbrev pub flag_found :
      ℕ
      → ℕ
      → Text
      → Text
      → List (QuarantineItem Float)
      → Option (QuarantineItem Float)
      → Reply (QuarantineItem Float) × List (QuarantineItem Float)
  flag_found now id note email items none = (http 404, items)
  flag_found now id note email items (some obj) =
      (ok (flagged now note email obj), update item_id id (flagged now note email) items)

  unfoldable pub flag_item :
      ℕ
      → ℕ
      → Text
      → Text
      → List (QuarantineItem Float)
      → Reply (QuarantineItem Float) × List (QuarantineItem Float)
  flag_item now id note email items = flag_found now id note email items (get item_id id items)

  abbrev pub delete_found :
      ℕ
      → List (QuarantineItem Float)
      → Option (QuarantineItem Float)
      → Reply (Unit {0}) × List (QuarantineItem Float)
  delete_found id items none = (http 404, items)
  delete_found id items (some obj) = (ok tt, delete item_id id items)

  unfoldable pub delete_item :
      ℕ → List (QuarantineItem Float) → Reply (Unit {0}) × List (QuarantineItem Float)
  delete_item id items = delete_found id items (get item_id id items)

  unfoldable pub handle : ℕ → Request → List (QuarantineItem Float) → List (QuarantineItem Float)
  unfolding resolve bulk_resolve flag_item delete_item
  handle now (allow_item id) items = (resolve now id allowed admin items).1
  handle now (deny_item id) items = (resolve now id denied admin items).1
  handle now (allow_bulk ids) items = (bulk_resolve now ids allowed admin items).1
  handle now (deny_bulk ids) items = (bulk_resolve now ids denied admin items).1
  handle now (flag id note email) items = (flag_item now id note email items).1
  handle now (remove id) items = (delete_item id items).1

  unfoldable pub serve :
      List (ℕ × Request) → List (QuarantineItem Float) → List (QuarantineItem Float)
  unfolding handle
  serve [] items = items
  serve ((now, r) ∷ rest) items = serve rest (handle now r items)
