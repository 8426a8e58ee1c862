-- ===== src/Quarantine/Tests.antt =====
-- The theorems about the queue at a small table.
use see_no_evil.Prelude.{ℕ, ◌≡◌, refl, none, some, List, [], ◌∷◌}
use see_no_evil.Text.{codes}
use see_no_evil.Models.{Status, pending, denied, allowed, QuarantineItem}
use see_no_evil.Table.{get}
use see_no_evil.Quarantine.{
  item_id, resolve, bulk_resolve, Request, allow_item, allow_bulk, remove, serve,
}
use see_no_evil.Quarantine.Final.{HasFate, serve-HasFate}
use see_no_evil.Quarantine.Resolve.{bulk_resolve-eq-resolve}

abbrev item : ℕ → ℕ → Status → QuarantineItem ℕ
item id ts status = record {
  id = id;
  ts = ts;
  device_id = none;
  profile_id = some 1;
  url = codes "http://example.org/x";
  content_type = some (codes "image/png");
  reason = codes "classifier:porn";
  classifier_scores = [];
  thumbnail_b64 = none;
  status = status;
  resolved_at = none;
  resolved_by = none;
  flag_note = none;
  flagged_by = none;
  flagged_at = none;
}

abbrev items : List (QuarantineItem ℕ)
items = item 1 5000000000 pending ∷ item 2 100 pending ∷ item 3 5000000000 denied ∷ []

abbrev requests : List (ℕ × Request)
requests = (6000000000, allow_item 3) ∷ (6000000001, allow_bulk none) ∷ (6000000002, remove 1) ∷ []

serve-HasFate_example : HasFate (item 3 5000000000 denied) (get item_id 3 (serve requests items))
unfolding get
serve-HasFate_example = serve-HasFate requests items 3 (item 3 5000000000 denied) refl (cc)

bulk_resolve-eq-resolve_example :
    get item_id 1 (bulk_resolve 6000000000 (some (1 ∷ [])) allowed (codes "admin") items).1
    ≡ get item_id 1 (resolve 6000000000 1 allowed (codes "admin") items).1
bulk_resolve-eq-resolve_example =
    bulk_resolve-eq-resolve 6000000000 1 allowed (codes "admin") items 1
