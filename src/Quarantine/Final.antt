-- ===== src/Quarantine/Final.antt =====
-- A resolved item keeps its resolution for good.
use see_no_evil.Prelude.{
  ℕ, ◌≡◌, sym, refl, ◌∙◌, ◌≢◌, ◌⊎◌, inl, inr, false, Option, none, some, List, [], ◌∷◌, map, ◌==◌,
  ==_iff, if◌then◌else◌, Bool-cases, Option-cases,
}
use see_no_evil.Text.{Text}
use see_no_evil.Models.{Status, pending, allowed, denied, QuarantineItem}
use see_no_evil.Table.{
  get, get-map, get-update_self, get-update_ne, get-delete_self, get-delete_ne, get-update-none,
  get-delete-none,
}
use see_no_evil.Quarantine.{
  is_pending, is_expired, item_id, resolved, resolve, is_selected, bulk_resolve, flag_item,
  delete_item, Request, allow_item, deny_item, allow_bulk, deny_bulk, flag, remove, handle, serve,
  admin, flagged, resolve_found, flag_found, delete_found,
}

not_pending : (s : Status) → s ≢ pending → is_pending s ≡ false
not_pending pending h = absurd (h refl)
not_pending allowed h = refl
not_pending denied h = refl

module _ {Float : Type 0} where
  -- Gone from the queue, or there with the same resolution.
  abbrev pub HasFate : QuarantineItem Float → Option (QuarantineItem Float) → Type 0
  HasFate i o =
      (o ≡ none)
      ⊎ ((j : QuarantineItem Float) × (o ≡ some j)
          × (j.status ≡ i.status)
          × (j.resolved_at ≡ i.resolved_at)
          × (j.resolved_by ≡ i.resolved_by))

  same_fate :
      (k : ℕ) (i : QuarantineItem Float) (o : Option (QuarantineItem Float))
      → o ≡ some i
      → HasFate i o
  same_fate k i o e = inr (i, e, refl, refl, refl)

  -- The map of `bulk_resolve`.
  abbrev pub pick :
      ℕ → Option (List ℕ) → Status → Text → QuarantineItem Float → QuarantineItem Float
  pick now ids s who r = if is_selected now ids r then resolved now s who r else r

  pub id-pick :
      (now : ℕ) (ids : Option (List ℕ)) (s : Status) (who : Text) (r : QuarantineItem Float)
      → (pick now ids s who r).id ≡ r.id
  id-pick now ids s who r = elim (Bool-cases (is_selected now ids r)) [
    | inl hit ↦ rw hit refl
    | inr miss ↦ rw miss refl
  ]

  module _ (now k : ℕ) (i : QuarantineItem Float) (items : List (QuarantineItem Float))
      (found : get item_id k items ≡ some i) (settled : i.status ≢ pending) where
    resolve-HasFate :
        (id : ℕ) (s : Status) (who : Text)
        → HasFate i (get item_id k (resolve now id s who items).1)
    unfolding resolve
    resolve-HasFate id s who = elim (Bool-cases (id == k)) [
      | inl here ↦
          let same : id ≡ k = (==_iff id k).0 here in
          rw (same, found, not_pending i.status settled) (same_fate k i _ found)
      | inr other ↦ elim (Option-cases (get item_id id items)) [
        | inl gone ↦ rw gone (same_fate k i _ found)
        | inr (obj, there) ↦ elim (Bool-cases (is_pending obj.status)) [
          | inr done ↦ rw (there, done) (same_fate k i _ found)
          | inl waiting ↦ elim (Bool-cases (is_expired now obj.ts)) [
            | inl late ↦ rw (there, waiting, late) (same_fate k i _ found)
            | inr fresh ↦
                rw (there, waiting, fresh)
                  (same_fate k i _ (
                    get-update_ne item_id (resolved now s who) (λ r. refl) id k items other
                    ∙ found))
          ]
        ]
      ]
    ]

    selected-HasFate :
        (ids : Option (List ℕ)) (s : Status) (who : Text)
        → HasFate i (get item_id k (map (pick now ids s who) items))
    selected-HasFate ids s who =
        rw
          (
            get-map item_id (pick now ids s who) k items (id-pick now ids s who),
            found,
            not_pending i.status settled,
          )
          (same_fate k i _ refl)

    bulk_resolve-HasFate :
        (ids : Option (List ℕ)) (s : Status) (who : Text)
        → HasFate i (get item_id k (bulk_resolve now ids s who items).1)
    unfolding bulk_resolve
    bulk_resolve-HasFate none s who = selected-HasFate none s who
    bulk_resolve-HasFate (some []) s who = same_fate k i _ found
    bulk_resolve-HasFate (some (j ∷ js)) s who = selected-HasFate (some (j ∷ js)) s who

    flag_item-HasFate :
        (id : ℕ) (note email : Text)
        → HasFate i (get item_id k (flag_item now id note email items).1)
    unfolding flag_item
    flag_item-HasFate id note email = elim (Option-cases (get item_id id items)) [
      | inl gone ↦ rw gone (same_fate k i _ found)
      | inr (obj, there) ↦ elim (Bool-cases (id == k)) [
        | inl here ↦
            rw
              (
                there,
                (==_iff id k).0 here,
                get-update_self item_id (flagged now note email) (λ r. refl) k items,
                found,
              )
              (inr (flagged now note email i, refl, refl, refl, refl))
        | inr other ↦
            rw (there, get-update_ne item_id (flagged now note email) (λ r. refl) id k items other)
              (same_fate k i _ found)
      ]
    ]

    delete_item-HasFate : (id : ℕ) → HasFate i (get item_id k (delete_item id items).1)
    unfolding delete_item
    delete_item-HasFate id = elim (Option-cases (get item_id id items)) [
      | inl gone ↦ rw gone (same_fate k i _ found)
      | inr (obj, there) ↦ elim (Bool-cases (id == k)) [
        | inl here ↦ rw (there, (==_iff id k).0 here, get-delete_self item_id k items) (inl refl)
        | inr other ↦ rw there (same_fate k i _ (get-delete_ne item_id id k items other ∙ found))
      ]
    ]

    handle-HasFate : (r : Request) → HasFate i (get item_id k (handle now r items))
    unfolding handle
    handle-HasFate (allow_item id) = resolve-HasFate id allowed admin
    handle-HasFate (deny_item id) = resolve-HasFate id denied admin
    handle-HasFate (allow_bulk ids) = bulk_resolve-HasFate ids allowed admin
    handle-HasFate (deny_bulk ids) = bulk_resolve-HasFate ids denied admin
    handle-HasFate (flag id note email) = flag_item-HasFate id note email
    handle-HasFate (remove id) = delete_item-HasFate id

  module _ (now k : ℕ) (items : List (QuarantineItem Float))
      (gone : get item_id k items ≡ none) where
    resolve_found-none :
        (id : ℕ) (s : Status) (who : Text) (o : Option (QuarantineItem Float))
        → get item_id k (resolve_found now id s who items o).1 ≡ none
    resolve_found-none id s who none = gone
    resolve_found-none id s who (some obj) = elim (Bool-cases (is_pending obj.status)) [
      | inr done ↦ rw done gone
      | inl waiting ↦ elim (Bool-cases (is_expired now obj.ts)) [
        | inl late ↦ rw (waiting, late) gone
        | inr fresh ↦
            rw (waiting, fresh)
              (get-update-none item_id (resolved now s who) (λ r. refl) id k items gone)
      ]
    ]

    bulk_resolve-none :
        (ids : Option (List ℕ)) (s : Status) (who : Text)
        → get item_id k (bulk_resolve now ids s who items).1 ≡ none
    unfolding bulk_resolve
    bulk_resolve-none none s who =
        rw (get-map item_id (pick now none s who) k items (id-pick now none s who), gone) refl
    bulk_resolve-none (some []) s who = gone
    bulk_resolve-none (some (j ∷ js)) s who =
        rw
          (
            get-map item_id (pick now (some (j ∷ js)) s who) k items
                (id-pick now (some (j ∷ js)) s who),
            gone,
          )
          refl

    flag_found-none :
        (id : ℕ) (note email : Text) (o : Option (QuarantineItem Float))
        → get item_id k (flag_found now id note email items o).1 ≡ none
    flag_found-none id note email none = gone
    flag_found-none id note email (some obj) =
        get-update-none item_id (flagged now note email) (λ r. refl) id k items gone

    delete_found-none :
        (id : ℕ) (o : Option (QuarantineItem Float))
        → get item_id k (delete_found id items o).1 ≡ none
    delete_found-none id none = gone
    delete_found-none id (some obj) = get-delete-none item_id id k items gone

    handle-none : (r : Request) → get item_id k (handle now r items) ≡ none
    unfolding handle
    handle-none (allow_item id) = resolve_found-none id allowed admin (get item_id id items)
    handle-none (deny_item id) = resolve_found-none id denied admin (get item_id id items)
    handle-none (allow_bulk ids) = bulk_resolve-none ids allowed admin
    handle-none (deny_bulk ids) = bulk_resolve-none ids denied admin
    handle-none (flag id note email) = flag_found-none id note email (get item_id id items)
    handle-none (remove id) = delete_found-none id (get item_id id items)

  serve-none :
      (requests : List (ℕ × Request)) (items : List (QuarantineItem Float)) (k : ℕ)
      → get item_id k items ≡ none
      → get item_id k (serve requests items) ≡ none
  unfolding serve
  serve-none [] items k gone = gone
  serve-none ((now, r) ∷ rest) items k gone =
      serve-none rest (handle now r items) k (handle-none now k items gone r)

  HasFate-trans :
      (i j : QuarantineItem Float) (o : Option (QuarantineItem Float))
      → j.status ≡ i.status
      → j.resolved_at ≡ i.resolved_at
      → j.resolved_by ≡ i.resolved_by
      → HasFate j o
      → HasFate i o
  HasFate-trans i j o a b c (inl gone) = inl gone
  HasFate-trans i j o a b c (inr (l, e, x, y, z)) = inr (l, e, x ∙ a, y ∙ b, z ∙ c)

  -- Whatever requests the queue serves after an item was allowed or denied, the item is gone, or it
  -- has the status, the time and the author of that resolution.
  pub serve-HasFate :
      (requests : List (ℕ × Request)) (items : List (QuarantineItem Float)) (k : ℕ)
      (i : QuarantineItem Float)
      → get item_id k items ≡ some i
      → i.status ≢ pending
      → HasFate i (get item_id k (serve requests items))
  unfolding serve
  serve-HasFate [] items k i found settled = same_fate k i _ found
  serve-HasFate ((now, r) ∷ rest) items k i found settled =
      elim (handle-HasFate now k i items found settled r) [
        | inl gone ↦ inl (serve-none rest (handle now r items) k gone)
        | inr (j, e, a, b, c) ↦
            HasFate-trans i j _ a b c
              (serve-HasFate rest (handle now r items) k j e (λ q. settled (sym a ∙ q)))
      ]
