-- ===== src/Quarantine/Resolve.antt =====
-- Bulk resolution against single resolution, and what the list shows.
use see_no_evil.Prelude.{
  ℕ, ◌+◌, ◌≤◌, ◌≡◌, refl, ◌∙◌, sym, ap, inl, inr, Bool, true, false, not, ◌&&◌, ◌||◌, Option, none,
  some, List, [], ◌∷◌, keep, length, All, ◌==◌, ==_iff, if◌then◌else◌, Bool-cases, Option-cases,
  arith, zero, suc, ltb,
}
use see_no_evil.Text.{Text, codes, eqb}
use see_no_evil.Http.{ok}
use see_no_evil.Models.{Status, pending, allowed, denied, QuarantineItem}
use see_no_evil.Table.{get, map_option, get-map, key-get, get-update_self, get-update_ne}
use see_no_evil.Quarantine.{
  pending_ttl, is_pending, is_expired, item_id, resolved, resolve, bulk_resolve, requested,
  is_shown, status_text, insert_newest, newest_first, page, list_quarantine,
}
use see_no_evil.Quarantine.Final.{pick, id-pick}

unselected :
    {A : Type 0} (a b c : Bool) (x y : A)
    → b ≡ false
    → (if a && (b || false) && c then x else y) ≡ y
unselected true b c x y h = rw h refl
unselected false b c x y h = refl

selected :
    {A : Type 0} (a b c : Bool) (x y : A)
    → b ≡ true
    → (if a && (b || false) && not c then x else y) ≡ (if not a then y else if c then y else x)
selected true b true x y h = rw h refl
selected true b false x y h = rw h refl
selected false b c x y h = refl

map_option_id : {A : Type 0} (o : Option A) → map_option (λ a. a) o ≡ o
map_option_id none = refl
map_option_id (some a) = refl

counted :
    {A : Type 0} (p q r : A → Bool) (xs : List A)
    → length (keep (λ x. p x && q x && not (r x)) xs) + length (keep (λ x. p x && q x && r x) xs)
      ≡ length (keep (λ x. p x && q x) xs)
counted p q r [] = refl
counted p q r (x ∷ xs) = ground (arith, counted p q r xs)

-- The `where` clauses of the list of pending items.
shown_parts :
    (st : Status) (late : Bool)
    → ((eqb (codes "pending") (codes "all") || eqb (status_text st) (codes "pending"))
        && (not (eqb (codes "pending") (codes "pending")) || not late))
      ≡ true
    → (st ≡ pending) × (late ≡ false)
unfolding eqb
shown_parts pending late e = ground arith
shown_parts allowed late e = cc
shown_parts denied late e = cc

module _ {Float : Type 0} where
  module _ (now k : ℕ) (s : Status) (who : Text) (items : List (QuarantineItem Float)) where
    -- What single resolution makes of the row that it finds.
    abbrev outcome : QuarantineItem Float → QuarantineItem Float
    outcome r =
        if not (is_pending r.status)
        then r
        else if is_expired now r.ts
        then r
        else resolved now s who r

    not_picked :
        (r : QuarantineItem Float) → (k == r.id) ≡ false → pick now (some (k ∷ [])) s who r ≡ r
    not_picked r other =
        unselected (is_pending r.status) (k == r.id) (not (is_expired now r.ts)) _ r other

    picked :
        (r : QuarantineItem Float)
        → (k == r.id) ≡ true
        → pick now (some (k ∷ [])) s who r ≡ outcome r
    picked r here =
        selected (is_pending r.status) (k == r.id) (is_expired now r.ts) (resolved now s who r) r
          here

    get-resolve_self :
        get item_id k (resolve now k s who items).1 ≡ map_option outcome (get item_id k items)
    unfolding resolve
    get-resolve_self = elim (Option-cases (get item_id k items)) [
      | inl gone ↦ rw (gone, gone) refl
      | inr (r, found) ↦ elim (Bool-cases (is_pending r.status)) [
        | inr done ↦ rw (found, done, found) refl
        | inl waiting ↦ elim (Bool-cases (is_expired now r.ts)) [
          | inl late ↦ rw (found, waiting, late, found) refl
          | inr fresh ↦
              rw
                (
                  found,
                  waiting,
                  fresh,
                  get-update_self item_id (resolved now s who) (λ q. refl) k items,
                  found,
                )
                refl
        ]
      ]
    ]

    get-resolve_ne :
        (j : ℕ)
        → (k == j) ≡ false
        → get item_id j (resolve now k s who items).1 ≡ get item_id j items
    unfolding resolve
    get-resolve_ne j other = elim (Option-cases (get item_id k items)) [
      | inl gone ↦ rw gone refl
      | inr (r, found) ↦ elim (Bool-cases (is_pending r.status)) [
        | inr done ↦ rw (found, done) refl
        | inl waiting ↦ elim (Bool-cases (is_expired now r.ts)) [
          | inl late ↦ rw (found, waiting, late) refl
          | inr fresh ↦
              rw (found, waiting, fresh)
                (get-update_ne item_id (resolved now s who) (λ q. refl) k j items other)
        ]
      ]
    ]

    get-bulk :
        (j : ℕ)
        → get item_id j (bulk_resolve now (some (k ∷ [])) s who items).1
          ≡ map_option (pick now (some (k ∷ [])) s who) (get item_id j items)
    unfolding bulk_resolve
    get-bulk j =
        get-map item_id (pick now (some (k ∷ [])) s who) j items (id-pick now (some (k ∷ [])) s who)

    mapped :
        (o : Option (QuarantineItem Float)) (f g : QuarantineItem Float → QuarantineItem Float)
        → ((r : QuarantineItem Float) → o ≡ some r → f r ≡ g r)
        → map_option f o ≡ map_option g o
    mapped none f g h = refl
    mapped (some r) f g h = ap some (h r refl)

    found_key :
        (j : ℕ) (r : QuarantineItem Float) → get item_id j items ≡ some r → (k == r.id) ≡ (k == j)
    found_key j r found = ap (λ (i : ℕ). k == i) (key-get item_id j items found)

    -- Resolving the ids [k] in bulk leaves, under every id, the row that resolving k leaves.
    pub bulk_resolve-eq-resolve :
        (j : ℕ)
        → get item_id j (bulk_resolve now (some (k ∷ [])) s who items).1
          ≡ get item_id j (resolve now k s who items).1
    bulk_resolve-eq-resolve j = elim (Bool-cases (k == j)) [
      | inl here ↦
          let same : k ≡ j = (==_iff k j).0 here in
          rw (← same) (
            get-bulk k
            ∙ mapped (get item_id k items) _ outcome
                (λ r found. picked r (found_key k r found ∙ rw (← same) at here))
            ∙ sym get-resolve_self)
      | inr other ↦
          get-bulk j
          ∙ mapped (get item_id j items) _ (λ r. r)
              (λ r found. not_picked r (found_key j r found ∙ other))
          ∙ map_option_id (get item_id j items)
          ∙ sym (get-resolve_ne j other)
    ]

  -- With ids given, every requested pending row is counted, as updated or as expired.
  pub bulk_resolve-counts :
      (now : ℕ) (s : Status) (who : Text) (items : List (QuarantineItem Float)) (id : ℕ)
      (ids : List ℕ)
      → (bulk_resolve now (some (id ∷ ids)) s who items).0.updated
          + (bulk_resolve now (some (id ∷ ids)) s who items).0.skipped_expired
        ≡ length (keep (λ r. is_pending r.status && requested (some (id ∷ ids)) r.id) items)
  unfolding bulk_resolve
  bulk_resolve-counts now s who items id ids =
      counted (λ r. is_pending r.status) (λ r. requested (some (id ∷ ids)) r.id)
        (λ r. is_expired now r.ts) items

  -- A page of the list has rows of the list alone.
  All-insert_newest :
      (P : QuarantineItem Float → Type 0) (i : QuarantineItem Float)
      (items : List (QuarantineItem Float))
      → P i
      → All P items
      → All P (insert_newest i items)
  unfolding insert_newest
  All-insert_newest P i [] h hs = (h, tt)
  All-insert_newest P i (j ∷ items) h (k, hs) = elim (Bool-cases (ltb i.ts j.ts)) [
    | inl older ↦ rw older (k, All-insert_newest P i items h hs)
    | inr newer ↦ rw newer (h, (k, hs))
  ]

  All-newest_first :
      (P : QuarantineItem Float → Type 0) (items : List (QuarantineItem Float))
      → All P items
      → All P (newest_first items)
  unfolding newest_first
  All-newest_first P [] h = tt
  All-newest_first P (i ∷ items) (h, hs) =
      All-insert_newest P i (newest_first items) h (All-newest_first P items hs)

  All-page :
      (P : QuarantineItem Float → Type 0) (offset limit : ℕ) (items : List (QuarantineItem Float))
      → All P items
      → All P (page offset limit items)
  unfolding page
  All-page P zero zero items h = tt
  All-page P zero (suc limit) [] h = tt
  All-page P zero (suc limit) (i ∷ items) (h, hs) = (h, All-page P zero limit items hs)
  All-page P (suc offset) limit [] h = tt
  All-page P (suc offset) limit (i ∷ items) (h, hs) = All-page P offset limit items hs

  length-page :
      (offset limit : ℕ) (items : List (QuarantineItem Float))
      → length (page offset limit items) ≤ limit
  unfolding page
  length-page zero zero items = omega arith
  length-page zero (suc limit) [] = omega arith
  length-page zero (suc limit) (i ∷ items) = omega (arith, length-page zero limit items)
  length-page (suc offset) limit [] = omega arith
  length-page (suc offset) limit (i ∷ items) = length-page offset limit items

  -- An item that awaits review and is not over an hour old.
  abbrev pub IsLive : ℕ → QuarantineItem Float → Type 0
  IsLive now i = (i.status ≡ pending) × (now ≤ i.ts + pending_ttl)

  shown-IsLive :
      (now : ℕ) (items : List (QuarantineItem Float))
      → All (IsLive now) (keep (is_shown now (codes "pending")) items)
  shown-IsLive now [] = tt
  shown-IsLive now (i ∷ items) = elim (Bool-cases (is_shown now (codes "pending") i)) [
    | inr hidden ↦ rw hidden (shown-IsLive now items)
    | inl seen ↦
        let (waiting, fresh) = shown_parts i.status (is_expired now i.ts) seen in
        rw seen ((waiting, unfold is_expired in ground arith), shown-IsLive now items)
  ]

  -- The list of pending items holds at most `limit` rows, each pending and not expired.
  pub list_quarantine-pending :
      (now limit offset : ℕ) (items shown : List (QuarantineItem Float))
      → list_quarantine now (codes "pending") limit offset items ≡ ok shown
      → All (IsLive now) shown × (length shown ≤ limit)
  unfolding list_quarantine eqb
  list_quarantine-pending now limit offset items shown e =
      let rows = newest_first (keep (is_shown now (codes "pending")) items) in
      let same : page offset limit rows ≡ shown = cc e in
      rw (← same) (
        All-page (IsLive now) offset limit rows
            (All-newest_first (IsLive now) _ (shown-IsLive now items)),
        length-page offset limit rows,
      )
