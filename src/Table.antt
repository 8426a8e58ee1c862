-- ===== src/Table.antt =====
-- A table of the data base, as the list of its rows: what the source asks of it through a session.
use see_no_evil.Prelude.{
  ℕ, ◌≡◌, refl, ◌∙◌, true, false, Option, none, some, List, [], ◌∷◌, ◌++◌, map, keep, first, not,
  inl, inr, ◌==◌, ==_iff, if◌then◌else◌, Bool-cases, Option-cases, arith,
}

abbrev pub map_option {ℓ κ} : {A : Type ℓ} {B : Type κ} → (A → B) → Option A → Option B
map_option f none = none
map_option f (some a) = some (f a)

module _ {Row : Type 0} (key : Row → ℕ) where
  -- `session.get(Model, k)`.
  unfoldable pub get : ℕ → List Row → Option Row
  get k rows = first (λ r. key r == k) rows

  -- Attributes set on the row with primary key `k`.
  unfoldable pub update : ℕ → (Row → Row) → List Row → List Row
  update k f rows = map (λ r. if key r == k then f r else r) rows

  -- `session.delete` of the row with primary key `k`.
  unfoldable pub delete : ℕ → List Row → List Row
  delete k rows = keep (λ r. not (key r == k)) rows

  pub get-map :
      (f : Row → Row) (k : ℕ) (rows : List Row)
      → ((r : Row) → key (f r) ≡ key r)
      → get k (map f rows) ≡ map_option f (get k rows)
  unfolding get
  get-map f k [] same = refl
  get-map f k (r ∷ rows) same = elim (Bool-cases (key r == k)) [
    | inl here ↦ rw (same r, here) refl
    | inr other ↦ rw (same r, other) (get-map f k rows same)
  ]

  -- The row that is found has the key that was asked for.
  pub key-get : (k : ℕ) (rows : List Row) {r : Row} → get k rows ≡ some r → key r ≡ k
  unfolding get
  key-get k [] e = cc
  key-get k (x ∷ rows) {r} e = elim (Bool-cases (key x == k)) [
    | inl here ↦ let same : x ≡ r = ground arith in rw (← same) ((==_iff (key x) k).0 here)
    | inr other ↦ key-get k rows (rw other at e)
  ]

  module _ (f : Row → Row) (same : (r : Row) → key (f r) ≡ key r) where
    on_key : ℕ → Row → Row
    on_key j r = if key r == j then f r else r

    key-on_key : (j : ℕ) (r : Row) → key (on_key j r) ≡ key r
    unfolding on_key
    key-on_key j r = elim (Bool-cases (key r == j)) [
      | inl here ↦ rw here (same r)
      | inr other ↦ rw other refl
    ]

    pub get-update_self :
        (k : ℕ) (rows : List Row) → get k (update k f rows) ≡ map_option f (get k rows)
    unfolding update on_key
    get-update_self k rows = elim (Option-cases (get k rows)) [
      | inl gone ↦ rw (get-map (on_key k) k rows (key-on_key k), gone) refl
      | inr (r, found) ↦
          let here : (key r == k) ≡ true = (==_iff (key r) k).1 (key-get k rows found) in
          rw (get-map (on_key k) k rows (key-on_key k), found, here) refl
    ]

    pub get-update_ne :
        (j k : ℕ) (rows : List Row) → (j == k) ≡ false → get k (update j f rows) ≡ get k rows
    unfolding update on_key
    get-update_ne j k rows ne = elim (Option-cases (get k rows)) [
      | inl gone ↦ rw (get-map (on_key j) k rows (key-on_key j), gone) refl
      | inr (r, found) ↦
          let at_k : key r ≡ k = key-get k rows found in
          let other : (key r == j) ≡ false = ground arith in
          rw (get-map (on_key j) k rows (key-on_key j), found, other) refl
    ]

    pub get-update-none :
        (j k : ℕ) (rows : List Row) → get k rows ≡ none → get k (update j f rows) ≡ none
    unfolding update on_key
    get-update-none j k rows gone = rw (get-map (on_key j) k rows (key-on_key j), gone) refl

  pub get-delete_self : (k : ℕ) (rows : List Row) → get k (delete k rows) ≡ none
  unfolding get delete
  get-delete_self k [] = refl
  get-delete_self k (r ∷ rows) = elim (Bool-cases (key r == k)) [
    | inl here ↦ rw here (get-delete_self k rows)
    | inr other ↦ rw (other, other) (get-delete_self k rows)
  ]

  pub get-delete_ne :
      (j k : ℕ) (rows : List Row) → (j == k) ≡ false → get k (delete j rows) ≡ get k rows
  unfolding get delete
  get-delete_ne j k [] ne = refl
  get-delete_ne j k (r ∷ rows) ne = elim (Bool-cases (key r == j)) [
    | inl here ↦
        let other : (key r == k) ≡ false = ground arith in
        rw (here, other) (get-delete_ne j k rows ne)
    | inr kept ↦ elim (Bool-cases (key r == k)) [
      | inl found ↦ rw (kept, found) refl
      | inr other ↦ rw (kept, other) (get-delete_ne j k rows ne)
    ]
  ]

  pub get-delete-none :
      (j k : ℕ) (rows : List Row) → get k rows ≡ none → get k (delete j rows) ≡ none
  get-delete-none j k rows gone = elim (Bool-cases (j == k)) [
    | inl here ↦ rw ((==_iff j k).0 here) (get-delete_self k rows)
    | inr other ↦ get-delete_ne j k rows other ∙ gone
  ]

  pub get-append_none :
      (k : ℕ) (rows more : List Row) → get k rows ≡ none → get k (rows ++ more) ≡ get k more
  unfolding get
  get-append_none k [] more e = refl
  get-append_none k (r ∷ rows) more e = elim (Bool-cases (key r == k)) [
    | inl here ↦ absurd (ground arith)
    | inr other ↦ rw other (get-append_none k rows more (rw other at e))
  ]
