-- ===== src/Inventory/Tables.antt =====
-- What the handlers need of the two tables.
use see_no_evil.Prelude.{
  ℕ, ◌≡◌, refl, inl, inr, Bool, true, false, some, List, [], ◌∷◌, ◌++◌, map, keep, first, ◌==◌,
  Bool-cases, Option-cases, All, arith,
}
use see_no_evil.Models.{Device, Profile}
use see_no_evil.Table.{get, update, delete, get-delete_ne}
use see_no_evil.Decide.{profile_id}
use see_no_evil.Inventory.Devices.{is_profile}

module _ {Row : Type 0} (P : Row → Type 0) where
  pub All-append : (rows : List Row) (new : Row) → All P rows → P new → All P (rows ++ (new ∷ []))
  All-append [] new h n = (n, tt)
  All-append (r ∷ rows) new (h, hs) n = (h, All-append rows new hs n)

  pub All-keep : (stays : Row → Bool) (rows : List Row) → All P rows → All P (keep stays rows)
  All-keep stays [] h = tt
  All-keep stays (r ∷ rows) (h, hs) = elim (Bool-cases (stays r)) [
    | inl in_place ↦ rw in_place (h, All-keep stays rows hs)
    | inr out ↦ rw out (All-keep stays rows hs)
  ]

  pub All-map :
      (f : Row → Row)
      → ((r : Row) → P r → P (f r))
      → (rows : List Row) → All P rows
      → All P (map f rows)
  All-map f step [] h = tt
  All-map f step (r ∷ rows) (h, hs) = (step r h, All-map f step rows hs)

  pub All-first :
      (p : Row → Bool) (rows : List Row) {r : Row} → All P rows → first p rows ≡ some r → P r
  All-first p [] h e = absurd (ground arith)
  All-first p (x ∷ rows) {r} (h, hs) e = elim (Bool-cases (p x)) [
    | inl here ↦ let same : x ≡ r = ground arith in rw (← same) h
    | inr other ↦ All-first p rows hs (rw other at e)
  ]

module _ {Row : Type 0} (key : Row → ℕ) where
  pub get-append_some :
      (id : ℕ) (rows : List Row) (new : Row) {r : Row}
      → get key id rows ≡ some r
      → get key id (rows ++ (new ∷ [])) ≡ some r
  unfolding get
  get-append_some id [] new e = absurd (ground arith)
  get-append_some id (q ∷ rows) new e = elim (Bool-cases (key q == id)) [
    | inl here ↦ rw here (rw here at e)
    | inr other ↦ rw other (get-append_some id rows new (rw other at e))
  ]

module _ {Float : Type 0} where
  -- Every device has its profile.
  abbrev pub HasProfiles : List (Profile Float) → List Device → Type 0
  HasProfiles profiles devices = All (λ d. is_profile profiles d.profile_id ≡ true) devices

  pub is_profile-get :
      (id : ℕ) (profiles : List (Profile Float)) {p : Profile Float}
      → get profile_id id profiles ≡ some p
      → is_profile profiles id ≡ true
  is_profile-get id profiles e = rw e refl

  pub is_profile-append :
      (id : ℕ) (profiles : List (Profile Float)) (new : Profile Float)
      → is_profile profiles id ≡ true
      → is_profile (profiles ++ (new ∷ [])) id ≡ true
  is_profile-append id profiles new h = elim (Option-cases (get profile_id id profiles)) [
    | inl gone ↦ absurd (ground arith)
    | inr (p, found) ↦ rw (get-append_some profile_id id profiles new found) refl
  ]

  pub is_profile-delete :
      (k id : ℕ) (profiles : List (Profile Float))
      → (id == k) ≡ false
      → is_profile profiles id ≡ true
      → is_profile (delete profile_id k profiles) id ≡ true
  is_profile-delete k id profiles ne h =
      let other : (k == id) ≡ false = ground (arith, ne) in
      rw (get-delete_ne profile_id k id profiles other) h

  -- A profile that is changed stays one.
  pub is_profile-update :
      (k id : ℕ) (p : Profile Float) (profiles : List (Profile Float))
      → p.id ≡ k
      → is_profile profiles id ≡ true
      → is_profile (update profile_id k (λ old. p) profiles) id ≡ true
  unfolding update get
  is_profile-update k id p [] same h = absurd (ground arith)
  is_profile-update k id p (q ∷ profiles) same h = elim (Bool-cases (q.id == k)) [
    | inl at_k ↦ elim (Bool-cases (q.id == id)) [
      | inl here ↦ let found : (p.id == id) ≡ true = ground arith in rw (at_k, found) refl
      | inr other ↦
          let far : (p.id == id) ≡ false = ground arith in
          rw (at_k, far) (is_profile-update k id p profiles same (rw other at h))
    ]
    | inr kept ↦ elim (Bool-cases (q.id == id)) [
      | inl here ↦ rw (kept, here) refl
      | inr other ↦ rw (kept, other) (is_profile-update k id p profiles same (rw other at h))
    ]
  ]

  -- A profile that was found by its name is found by its id.
  pub is_profile-first :
      (test : Profile Float → Bool) (profiles : List (Profile Float)) {p : Profile Float}
      → first test profiles ≡ some p
      → is_profile profiles p.id ≡ true
  unfolding get
  is_profile-first test [] e = absurd (ground arith)
  is_profile-first test (q ∷ profiles) {p} e = elim (Bool-cases (q.id == p.id)) [
    | inl here ↦ rw here refl
    | inr other ↦ elim (Bool-cases (test q)) [
      | inl found ↦
          let same : q ≡ p = ground arith in
          let own : (p.id == p.id) ≡ false = rw same at other in absurd (ground arith)
      | inr later ↦ rw other (is_profile-first test profiles (rw later at e))
    ]
  ]
