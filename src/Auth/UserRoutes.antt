-- ===== src/Auth/UserRoutes.antt =====
-- The handlers of services/api/src/seenoevil_api/routers/users.py that change users. The bodies have
-- passed the schema's own checks; the admin guard's address is the argument `current`.
use see_no_evil.Prelude.{
  ℕ, ◌≡◌, ap, sym, ◌∙◌, ◌≤◌, inl, inr, Bool, false, not, ◌&&◌, ◌||◌, Option, none, some, List, [],
  ◌∷◌, keep, length, leb, ◌==◌, ==_iff, if◌then◌else◌, Bool-cases, Option-cases, arith,
}
use see_no_evil.Text.{Text, eqb}
use see_no_evil.Text.Laws.{eqb_iff, eqb_refl}
use see_no_evil.Http.{Reply, ok, http}
use see_no_evil.Models.{User}
use see_no_evil.Table.{get, update, delete}
use see_no_evil.Auth.Users.{
  Store, Hasher, Outcome, returns, value_error, role_admin, user_id, by_email, update_user,
  delete_user, rotate_jwt_secret,
}

-- `User.role == "admin", User.disabled == False`.
abbrev pub is_enabled : User → Bool
is_enabled u = eqb u.role role_admin && not u.disabled

unfoldable pub enabled_admins : List User → ℕ
enabled_admins users = length (keep is_enabled users)

abbrev pub or_else {ℓ} : {A : Type ℓ} → A → Option A → A
or_else a none = a
or_else a (some b) = b

-- The change would leave this row no enabled admin.
abbrev pub would_lose : Option Text → Option Bool → User → Bool
would_lose role disabled u =
    or_else u.disabled disabled || not (eqb (or_else u.role role) role_admin)

abbrev pub restore : User → User
restore u = record u { role = role_admin; disabled = false }

-- The post-check's way back, for the row it still finds.
abbrev pub restored : ℕ → Store → Store → Option User → Store
restored id store store' none = store
restored id store store' (some u) = record store' { users = update user_id id restore store'.users }

abbrev pub post_checked : ℕ → Store → Outcome Store → Reply (Unit {0}) × Store
post_checked id store value_error = (http 404, store)
post_checked id store (returns store') =
    if enabled_admins store'.users == 0
    then (http 409, restored id store store' (get user_id id store'.users))
    else (ok tt, store')

module _ (hasher : Hasher) where
  abbrev pub patch_found :
      Text
      → ℕ
      → Option Text
      → Option Text
      → Option Bool
      → Store
      → Option User
      → Reply (Unit {0}) × Store
  patch_found fresh id password role disabled store none = (http 404, store)
  patch_found fresh id password role disabled store (some target) =
      if is_enabled target && would_lose role disabled target && leb (enabled_admins store.users) 1
      then (http 409, store)
      else post_checked id store (update_user hasher fresh id password role disabled store)

  -- `update_user` of the router.
  unfoldable pub patch_user :
      Text → ℕ → Option Text → Option Text → Option Bool → Store → Reply (Unit {0}) × Store
  unfolding enabled_admins
  patch_user fresh id password role disabled store =
      patch_found fresh id password role disabled store (get user_id id store.users)

  abbrev pub is_own : Text → Option User → Bool
  is_own current none = false
  is_own current (some target) = eqb target.email current

  -- `delete_user` of the router.
  unfoldable pub remove_user : Text → ℕ → Text → Store → Reply (Unit {0}) × Store
  remove_user fresh id current store =
      if leb (length store.users) 1
      then (http 409, store)
      else if is_own current (get user_id id store.users)
      then (http 409, store)
      else (ok tt, delete_user hasher fresh id store)

enabled_admins-restore :
    (id : ℕ) (users : List User) (u : User)
    → get user_id id users ≡ some u
    → 1 ≤ enabled_admins (update user_id id restore users)
unfolding enabled_admins get update
enabled_admins-restore id [] u found = cc
enabled_admins-restore id (v ∷ users) u found = elim (Bool-cases (v.id == id)) [
  | inl here ↦ rw (here, eqb_refl role_admin) (omega arith)
  | inr other ↦
      let rest = enabled_admins-restore id users u (rw other at found) in
      rw other (elim (Bool-cases (is_enabled v)) [
        | inl fine ↦ rw fine (omega arith)
        | inr bad ↦ rw bad rest
      ])
]

post_checked-enabled_admins :
    (id : ℕ) (store : Store) (o : Outcome Store)
    → 1 ≤ enabled_admins store.users
    → 1 ≤ enabled_admins (post_checked id store o).1.users
post_checked-enabled_admins id store value_error some_admin = some_admin
post_checked-enabled_admins id store (returns store') some_admin =
    elim (Bool-cases (enabled_admins store'.users == 0)) [
      | inr fine ↦ rw fine (ground (arith, ==_iff (enabled_admins store'.users) 0))
      | inl lost ↦ elim (Option-cases (get user_id id store'.users)) [
        | inl gone ↦ rw (lost, gone) some_admin
        | inr (u, found) ↦ rw (lost, found) (enabled_admins-restore id store'.users u found)
      ]
    ]

-- Whatever the request to change a user asks for, and whatever it is answered, an enabled admin is
-- left where there was one.
pub patch_user-enabled_admins :
    (hasher : Hasher) (fresh : Text) (id : ℕ) (password role : Option Text) (disabled : Option Bool)
    (store : Store)
    → 1 ≤ enabled_admins store.users
    → 1 ≤ enabled_admins (patch_user hasher fresh id password role disabled store).1.users
unfolding patch_user
patch_user-enabled_admins hasher fresh id password role disabled store some_admin =
    elim (Option-cases (get user_id id store.users)) [
      | inl gone ↦ rw gone some_admin
      | inr (u, found) ↦
          elim (Bool-cases
            (is_enabled u && would_lose role disabled u && leb (enabled_admins store.users) 1)) [
              | inl refused ↦ rw (found, refused) some_admin
              | inr fine ↦
                  rw (found, fine)
                    (post_checked-enabled_admins id store
                      (update_user hasher fresh id password role disabled store) some_admin)
            ]
    ]

by_email-delete :
    (email : Text) (id : ℕ) (users : List User) (u : User)
    → by_email email users ≡ some u
    → (u.id == id) ≡ false
    → by_email email (delete user_id id users) ≡ some u
unfolding by_email delete
by_email-delete email id [] u found other = cc
by_email-delete email id (v ∷ users) u found other = elim (Bool-cases (eqb v.email email)) [
  | inl here ↦
      let same : v ≡ u = ground arith in
      let kept : (v.id == id) ≡ false = rw same other in rw (kept, here) (ap some same)
  | inr far ↦
      let rest = by_email-delete email id users u (rw far at found) other in
      elim (Bool-cases (v.id == id)) [
        | inl dropped ↦ rw dropped rest
        | inr kept ↦ rw (kept, far) rest
      ]
]

-- Where the address that the guard returned is exactly that of a user, whose id finds that user,
-- no request to delete a user removes the row.
pub remove_user-own :
    (hasher : Hasher) (fresh : Text) (id : ℕ) (current : Text) (store : Store) (u : User)
    → by_email current store.users ≡ some u
    → u.email ≡ current
    → get user_id u.id store.users ≡ some u
    → by_email current (remove_user hasher fresh id current store).1.users ≡ some u
unfolding remove_user
remove_user-own hasher fresh id current store u found own at_id =
    elim (Bool-cases (leb (length store.users) 1)) [
      | inl few ↦ rw few found
      | inr many ↦ elim (Bool-cases (is_own hasher current (get user_id id store.users))) [
        | inl mine ↦ rw (many, mine) found
        | inr other ↦
            let apart : (u.id == id) ≡ false = elim (Bool-cases (u.id == id)) [
              | inr ne ↦ ne
              | inl same ↦
                  let here : get user_id id store.users ≡ some u =
                    ap (λ j. get user_id j store.users) (sym ((==_iff u.id id).0 same)) ∙ at_id in
                  absurd (ground (arith, eqb_iff u.email current))
            ] in
            rw (many, other)
              (unfold delete_user rotate_jwt_secret in
                elim (Option-cases (get user_id id store.users)) [
                  | inl gone ↦ rw gone found
                  | inr (v, there) ↦ rw there (by_email-delete current id store.users u found apart)
                ])
      ]
    ]
