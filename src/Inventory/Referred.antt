-- ===== src/Inventory/Referred.antt =====
-- What the handlers of profiles keep for the devices.
use see_no_evil.Prelude.{
  ℕ, ◌≡◌, refl, ◌∙◌, inl, inr, true, false, Option, none, some, List, [], ◌∷◌, ◌++◌, any, ◌==◌,
  Bool-cases, Option-cases, arith,
}
use see_no_evil.Text.{eqb}
use see_no_evil.Models.{Device, Profile}
use see_no_evil.Table.{get, update, delete, key-get}
use see_no_evil.Decide.{profile_id}
use see_no_evil.Opa.{◌>>=◌}
use see_no_evil.Inventory.{set_field}
use see_no_evil.Inventory.Devices.{is_profile}
use see_no_evil.Inventory.Profiles.{
  ProfileUpdate, name_taken, create_profile, changed_profile, update_profile, delete_profile,
}
use see_no_evil.Inventory.Tables.{
  HasProfiles, is_profile-append, is_profile-delete, is_profile-update,
}

module _ {Float : Type 0} where
  HasProfiles-step :
      (profiles after : List (Profile Float)) (devices : List Device)
      → ((id : ℕ) → is_profile profiles id ≡ true → is_profile after id ≡ true)
      → HasProfiles profiles devices
      → HasProfiles after devices
  HasProfiles-step profiles after [] step h = tt
  HasProfiles-step profiles after (d ∷ devices) step (h, hs) =
      (step d.profile_id h, HasProfiles-step profiles after devices step hs)

  pub create_profile-HasProfiles :
      (new : Profile Float) (profiles : List (Profile Float)) (devices : List Device)
      → HasProfiles profiles devices
      → HasProfiles (create_profile new profiles).1 devices
  unfolding create_profile
  create_profile-HasProfiles new profiles devices h =
      elim (Bool-cases (any (λ q. eqb q.name new.name) profiles)) [
        | inl taken ↦ rw taken h
        | inr free ↦ rw free (
            HasProfiles-step profiles (profiles ++ (new ∷ [])) devices
              (λ id known. is_profile-append id profiles new known) h)
      ]

  -- A row that is computed keeps an id.
  HasId : ℕ → Option (Profile Float) → Type 0
  HasId id none = Unit
  HasId id (some q) = q.id ≡ id

  bind-HasId :
      {A : Type 0} (id : ℕ) (o : Option A) (k : A → Option (Profile Float))
      → ((a : A) → HasId id (k a))
      → HasId id (o >>= k)
  unfolding HasId
  bind-HasId id none k h = tt
  bind-HasId id (some a) k h = h a

  changed_profile-HasId :
      (body : ProfileUpdate Float) (p : Profile Float) → HasId p.id (changed_profile body p)
  unfolding HasId
  changed_profile-HasId body p = bind-HasId p.id (set_field body.name p.name) _ (λ name.
      bind-HasId p.id (set_field body.image_thresholds p.image_thresholds) _ (λ thresholds.
        bind-HasId p.id (set_field body.schedule p.schedule) _ (λ schedule.
          bind-HasId p.id (set_field body.quota_minutes_per_day p.quota_minutes_per_day) _ (λ quota.
            bind-HasId p.id (set_field body.allow_domains p.allow_domains) _ (λ allowed.
              bind-HasId p.id (set_field body.enforce_allowlist p.enforce_allowlist) _ (λ enforced.
                bind-HasId p.id (set_field body.deny_domains p.deny_domains) _ (λ denied.
                  bind-HasId p.id (set_field body.deny_url_keywords p.deny_url_keywords) _
                    (λ keywords.
                      bind-HasId p.id
                        (set_field body.allow_youtube_channels p.allow_youtube_channels) _
                        (λ channels.
                          bind-HasId p.id
                            (set_field body.deny_youtube_channels p.deny_youtube_channels) _
                            (λ denied_channels. refl))))))))))

  changed_profile_id :
      (body : ProfileUpdate Float) (p : Profile Float) {q : Profile Float}
      → changed_profile body p ≡ some q
      → q.id ≡ p.id
  unfolding HasId
  changed_profile_id body p {q} e = rw e at (changed_profile-HasId body p)

  pub update_profile-HasProfiles :
      (id : ℕ) (body : ProfileUpdate Float) (profiles : List (Profile Float))
      (devices : List Device)
      → HasProfiles profiles devices
      → HasProfiles (update_profile id body profiles).1 devices
  unfolding update_profile
  update_profile-HasProfiles id body profiles devices h =
      elim (Option-cases (get profile_id id profiles)) [
        | inl gone ↦ rw gone h
        | inr (p, found) ↦ elim (Option-cases (changed_profile body p)) [
          | inl broken ↦ rw (found, broken) h
          | inr (q, done) ↦ elim (Bool-cases (name_taken q profiles)) [
            | inl taken ↦ rw (found, done, taken) h
            | inr free ↦
                let same : q.id ≡ id =
                  changed_profile_id body p done ∙ key-get profile_id id profiles found in
                rw (found, done, free)
                  (HasProfiles-step profiles (update profile_id id (λ old. q) profiles) devices
                    (λ j known. is_profile-update id j q profiles same known) h)
          ]
        ]
      ]

  still_there :
      (id : ℕ) (profiles : List (Profile Float)) (devices : List Device)
      → any (λ d. d.profile_id == id) devices ≡ false
      → HasProfiles profiles devices
      → HasProfiles (delete profile_id id profiles) devices
  still_there id profiles [] unused h = tt
  still_there id profiles (d ∷ devices) unused (h, hs) = (
    is_profile-delete id d.profile_id profiles (ground arith) h,
    still_there id profiles devices (ground arith) hs,
  )

  pub delete_profile-HasProfiles :
      (id : ℕ) (profiles : List (Profile Float)) (devices : List Device)
      → HasProfiles profiles devices
      → HasProfiles (delete_profile id devices profiles).1 devices
  unfolding delete_profile
  delete_profile-HasProfiles id profiles devices h =
      elim (Option-cases (get profile_id id profiles)) [
        | inl gone ↦ rw gone h
        | inr (p, found) ↦ elim (Bool-cases (any (λ d. d.profile_id == id) devices)) [
          | inl used ↦ rw (found, used) h
          | inr unused ↦ rw (found, unused) (still_there id profiles devices unused h)
        ]
      ]
