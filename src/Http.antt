-- ===== src/Http.antt =====
-- What a request handler of the API does: it returns a value, or raises `HTTPException` with a
-- status code.
use see_no_evil.Prelude.{ℕ, ◌≡◌, refl, ◌⊎◌, inl, inr}

pub data Reply {ℓ} (A : Type ℓ) : Type ℓ where
  ok : A → Reply A
  http : ℕ → Reply A

pub Reply-cases {ℓ} :
    {A : Type ℓ} (r : Reply A) → ((a : A) × (r ≡ ok a)) ⊎ ((code : ℕ) × (r ≡ http code))
Reply-cases (ok a) = inl (a, refl)
Reply-cases (http code) = inr (code, refl)
