-- ===== src/Auth/RateLimiter/Window.antt =====
-- No window holds more admitted calls of a key than the limit.
use see_no_evil.Prelude.{
  ℕ, suc, ◌≡◌, refl, sym, ap, ◌∙◌, ◌≤◌, inl, inr, false, List, [], ◌∷◌, ◌++◌, keep, any, length,
  Bool-cases, arith, All,
}
use see_no_evil.Text.{Text, eqb}
use see_no_evil.Text.Laws.{eqb_iff, eqb_refl}
use see_no_evil.Auth.RateLimiter.{Hits, hits_of, put, is_fresh, sweep}

-- No key stands twice.
abbrev pub IsAbsent : Text → Hits → Type 0
IsAbsent key hits = All (λ entry. eqb entry.0 key ≡ false) hits

abbrev pub IsDict : Hits → Type 0
IsDict [] = Unit
IsDict ((k, v) ∷ rest) = IsAbsent k rest × IsDict rest

pub hits_of-put_self : (key : Text) (v : List ℕ) (hits : Hits) → hits_of key (put key v hits) ≡ v
unfolding hits_of put
hits_of-put_self key v [] = rw (eqb_refl key) refl
hits_of-put_self key v ((k, w) ∷ rest) = elim (Bool-cases (eqb k key)) [
  | inl here ↦ rw (here, eqb_refl key) refl
  | inr other ↦ rw (other, other) (hits_of-put_self key v rest)
]

pub hits_of-put_ne :
    (key k : Text) (v : List ℕ) (hits : Hits)
    → eqb key k ≡ false
    → hits_of k (put key v hits) ≡ hits_of k hits
unfolding hits_of put
hits_of-put_ne key k v [] ne = rw ne refl
hits_of-put_ne key k v ((j, w) ∷ rest) ne = elim (Bool-cases (eqb j key)) [
  | inl here ↦
      let other : eqb j k ≡ false = ground (arith, eqb_iff j key) in rw (here, ne, other) refl
  | inr far ↦ elim (Bool-cases (eqb j k)) [
    | inl found ↦ rw (far, found) refl
    | inr other ↦ rw (far, other) (hits_of-put_ne key k v rest ne)
  ]
]

put-IsAbsent :
    (key k : Text) (v : List ℕ) (hits : Hits)
    → eqb key k ≡ false
    → IsAbsent k hits
    → IsAbsent k (put key v hits)
unfolding put
put-IsAbsent key k v [] ne absent = (ne, tt)
put-IsAbsent key k v ((j, w) ∷ rest) ne (first_ne, absent) = elim (Bool-cases (eqb j key)) [
  | inl here ↦ rw here (ne, absent)
  | inr far ↦ rw far (first_ne, put-IsAbsent key k v rest ne absent)
]

pub put-IsDict : (key : Text) (v : List ℕ) (hits : Hits) → IsDict hits → IsDict (put key v hits)
unfolding put
put-IsDict key v [] d = (tt, tt)
put-IsDict key v ((j, w) ∷ rest) (absent, d) = elim (Bool-cases (eqb j key)) [
  | inl here ↦ rw here (rw ((eqb_iff j key).0 here) at absent, d)
  | inr far ↦ rw far (
    put-IsAbsent key j v rest (ground (arith, eqb_iff j key, eqb_iff key j)) absent,
    put-IsDict key v rest d,
  )
]

module _ (limit window : ℕ) where
  -- How many of the times are still in the window.
  abbrev pub count : ℕ → List ℕ → ℕ
  count now times = length (keep (is_fresh limit window now) times)

  pub count-keep :
      (now later : ℕ) (times : List ℕ)
      → now ≤ later
      → count later (keep (is_fresh limit window now) times) ≡ count later times
  count-keep now later [] h = refl
  count-keep now later (t ∷ times) h = elim (Bool-cases (is_fresh limit window now t)) [
    | inl young ↦ elim (Bool-cases (is_fresh limit window later t)) [
      | inl still ↦ rw (young, still) (ap suc (count-keep now later times h))
      | inr old ↦ rw (young, old) (count-keep now later times h)
    ]
    | inr gone ↦
        let old : is_fresh limit window later t ≡ false = ground arith in
        rw (gone, old) (count-keep now later times h)
  ]

  pub count-append :
      (later now : ℕ) (times : List ℕ)
      → count later (times ++ (now ∷ [])) ≡ count later (now ∷ times)
  count-append later now [] = refl
  count-append later now (t ∷ times) =
      let rest = count-append later now times in
      elim (Bool-cases (is_fresh limit window later t)) [
        | inl young ↦ elim (Bool-cases (is_fresh limit window later now)) [
          | inl now_young ↦ rw (young, now_young) (ap suc (rest ∙ rw now_young refl))
          | inr now_old ↦ rw (young, now_old) (ap suc (rest ∙ rw now_old refl))
        ]
        | inr old ↦ rw old rest
      ]

  -- What has left the window stays out of it.
  count-stale :
      (now later : ℕ) (times : List ℕ)
      → now ≤ later
      → any (is_fresh limit window now) times ≡ false
      → count later times ≡ 0
  count-stale now later [] h none_fresh = refl
  count-stale now later (t ∷ times) h none_fresh =
      let gone : is_fresh limit window now t ≡ false = ground arith in
      let old : is_fresh limit window later t ≡ false = ground arith in
      rw old (count-stale now later times h (rw gone at none_fresh))

  sweep-IsAbsent :
      (now : ℕ) (key : Text) (hits : Hits)
      → IsAbsent key hits
      → IsAbsent key (sweep limit window now hits)
  unfolding sweep
  sweep-IsAbsent now key [] absent = tt
  sweep-IsAbsent now key ((k, v) ∷ rest) (ne, absent) =
      elim (Bool-cases (any (is_fresh limit window now) v)) [
        | inl live ↦ rw live (ne, sweep-IsAbsent now key rest absent)
        | inr stale ↦ rw stale (sweep-IsAbsent now key rest absent)
      ]

  pub sweep-IsDict : (now : ℕ) (hits : Hits) → IsDict hits → IsDict (sweep limit window now hits)
  unfolding sweep
  sweep-IsDict now [] d = tt
  sweep-IsDict now ((k, v) ∷ rest) (absent, d) =
      elim (Bool-cases (any (is_fresh limit window now) v)) [
        | inl live ↦ rw live (sweep-IsAbsent now k rest absent, sweep-IsDict now rest d)
        | inr stale ↦ rw stale (sweep-IsDict now rest d)
      ]

  hits_of-IsAbsent : (key : Text) (hits : Hits) → IsAbsent key hits → hits_of key hits ≡ []
  unfolding hits_of
  hits_of-IsAbsent key [] absent = refl
  hits_of-IsAbsent key ((k, v) ∷ rest) (ne, absent) = rw ne (hits_of-IsAbsent key rest absent)

  pub count-sweep :
      (now later : ℕ) (key : Text) (hits : Hits)
      → now ≤ later
      → IsDict hits
      → count later (hits_of key (sweep limit window now hits)) ≡ count later (hits_of key hits)
  unfolding sweep hits_of
  count-sweep now later key [] h d = refl
  count-sweep now later key ((k, v) ∷ rest) h (absent, d) =
      elim (Bool-cases (any (is_fresh limit window now) v)) [
        | inl live ↦ elim (Bool-cases (eqb k key)) [
          | inl here ↦ rw (live, here) refl
          | inr other ↦ rw (live, other) (count-sweep now later key rest h d)
        ]
        | inr stale ↦ elim (Bool-cases (eqb k key)) [
          | inl here ↦
              let gone : IsAbsent key rest = rw ((eqb_iff k key).0 here) at absent in
              let swept : hits_of key (sweep limit window now rest) ≡ [] =
                hits_of-IsAbsent key (sweep limit window now rest)
                  (sweep-IsAbsent now key rest gone) in
              rw (stale, here) (ap (count later) swept ∙ sym (count-stale now later v h stale))
          | inr other ↦ rw (stale, other) (count-sweep now later key rest h d)
        ]
      ]
