-- ===== src/Text/Laws.antt =====
-- Laws of the text operations.
use see_no_evil.Prelude.{
  length, ℕ, ◌≡◌, refl, sym, ap, ◌↔◌, inl, inr, true, [], ◌∷◌, ◌++◌, ◌==◌, arith, or-cases,
  and-parts, or-true_right,
}
use see_no_evil.Text.{Text, eqb, lower_char, lower, starts_with, ends_with, contains, drop}

pub eqb_refl : (s : Text) → eqb s s ≡ true
unfolding eqb
eqb_refl [] = refl
eqb_refl (c ∷ s) = ground (arith, eqb_refl s)

pub eqb_sound : (s t : Text) → eqb s t ≡ true → s ≡ t
unfolding eqb
eqb_sound [] [] h = refl
eqb_sound (a ∷ s) (b ∷ t) h = ground (arith, eqb_sound s t)
eqb_sound _ _ h = cc

pub eqb_iff : (s t : Text) → (eqb s t ≡ true) ↔ (s ≡ t)
eqb_iff s t = (eqb_sound s t, λ e. rw e (eqb_refl t))

pub starts_with-append : (p s : Text) → starts_with p (p ++ s) ≡ true
unfolding starts_with
starts_with-append [] s = refl
starts_with-append (c ∷ p) s = ground (arith, starts_with-append p s)

pub starts_with_sound : (p s : Text) → starts_with p s ≡ true → (t : Text) × (s ≡ p ++ t)
unfolding starts_with
starts_with_sound [] s h = (s, refl)
starts_with_sound (c ∷ p) [] h = cc
starts_with_sound (c ∷ p) (d ∷ s) h =
    let (same, rest) = and-parts (c == d) (starts_with p s) h in
    let (t, e) = starts_with_sound p s rest in (t, ground arith)

pub ends_with-append : (s p : Text) → ends_with p (s ++ p) ≡ true
unfolding ends_with
ends_with-append [] [] = refl
ends_with-append [] (c ∷ p) = ground (arith, eqb_refl (c ∷ p))
ends_with-append (c ∷ s) p = rw (ends_with-append s p) (or-true_right _)

pub starts_with-drop : (p s : Text) → starts_with p s ≡ true → s ≡ p ++ drop (length p) s
unfolding starts_with drop
starts_with-drop [] s h = refl
starts_with-drop (c ∷ p) [] h = cc
starts_with-drop (c ∷ p) (d ∷ s) h = ground (arith, starts_with-drop p s)

pub ends_with_sound : (p s : Text) → ends_with p s ≡ true → (t : Text) × (s ≡ t ++ p)
unfolding ends_with
ends_with_sound p [] h = ([], ground (arith, eqb_sound p []))
ends_with_sound p (c ∷ s) h = elim (or-cases (eqb p (c ∷ s)) (ends_with p s) h) [
  | inl e ↦ ([], sym (eqb_sound p (c ∷ s) e))
  | inr e ↦ let (t, d) = ends_with_sound p s e in (c ∷ t, ap (λ u. c ∷ u) d)
]

pub contains-append : (a k b : Text) → contains k (a ++ (k ++ b)) ≡ true
unfolding contains
contains-append [] [] [] = refl
contains-append [] [] (c ∷ b) = refl
contains-append [] (c ∷ k) b = ground (arith, starts_with-append (c ∷ k) b)
contains-append (c ∷ a) k b = rw (contains-append a k b) (or-true_right _)

pub contains_sound :
    (k s : Text) → contains k s ≡ true → (a : Text) × (b : Text) × (s ≡ a ++ (k ++ b))
unfolding contains
contains_sound k [] h = let (t, e) = starts_with_sound k [] h in ([], t, e)
contains_sound k (c ∷ s) h = elim (or-cases (starts_with k (c ∷ s)) (contains k s) h) [
  | inl e ↦ let (t, d) = starts_with_sound k (c ∷ s) e in ([], t, d)
  | inr e ↦ let (a, b, d) = contains_sound k s e in (c ∷ a, b, ap (λ u. c ∷ u) d)
]

lower_char_idem : (c : ℕ) → lower_char (lower_char c) ≡ lower_char c
unfolding lower_char
lower_char_idem c = ground arith

pub lower_idem : (s : Text) → lower (lower s) ≡ lower s
unfolding lower
lower_idem [] = refl
lower_idem (c ∷ s) = cc (lower_char_idem c, lower_idem s)

pub lower-append : (s t : Text) → lower (s ++ t) ≡ lower s ++ lower t
unfolding lower
lower-append [] t = refl
lower-append (c ∷ s) t = ap (λ u. lower_char c ∷ u) (lower-append s t)
