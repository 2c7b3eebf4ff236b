-- ===== src/Texts/Fields.antt =====
-- Texts joined by a separator that a part does not contain.
use lumendark.Common.{ℕ, ◌≡◌, ◌≢◌, refl, [], ◌∷◌, ◌++◌, Each}
use lumendark.Texts.{Text}

abbrev pub Avoids : ℕ → Text → Type 0
Avoids c = Each (λ d. d ≢ c)

-- The part before the first separator is determined.
pub append-separator_left :
    (c : ℕ) (xs ys us vs : Text)
    → Avoids c xs
    → Avoids c ys
    → xs ++ c ∷ us ≡ ys ++ c ∷ vs
    → (xs ≡ ys) × (us ≡ vs)
append-separator_left c [] [] us vs h k e = (refl, cc)
append-separator_left c [] (y ∷ ys) us vs h k e = absurd (k.0 (cc))
append-separator_left c (x ∷ xs) [] us vs h k e = absurd (h.0 (cc))
append-separator_left c (x ∷ xs) (y ∷ ys) us vs h k e =
    let (p, q) = append-separator_left c xs ys us vs h.1 k.1 (cc) in (cc, q)

not-Avoids : (c : ℕ) (xs ys : Text) → Avoids c (xs ++ c ∷ ys) → ⊥
not-Avoids c [] ys h = h.0 refl
not-Avoids c (x ∷ xs) ys h = not-Avoids c xs ys h.1

-- The part behind the last separator is determined.
pub append-separator_right :
    (c : ℕ) (xs ys us vs : Text)
    → Avoids c us
    → Avoids c vs
    → xs ++ c ∷ us ≡ ys ++ c ∷ vs
    → (xs ≡ ys) × (us ≡ vs)
append-separator_right c [] [] us vs h k e = (refl, cc)
append-separator_right c [] (y ∷ ys) us vs h k e =
    let t : us ≡ ys ++ c ∷ vs = cc in absurd (not-Avoids c ys vs (rw t at h))
append-separator_right c (x ∷ xs) [] us vs h k e =
    let t : vs ≡ xs ++ c ∷ us = cc in absurd (not-Avoids c xs us (rw t at k))
append-separator_right c (x ∷ xs) (y ∷ ys) us vs h k e =
    let (p, q) = append-separator_right c xs ys us vs h k (cc) in (cc, q)
