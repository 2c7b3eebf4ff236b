-- ===== src/Common/Lists.antt =====
-- Properties of all items of a list, and items with distinct ids.
use Prim.Native.Nat.{ℕ}
use mathlib.Core.Logic.{◌≢◌}
use mathlib.Core.List.{List, [], ◌∷◌, ◌++◌}

abbrev pub Each : {A : Type 0} → (A → Type 0) → List A → Type 0
Each P [] = Unit {0}
Each P (x ∷ xs) = P x × Each P xs

-- No two items have one id.
abbrev pub Distinct : {A : Type 0} → (A → ℕ) → List A → Type 0
Distinct id [] = Unit {0}
Distinct id (x ∷ xs) = Each (λ y. id y ≢ id x) xs × Distinct id xs

module _ {A : Type 0} where
  pub Each-map : (P Q : A → Type 0) → ((x : A) → P x → Q x) → (xs : List A) → Each P xs → Each Q xs
  Each-map P Q f [] h = tt
  Each-map P Q f (x ∷ xs) h = (f x h.0, Each-map P Q f xs h.1)

  pub Each-both :
      (P Q : A → Type 0) (xs : List A) → Each P xs → Each Q xs → Each (λ x. P x × Q x) xs
  Each-both P Q [] h k = tt
  Each-both P Q (x ∷ xs) h k = ((h.0, k.0), Each-both P Q xs h.1 k.1)

  pub Each-append : (P : A → Type 0) (xs ys : List A) → Each P xs → Each P ys → Each P (xs ++ ys)
  Each-append P [] ys h k = k
  Each-append P (x ∷ xs) ys h k = (h.0, Each-append P xs ys h.1 k)
