-- ===== src/Common/Dict/Sum.antt =====
-- Sums over the values of a dict, and properties that all its values have.
use lumendark.Common.{ℕ, ◌≡◌, Option, none, some, [], ◌∷◌, arith, ℤ, pos, ◌+ℤ◌, ◌-ℤ◌, int_laws}
use lumendark.Common.Dict.{Dict, lookup, insert, erase}

module _ {V : Type 0} where
  unfoldable pub sum : (V → ℤ) → Dict V → ℤ
  sum f [] = pos 0
  sum f ((k, v) ∷ d) = f v +ℤ sum f d

  -- what the entry at a key contributes
  abbrev pub at_key : (V → ℤ) → Option V → ℤ
  at_key f none = pos 0
  at_key f (some v) = f v

  pub sum-insert :
      (f : V → ℤ) (k : ℕ) (v : V) (d : Dict V)
      → sum f (insert k v d) ≡ sum f d -ℤ at_key f (lookup k d) +ℤ f v
  unfolding sum
  sum-insert f k v [] = omega int_laws
  sum-insert f k v (e ∷ d) = grind (int_laws, sum-insert f k v d)

  pub sum-erase :
      (f : V → ℤ) (k : ℕ) (d : Dict V) → sum f (erase k d) ≡ sum f d -ℤ at_key f (lookup k d)
  unfolding sum
  sum-erase f k [] = omega int_laws
  sum-erase f k (e ∷ d) = grind (int_laws, sum-erase f k d)

  abbrev pub All : (ℕ → V → Type 0) → Dict V → Type 0
  All P [] = Unit
  All P ((k, v) ∷ d) = P k v × All P d

  pub All-lookup :
      (P : ℕ → V → Type 0) (k : ℕ) (v : V) (d : Dict V) → All P d → lookup k d ≡ some v → P k v
  All-lookup P k v [] h e = cc
  All-lookup P k v ((j, w) ∷ d) h e = ground (arith, All-lookup P k v d h.1)

  pub All-insert :
      (P : ℕ → V → Type 0) (k : ℕ) (v : V) (d : Dict V) → All P d → P k v → All P (insert k v d)
  All-insert P k v [] h p = (p, tt)
  All-insert P k v (e ∷ d) h p = ground (arith, All-insert P k v d h.1 p)

  pub All-erase : (P : ℕ → V → Type 0) (k : ℕ) (d : Dict V) → All P d → All P (erase k d)
  All-erase P k [] h = tt
  All-erase P k (e ∷ d) h = ground (arith, All-erase P k d h.1)

  pub All-map :
      (P Q : ℕ → V → Type 0) → ((k : ℕ) (v : V) → P k v → Q k v) → (d : Dict V) → All P d → All Q d
  All-map P Q f [] h = tt
  All-map P Q f ((k, v) ∷ d) h = (f k v h.0, All-map P Q f d h.1)
