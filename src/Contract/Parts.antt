-- ===== src/Contract/Parts.antt =====
-- What holds after a part of a call that returns, and that a part returns.
use lumendark.Common.{◌≡◌, Bool, true, none, some, Option-cases, Bool-cases, inl, inr}
use lumendark.Contract.{Part, ◌>=>◌, require}

module _ {S : Type 0} where
  -- Wherever the part returns from a state with `P`, it returns in a state with `Q`.
  abbrev pub Ensures : (S → Type 0) → Part S → (S → Type 0) → Type 0
  Ensures P f Q = (s s' : S) → P s → f s ≡ some s' → Q s'

  pub Ensures-then :
      {P Q R : S → Type 0} (f g : Part S) → Ensures P f Q → Ensures Q g R → Ensures P (f >=> g) R
  unfolding ◌>=>◌
  Ensures-then f g hf hg s s' p e = elim (Option-cases (f s)) [
    | inl panics ↦ let q : none ≡ some s' = rw (◌>=>◌, panics) at e in absurd (cc q)
    | inr (m, returns) ↦
        let q : g m ≡ some s' = rw (◌>=>◌, returns) at e in hg m s' (hf s m p returns) q
  ]

  pub Ensures-require :
      {P R : S → Type 0} (b : Bool) (g : Part S)
      → (b ≡ true → Ensures P g R)
      → Ensures P (require b >=> g) R
  unfolding ◌>=>◌ require
  Ensures-require b g h s s' p e = elim (Bool-cases b) [
    | inl t ↦ let q : g s ≡ some s' = rw t at e in h t s s' p q
    | inr f ↦ let q : none ≡ some s' = rw f at e in absurd (cc q)
  ]

  -- The part returns from the state, in one with `Q`.
  pub record Returns (f : Part S) (s : S) (Q : S → Type 0) : Type 0 where
    pub after : S
    pub returns : f s ≡ some after
    pub holds : Q after

  pub Returns-then :
      {Q R : S → Type 0} (f g : Part S) (s : S)
      → Returns f s Q
      → ((m : S) → Q m → Returns g m R)
      → Returns (f >=> g) s R
  unfolding ◌>=>◌
  Returns-then f g s h k =
      let r = k h.after h.holds in
      record { after = r.after; returns = rw (◌>=>◌, h.returns) r.returns; holds = r.holds }

  pub Returns-require :
      {R : S → Type 0} (b : Bool) (g : Part S) (s : S)
      → b ≡ true
      → Returns g s R
      → Returns (require b >=> g) s R
  unfolding ◌>=>◌ require
  Returns-require b g s e r = record { after = r.after; returns = rw e r.returns; holds = r.holds }
