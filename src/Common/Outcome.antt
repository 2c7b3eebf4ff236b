-- ===== src/Common/Outcome.antt =====
-- A Python call that may raise, over a state that it mutates. What was written before a raise stays
-- written, so the state comes back beside the error too.
use mathlib.Core.Path.{◌≡◌}
use mathlib.Core.Bool.{Bool}
use lumendark.Common.Tests.{if◌then◌else◌}

-- The exceptions that the modelled code raises; each is a `ValueError` with its own text, but
-- `invalid_operation`, which a comparison with a NaN raises.
pub data Error : Type 0 where
  insufficient_available insufficient_liabilities invalid_asset user_not_found : Error
  order_exists invalid_operation : Error

pub data Result (A : Type 0) : Type 0 where
  ok : A → Result A
  err : Error → Result A

abbrev pub ⊤ : Type 0
⊤ = Unit {0}

abbrev pub Action : Type 0 → Type 0 → Type 0
Action S A = S → Result A × S

module _ {S A : Type 0} where
  abbrev pub pure : A → Action S A
  pure a s = (ok a, s)

  abbrev pub raise : Error → Action S A
  raise e s = (err e, s)

  abbrev pub gets : (S → A) → Action S A
  gets f s = (ok (f s), s)

infixl 5 ◌>>=◌ ◌>>◌
abbrev pub ◌>>=◌ : {S A B : Type 0} → Action S A → (A → Action S B) → Action S B
◌>>=◌ m f s = let (r, s') = m s in elim r [ ok a ↦ f a s' | err e ↦ raise e s' ]

abbrev pub ◌>>◌ : {S A B : Type 0} → Action S A → Action S B → Action S B
m >> k = m >>= λ _. k

abbrev pub modify : {S : Type 0} → (S → S) → Action S ⊤
modify f s = (ok tt, f s)

-- `if c: raise e`
abbrev pub raise_if : {S : Type 0} → Bool → Error → Action S ⊤
raise_if c e s = (if c then err e else ok tt, s)

-- The call returns, in a state and with a value that have the property.
pub record Runs {S A : Type 0} (m : Action S A) (s : S) (P : A → S → Type 0) : Type 0 where
  pub value : A
  pub returns : (m s).0 ≡ ok value
  pub holds : P value (m s).1

pub bind_ok :
    {S A B : Type 0} (m : Action S A) (f : A → Action S B) (s : S) (a : A)
    → (m s).0 ≡ ok a
    → (m >>= f) s ≡ f a (m s).1
bind_ok m f s a e = rw (◌>>=◌, e)

pub Runs-bind :
    {S A B : Type 0} {m : Action S A} {f : A → Action S B} {s : S} {P : A → S → Type 0}
    {Q : B → S → Type 0}
    → Runs m s P
    → ((a : A) (s' : S) → P a s' → Runs (f a) s' Q)
    → Runs (m >>= f) s Q
Runs-bind {m} {f} {s} h k =
    let e = bind_ok m f s h.value h.returns in
    let r = k h.value (m s).1 h.holds in
    record { value = r.value; returns = rw e r.returns; holds = rw e r.holds }

pub Runs-map :
    {S A : Type 0} {m : Action S A} {s : S} {P Q : A → S → Type 0}
    → Runs m s P
    → ((a : A) (s' : S) → P a s' → Q a s')
    → Runs m s Q
Runs-map {m} {s} h f = record {
  value = h.value;
  returns = h.returns;
  holds = f h.value (m s).1 h.holds;
}
