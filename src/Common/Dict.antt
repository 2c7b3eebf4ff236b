-- ===== src/Common/Dict.antt =====
-- A Python dict whose keys are ids, in insertion order.
pub mod Sum
use Prim.Native.Nat.{ℕ}
use mathlib.Core.Path.{◌≡◌, refl, sym, ap, ◌∙◌}
use mathlib.Core.Logic.{◌≢◌, ◌⊎◌, inl, inr}
use mathlib.Core.Bool.{Bool, true, false}
use mathlib.Core.Option.{Option, none, some}
use mathlib.Core.List.{List, [], ◌∷◌}
use native.Mathlib.Omega.{arith}
use lumendark.Common.Tests.{◌==◌, if◌then◌else◌, Bool-cases, ==→eq, eq→==}

abbrev pub Dict {ℓ} : Type ℓ → Type ℓ
Dict V = List (ℕ × V)

module _ {ℓ} {V : Type ℓ} where
  -- `d[id] = value`: in place where the id is there, else at the end
  abbrev pub insert : (id : ℕ) (value : V) → Dict V → Dict V
  insert id value [] = (id, value) ∷ []
  insert id value (entry ∷ rest) =
      if id == entry.0 then (id, value) ∷ rest else entry ∷ insert id value rest

  -- `d.pop(id, None)`: the dict that is left
  abbrev pub erase : (id : ℕ) → Dict V → Dict V
  erase id [] = []
  erase id (entry ∷ rest) = if id == entry.0 then rest else entry ∷ erase id rest

  -- `d.get(id)`
  abbrev pub lookup : (id : ℕ) → Dict V → Option V
  lookup id [] = none
  lookup id ((other, value) ∷ rest) = if id == other then some value else lookup id rest

  -- No id is listed twice.
  abbrev pub IsDict : Dict V → Type ℓ
  IsDict [] = Unit
  IsDict ((id, value) ∷ rest) = (lookup id rest ≡ none) × IsDict rest

  -- `id in d`
  abbrev pub contains : (id : ℕ) → Dict V → Bool
  contains id dict = elim (lookup id dict) [ some _ ↦ true | none ↦ false ]

  pub lookup-insert :
      (id key : ℕ) (value : V) (dict : Dict V)
      → lookup id (insert key value dict) ≡ (if id == key then some value else lookup id dict)
  lookup-insert id key value [] = refl
  lookup-insert id key value (entry ∷ rest) = ground (arith, lookup-insert id key value rest)

  pub lookup-insert_self :
      (id : ℕ) (value : V) (dict : Dict V) → lookup id (insert id value dict) ≡ some value
  lookup-insert_self id value dict = rw lookup-insert (ground arith)

  pub insert-IsDict :
      (id : ℕ) (value : V) (dict : Dict V) → IsDict dict → IsDict (insert id value dict)
  insert-IsDict id value [] h = (refl, tt)
  insert-IsDict id value (entry ∷ rest) h =
      ground (arith, insert-IsDict id value rest h.1, lookup-insert entry.0 id value rest)

  pub lookup-insert_ne :
      (id key : ℕ) (value : V) (dict : Dict V)
      → id ≢ key
      → lookup id (insert key value dict) ≡ lookup id dict
  lookup-insert_ne id key value dict h = rw lookup-insert (ground arith)

  lookup-erase_absent :
      (id key : ℕ) (dict : Dict V) → lookup id dict ≡ none → lookup id (erase key dict) ≡ none
  lookup-erase_absent id key [] h = refl
  lookup-erase_absent id key (entry ∷ rest) h = ground (arith, lookup-erase_absent id key rest)

  pub erase-IsDict : (id : ℕ) (dict : Dict V) → IsDict dict → IsDict (erase id dict)
  erase-IsDict id [] h = tt
  erase-IsDict id (entry ∷ rest) h =
      ground (arith, erase-IsDict id rest h.1, lookup-erase_absent entry.0 id rest)

  pub lookup-erase_self : (id : ℕ) (dict : Dict V) → IsDict dict → lookup id (erase id dict) ≡ none
  lookup-erase_self id [] h = refl
  lookup-erase_self id (entry ∷ rest) h = ground (arith, lookup-erase_self id rest h.1)

  pub erase-insert :
      (id : ℕ) (value : V) (dict : Dict V)
      → IsDict dict
      → erase id (insert id value dict) ≡ erase id dict
  erase-insert id value [] h = ground arith
  erase-insert id value (entry ∷ rest) h = ground (arith, erase-insert id value rest h.1)

  pub lookup-erase_ne :
      (id key : ℕ) (dict : Dict V) → id ≢ key → lookup id (erase key dict) ≡ lookup id dict
  lookup-erase_ne id key [] h = refl
  lookup-erase_ne id key (entry ∷ rest) h = ground (arith, lookup-erase_ne id key rest h)

  -- What a changed dict holds, at the changed id or at another one.
  pub lookup-insert-some :
      (id key : ℕ) (value v : V) (dict : Dict V)
      → lookup id (insert key value dict) ≡ some v
      → ((id ≡ key) × (v ≡ value)) ⊎ (lookup id dict ≡ some v)
  lookup-insert-some id key value v dict e = elim (Bool-cases (id == key)) [
    | inl t ↦
        let q : some value ≡ some v = rw (lookup-insert id key value dict, t) at e in
        inl (==→eq id key t, cc q)
    | inr f ↦ inr (rw (lookup-insert id key value dict, f) at e)
  ]

  pub lookup-erase-some :
      (id key : ℕ) (v : V) (dict : Dict V)
      → IsDict dict
      → lookup id (erase key dict) ≡ some v
      → (id ≢ key) × (lookup id dict ≡ some v)
  lookup-erase-some id key v dict d e = elim (Bool-cases (id == key)) [
    | inl t ↦
        let q : lookup id (erase key dict) ≡ none =
          ap (λ (i : ℕ). lookup i (erase key dict)) (==→eq id key t)
          ∙ lookup-erase_self key dict d in
        absurd (cc (e, q))
    | inr f ↦
        let ne : id ≢ key = λ h. cc (f, eq→== id key h) in
        (ne, sym (lookup-erase_ne id key dict ne) ∙ e)
  ]
