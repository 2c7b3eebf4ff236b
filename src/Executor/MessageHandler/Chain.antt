-- ===== src/Executor/MessageHandler/Chain.antt =====
-- What the contract on the chain asks of the actions in its queue, and what they do to its balances, in the
-- units of the backend: contracts/orderbook/src/lib.rs, `withdraw` and `settle`, for amounts that
-- blockchain/transaction.py converts as they are. Contract/Carrying compares it with the contract itself.
use lumendark.Common.{
  ℕ, ◌≡◌, refl, sym, subst, List, [], ◌∷◌, ◌++◌, map, ℤ, pos, negsuc, ◌+ℤ◌, ◌≤ℤ◌, int_laws,
  Bool-cases, true, inl, inr, pos_part, if◌then◌else◌, ◌==◌, arith,
}
use lumendark.Common.Int.{◌-ℤ◌}
use lumendark.Models.Order.{Asset}
use lumendark.Models.Message.{ChainAction, ActionPayload, withdrawal, settlement}
use lumendark.Storage.UserStore.{UserStore}
use lumendark.Storage.UserStore.Holdings.{asset_eqb, concerns}
use lumendark.Storage.UserStore.Cover.{Demand, bump, concerns_self}
use lumendark.Storage.UserStore.Totals.{totals}
use lumendark.Executor.MessageHandler.{State}

-- Amounts are positive, and who pays has the funds.
abbrev pub Allowed : ActionPayload → Demand → Type 0
Allowed (withdrawal user x amount) l = (pos 1 ≤ℤ amount) × (amount ≤ℤ l user x)
Allowed (settlement trade buyer seller sold paid) l =
    (pos 1 ≤ℤ sold) × (pos 1 ≤ℤ paid) × (sold ≤ℤ l seller Asset.a) × (paid ≤ℤ l buyer Asset.b)

abbrev pub effect : ActionPayload → Demand → Demand
effect (withdrawal user x amount) l v y = l v y -ℤ bump user x amount v y
effect (settlement trade buyer seller sold paid) l v y =
    l v y
    -ℤ bump seller Asset.a sold v y
    +ℤ bump seller Asset.b paid v y
    +ℤ bump buyer Asset.a sold v y
    -ℤ bump buyer Asset.b paid v y

-- The actions are all allowed, one after another, and lead from the one ledger to the other.
abbrev pub Steps : Demand → List ActionPayload → Demand → Type 0
Steps l [] l' = l ≡ l'
Steps l (p ∷ ps) l' = Allowed p l × Steps (effect p l) ps l'

pub Steps-append :
    (l m n : Demand) (ps qs : List ActionPayload)
    → Steps l ps m
    → Steps m qs n
    → Steps l (ps ++ qs) n
Steps-append l m n [] qs h k = subst (λ (d : Demand). Steps d qs n) (sym h) k
Steps-append l m n (p ∷ ps) qs h k = (h.0, Steps-append (effect p l) m n ps qs h.1 k)

pub bump_neg :
    (u : ℕ) (x : Asset) (amount : ℤ) (v : ℕ) (y : Asset)
    → bump u x (pos 0 -ℤ amount) v y ≡ pos 0 -ℤ bump u x amount v y
bump_neg u x amount v y = elim (Bool-cases (concerns u x v y)) [
  | inl t ↦ rw t
  | inr f ↦ rw f (omega int_laws)
]

pub bump_zero : (u : ℕ) (x : Asset) (v : ℕ) (y : Asset) (m : ℤ) → m +ℤ bump u x (pos 0) v y ≡ m
bump_zero u x v y m = elim (Bool-cases (concerns u x v y)) [
  | inl t ↦ rw t (omega int_laws)
  | inr f ↦ rw f (omega int_laws)
]

pub bump_self :
    (u : ℕ) (x : Asset) (amount : ℤ) → asset_eqb x x ≡ true → amount ≤ℤ bump u x amount u x
bump_self u x amount real = rw (concerns_self u x real) (omega arith)

pub bump_nonneg :
    (u : ℕ) (x : Asset) (amount : ℤ) (v : ℕ) (y : Asset)
    → pos 1 ≤ℤ amount
    → pos 0 ≤ℤ bump u x amount v y
bump_nonneg u x amount v y h = elim (Bool-cases (concerns u x v y)) [
  | inl t ↦ rw t (omega arith)
  | inr f ↦ rw f (omega arith)
]

abbrev pub payloads : List ChainAction → List ActionPayload
payloads = map (λ (act : ChainAction). act.payload)

abbrev pub nothing : Demand
nothing v y = pos 0

pub pos_of_positive : (amount : ℤ) → pos 1 ≤ℤ amount → pos (pos_part amount) ≡ amount
pos_of_positive (pos n) h = refl
pos_of_positive (negsuc n) h = absurd (omega arith)

pub pos_of_negated : (amount : ℤ) → pos 1 ≤ℤ amount → pos (pos_part (pos 0 -ℤ amount)) ≡ pos 0
unfolding ◌-ℤ◌
pos_of_negated (pos n) h = ground arith
pos_of_negated (negsuc n) h = absurd (omega arith)

-- What a message that moves the supplies by `delta` deposits for its user.
abbrev pub funded : ℕ → (Asset → ℤ) → Demand
funded user delta v y = if v == user then pos (pos_part (delta y)) else pos 0

-- The actions that were queued lead from the totals, with `credit` on top, to the new totals.
pub record Queued (credit : Demand) (users : UserStore) (actions : List ChainAction)
    (users' : UserStore) (actions' : List ChainAction) : Type 0 where
  pub new : List ActionPayload
  pub queued : payloads actions' ≡ payloads actions ++ new
  pub steps : Steps (λ v y. totals users v y +ℤ credit v y) new (totals users')

abbrev pub Chained : Demand → State → State → Type 0
Chained credit s s' = Queued credit s.users s.actions s'.users s'.actions

pub ledger_eq : {l m : Demand} → ((v : ℕ) (y : Asset) → l v y ≡ m v y) → l ≡ m
ledger_eq h = λ i v y. h v y i
