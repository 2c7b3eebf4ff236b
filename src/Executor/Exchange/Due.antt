-- ===== src/Executor/Exchange/Due.antt =====
-- Deposits that wait to be credited, and what more funds on the chain allow.
use lumendark.Common.{
  ℕ, ◌≡◌, ap, subst, List, [], ◌∷◌, ◌++◌, arith, pos, ◌+ℤ◌, ◌≤ℤ◌, int_laws, Each,
}
use lumendark.Models.Order.{Asset}
use lumendark.Models.Message.{ActionPayload, withdrawal, settlement}
use lumendark.Storage.UserStore.Cover.{Demand, bump}
use lumendark.Executor.MessageHandler.Chain.{Allowed, effect, Steps, ledger_eq, bump_nonneg}
use lumendark.Blockchain.Decoding.RoundTrip.{asset_of}
use lumendark.Executor.Exchange.{Funding}

abbrev pub Positive : Funding → Type 0
Positive d = pos 1 ≤ℤ d.amount

abbrev pub due : List Funding → Demand
due [] v y = pos 0
due (d ∷ ds) v y = bump d.user (asset_of d.asset) d.amount v y +ℤ due ds v y

pub due_nonneg : (ds : List Funding) → Each Positive ds → (v : ℕ) (y : Asset) → pos 0 ≤ℤ due ds v y
due_nonneg [] h v y = omega arith
due_nonneg (d ∷ ds) h v y =
    omega (int_laws, bump_nonneg d.user (asset_of d.asset) d.amount v y h.0, due_nonneg ds h.1 v y)

pub due-snoc :
    (ds : List Funding) (d : Funding) (v : ℕ) (y : Asset)
    → due (ds ++ d ∷ []) v y ≡ due ds v y +ℤ bump d.user (asset_of d.asset) d.amount v y
due-snoc [] d v y = omega int_laws
due-snoc (x ∷ ds) d v y = rw (due-snoc ds d v y) (omega int_laws)

-- More funds allow the same actions.
Allowed-more :
    (p : ActionPayload) (l more : Demand)
    → ((v : ℕ) (y : Asset) → pos 0 ≤ℤ more v y)
    → Allowed p l
    → Allowed p (λ v y. l v y +ℤ more v y)
Allowed-more (withdrawal user x amount) l more h a = (a.0, omega (int_laws, a.1, h user x))
Allowed-more (settlement trade buyer seller sold paid) l more h a =
    (a.0, a.1, omega (int_laws, a.2, h seller Asset.a), omega (int_laws, a.3, h buyer Asset.b))

effect-more :
    (p : ActionPayload) (l more : Demand)
    → (λ v y. effect p l v y +ℤ more v y) ≡ effect p (λ v y. l v y +ℤ more v y)
effect-more (withdrawal user x amount) l more = ledger_eq λ v y. omega int_laws
effect-more (settlement trade buyer seller sold paid) l more = ledger_eq λ v y. omega int_laws

pub Steps-more :
    (l m more : Demand) (ps : List ActionPayload)
    → ((v : ℕ) (y : Asset) → pos 0 ≤ℤ more v y)
    → Steps l ps m
    → Steps (λ v y. l v y +ℤ more v y) ps (λ v y. m v y +ℤ more v y)
Steps-more l m more [] h s = ledger_eq λ v y. ap (λ (d : Demand). d v y +ℤ more v y) s
Steps-more l m more (p ∷ ps) h s = (
  Allowed-more p l more h s.0,
  subst (λ (d : Demand). Steps d ps (λ v y. m v y +ℤ more v y)) (effect-more p l more)
      (Steps-more (effect p l) m more ps h s.1),
)
