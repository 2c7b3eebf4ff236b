-- ===== src/Executor/MessageHandler/Settling.antt =====
-- The four calls of `_process_trade` on the user store: from covered liabilities they return, and funds only
-- change hands.
use lumendark.Common.{
  ℕ, ◌≡◌, refl, true, ℤ, pos, ◌+ℤ◌, ◌-ℤ◌, ◌≤ℤ◌, int_laws, Decimal, Runs, Runs-bind, ⊤, mul_pos,
  Runs-map, Bool-cases, inl, inr,
}
use lumendark.Models.Order.{Asset, OrderSide, buy, sell}
use lumendark.Models.Trade.{Trade, amount_a, amount_b}
use lumendark.Models.Message.{ActionPayload, settlement}
use lumendark.Storage.UserStore
use lumendark.Storage.UserStore.{UserStore}
use lumendark.Storage.UserStore.Holdings.{supply, asset_eqb, concerns}
use lumendark.Storage.UserStore.Cover.{
  Demand, bump, Covers, Covers-le, consume_liability-Covers, credit-Covers,
}
use lumendark.Storage.UserStore.Supply.{shift, supply-consume_liability, supply-credit}
use lumendark.Matching.Engine.Owed.{traded}
use lumendark.Storage.UserStore.Totals.{totals, totals-consume_liability, totals-credit}
use lumendark.Executor.MessageHandler.Chain.{effect, bump_neg}
use lumendark.Executor.MessageHandler.{settle_users}

-- `trade` as an action for the chain.
abbrev pub settlement_of : Trade → ActionPayload
settlement_of t = settlement t.id t.buyer_address t.seller_address (amount_a t) (amount_b t)

abbrev pub Nonneg : Demand → Type 0
Nonneg d = (v : ℕ) (y : Asset) → pos 0 ≤ℤ d v y

-- From a store `st` on: the demand `d` is covered, the supply has moved by `delta` and the totals by
-- `move`.
abbrev Stage : UserStore → Demand → (Asset → ℤ) → Demand → ⊤ → UserStore → Type 0
Stage st d delta move _ s =
    Covers s d
    × ((y : Asset) → supply s y ≡ supply st y +ℤ delta y)
    × ((v : ℕ) (y : Asset) → totals s v y ≡ totals st v y +ℤ move v y)

shift_neg :
    (x : Asset) (amount : ℤ) (y : Asset) → shift x (pos 0 -ℤ amount) y ≡ pos 0 -ℤ shift x amount y
shift_neg x amount y = elim (Bool-cases (asset_eqb y x)) [
  | inl t ↦ rw t
  | inr f ↦ rw f (omega int_laws)
]

pub with_bump :
    (d : Demand) (u : ℕ) (x : Asset) (amount : ℤ)
    → Nonneg d
    → pos 1 ≤ℤ amount
    → Nonneg (λ v y. d v y +ℤ bump u x amount v y)
with_bump d u x amount nonneg positive v y = elim (Bool-cases (concerns u x v y)) [
  | inl t ↦ rw t (omega (int_laws, nonneg v y))
  | inr f ↦ rw f (omega (int_laws, nonneg v y))
]

module _ (st s : UserStore) (u : ℕ) (x : Asset) (amount : Decimal) (positive : pos 1 ≤ℤ amount)
    (d : Demand) (delta : Asset → ℤ) (move : Demand) (real : asset_eqb x x ≡ true) where
  consume_liability-Stage :
      Nonneg d
      → Stage st (λ v y. d v y +ℤ bump u x amount v y) delta move tt s
      → Runs
          (UserStore.consume_liability u x amount)
          s
          (Stage st d (λ y. delta y -ℤ shift x amount y) (λ v y. move v y -ℤ bump u x amount v y))
  consume_liability-Stage nonneg (c, moved, worth) =
      let p = consume_liability-Covers s u x real d amount positive nonneg c in
      record {
        value = tt;
        returns = p.0;
        holds = (
          p.1,
          λ y.
              rw
                (
                  supply-consume_liability s u x d amount positive nonneg real c y,
                  moved y,
                  shift_neg x amount y,
                )
                (omega int_laws),
          λ v y.
              rw
                (
                  totals-consume_liability s u x d amount positive nonneg real c v y,
                  worth v y,
                  bump_neg u x amount v y,
                )
                (omega int_laws),
        );
      }

  credit-Stage :
      Stage st d delta move tt s
      → Runs
          (UserStore.credit u x amount)
          s
          (Stage st d (λ y. delta y +ℤ shift x amount y) (λ v y. move v y +ℤ bump u x amount v y))
  credit-Stage (c, moved, worth) =
      let p = credit-Covers s u x real d amount positive c in
      record {
        value = tt;
        returns = p.0;
        holds = (
          p.1,
          λ y. rw (supply-credit s u x amount y, moved y) (omega int_laws),
          λ v y. rw (totals-credit s u x amount v y, worth v y) (omega int_laws),
        );
      }

-- For a trade of positive price and quantity, from liabilities that cover a demand that is
-- nowhere negative and what the trade consumes, the four calls of `_process_trade` on the user
-- store return, whichever side took, the demand is still covered, the sums of the users' totals
-- are kept, and each user's totals have moved as the settlement moves the contract's balances.
pub settle_users-Runs :
    (st : UserStore) (t : Trade) (side : OrderSide) (d : Demand)
    → pos 1 ≤ℤ t.price
    → pos 1 ≤ℤ t.quantity
    → Nonneg d
    → Covers st (λ v y. d v y +ℤ traded t v y)
    → Runs (settle_users t side) st (λ _ s.
      Covers s d
      × ((y : Asset) → supply s y ≡ supply st y)
      × ((v : ℕ) (y : Asset) → totals s v y ≡ effect (settlement_of t) (totals st) v y))
unfolding settle_users
settle_users-Runs st t buy d priced moves nonneg c =
    Runs-bind
      (consume_liability-Stage st st t.buyer_address Asset.b (amount_b t)
        (mul_pos t.price t.quantity priced moves)
        (λ v y. d v y +ℤ bump t.seller_address Asset.a (amount_a t) v y) (λ y. pos 0) (λ v y. pos 0)
        refl (with_bump d t.seller_address Asset.a (amount_a t) nonneg moves)
        (Covers-le (λ v y. omega int_laws) c, λ y. omega int_laws, λ v y. omega int_laws))
      λ _ s1 p1.
        Runs-bind
          (consume_liability-Stage st s1 t.seller_address Asset.a (amount_a t) moves d _ _ refl
            nonneg p1)
          λ _ s2 p2.
            Runs-bind (credit-Stage st s2 t.buyer_address Asset.a (amount_a t) moves d _ _ refl p2)
              λ _ s3 p3.
                Runs-map
                  (credit-Stage st s3 t.seller_address Asset.b (amount_b t)
                    (mul_pos t.price t.quantity priced moves) d _ _ refl p3)
                  λ _ s4 p4.
                    (p4.0, λ y. rw (p4.1 y) (omega int_laws), λ v y. rw (p4.2 v y) (omega int_laws))
settle_users-Runs st t sell d priced moves nonneg c =
    Runs-bind
      (consume_liability-Stage st st t.seller_address Asset.a (amount_a t) moves
        (λ v y. d v y +ℤ bump t.buyer_address Asset.b (amount_b t) v y) (λ y. pos 0) (λ v y. pos 0)
        refl
        (with_bump d t.buyer_address Asset.b (amount_b t) nonneg
          (mul_pos t.price t.quantity priced moves))
        (Covers-le (λ v y. omega int_laws) c, λ y. omega int_laws, λ v y. omega int_laws))
      λ _ s1 p1.
        Runs-bind
          (consume_liability-Stage st s1 t.buyer_address Asset.b (amount_b t)
            (mul_pos t.price t.quantity priced moves) d _ _ refl nonneg p1)
          λ _ s2 p2.
            Runs-bind
              (credit-Stage st s2 t.seller_address Asset.b (amount_b t)
                (mul_pos t.price t.quantity priced moves) d _ _ refl p2)
              λ _ s3 p3.
                Runs-map
                  (credit-Stage st s3 t.buyer_address Asset.a (amount_a t) moves d _ _ refl p3)
                  λ _ s4 p4.
                    (p4.0, λ y. rw (p4.1 y) (omega int_laws), λ v y. rw (p4.2 v y) (omega int_laws))
