-- ===== src/Executor/MessageHandler/Trades.antt =====
-- `_process_trade` on each trade of a match.
use lumendark.Common.{
  ℕ, suc, ◌≤◌, ◌≡◌, refl, sym, ap, ◌∙◌, List, [], ◌∷◌, ◌++◌, map, arith, pos, ◌+ℤ◌, ◌≤ℤ◌, int_laws,
  Decimal, Each, Runs, Runs-bind, Action, mul_pos, Runs-map,
}
use mathlib.Core.List.{append-nil, append_assoc, map-append}
use lumendark.Models.Order.{Asset, OrderSide}
use lumendark.Models.Trade.{Trade, amount_a, amount_b}
use lumendark.Models.Message.{ActionPayload, create_action}
use lumendark.Storage.UserStore.{UserStore}
use lumendark.Storage.UserStore.Holdings.{supply}
use lumendark.Storage.UserStore.Cover.{Demand, bump, Covers, Covers-le}
use lumendark.Matching.Engine.Owed.{traded, pending}
use lumendark.Matching.Engine.Loop.{IsTrade}
use lumendark.Storage.UserStore.Totals.{totals}
use lumendark.Executor.MessageHandler.Chain.{
  Allowed, Steps, Steps-append, bump_self, bump_nonneg, payloads, ledger_eq,
}
use lumendark.Executor.MessageHandler.Settling.{settlement_of, Nonneg, with_bump, settle_users-Runs}
use lumendark.Executor.MessageHandler.{State, process_trade, process_trades, put_action, on_users}

-- The state after trades: liabilities cover `d`, the supplies are kept, the trades are queued in their
-- order, and nothing else has changed but the supply of ids.
pub record Traded (s : State) (ts : List Trade) (d : Demand) (s' : State) : Type 0 where
  pub covers : Covers s'.users d
  pub supplies : (y : Asset) → supply s'.users y ≡ supply s.users y
  pub steps : Steps (totals s.users) (map settlement_of ts) (totals s'.users)
  pub queued : payloads s'.actions ≡ payloads s.actions ++ map settlement_of ts
  pub book : s'.book ≡ s.book
  pub message : s'.message ≡ s.message
  pub now : s'.now ≡ s.now
  pub next : s.next ≤ s'.next

-- A call on the user store changes nothing but the store.
pub on_users-Runs :
    {A : Type 0} {m : Action UserStore A} (s : State) {P : A → UserStore → Type 0}
    → Runs m s.users P
    → Runs (on_users m) s (λ a s'. P a s'.users × (s' ≡ record s { users = s'.users }))
on_users-Runs s r = record { value = r.value; returns = r.returns; holds = (r.holds, refl) }

-- A new action goes to the end of the queue.
pub put_action-Runs :
    (s : State) (p : ActionPayload)
    → Runs (put_action p) s (λ _ s'.
      (payloads s'.actions ≡ payloads s.actions ++ p ∷ [])
      × (s' ≡ record s { actions = s'.actions; next = suc s.next }))
unfolding put_action create_action
put_action-Runs s p = record {
  value = tt;
  returns = refl;
  holds = (map-append _ s.actions _, refl);
}

-- The contract allows the settlement of a trade that the liabilities cover.
settlement-Allowed :
    (st : UserStore) (t : Trade) (d : Demand)
    → pos 1 ≤ℤ t.price
    → pos 1 ≤ℤ t.quantity
    → Nonneg d
    → Covers st (λ v y. d v y +ℤ traded t v y)
    → Allowed (settlement_of t) (totals st)
settlement-Allowed st t d priced moves nonneg c =
    let paid = mul_pos t.price t.quantity priced moves in
    let of_seller = c.at t.seller_address Asset.a in
    let of_buyer = c.at t.buyer_address Asset.b in
    (
      moves,
      paid,
      omega (
        int_laws,
        of_seller.0,
        of_seller.1,
        bump_self t.seller_address Asset.a (amount_a t) refl,
        bump_nonneg t.buyer_address Asset.b (amount_b t) t.seller_address Asset.a paid,
        nonneg t.seller_address Asset.a,
      ),
      omega (
        int_laws,
        of_buyer.0,
        of_buyer.1,
        bump_self t.buyer_address Asset.b (amount_b t) refl,
        bump_nonneg t.seller_address Asset.a (amount_a t) t.buyer_address Asset.b moves,
        nonneg t.buyer_address Asset.b,
      ),
    )

process_trade-Runs :
    (s : State) (t : Trade) (side : OrderSide) (d : Demand)
    → pos 1 ≤ℤ t.price
    → pos 1 ≤ℤ t.quantity
    → Nonneg d
    → Covers s.users (λ v y. d v y +ℤ traded t v y)
    → Runs (process_trade t side) s (λ _ s'. Traded s (t ∷ []) d s')
unfolding process_trade
process_trade-Runs s t side d priced moves nonneg c =
    Runs-bind (on_users-Runs s (settle_users-Runs s.users t side d priced moves nonneg c))
      λ _ s1 (p, same). Runs-map (put_action-Runs s1 (settlement_of t)) λ _ s2 q. record {
        covers = rw (ap (λ (w : State). w.users) q.1) p.0;
        supplies = λ y. ap (λ (w : State). supply w.users y) q.1 ∙ p.1 y;
        steps = (
          settlement-Allowed s.users t d priced moves nonneg c,
          sym (ap (λ (w : State). totals w.users) q.1 ∙ ledger_eq p.2),
        );
        queued = q.0 ∙ ap (λ (w : State). payloads w.actions ++ settlement_of t ∷ []) same;
        book = ap (λ (w : State). w.book) q.1 ∙ ap (λ (w : State). w.book) same;
        message = ap (λ (w : State). w.message) q.1 ∙ ap (λ (w : State). w.message) same;
        now = ap (λ (w : State). w.now) q.1 ∙ ap (λ (w : State). w.now) same;
        next = omega (arith, ap (λ (w : State). w.next) q.1, ap (λ (w : State). w.next) same);
      }

pending-Nonneg :
    (limit : Decimal) (user : ℕ) (side : OrderSide) (ts : List Trade)
    → Each (IsTrade side limit user) ts
    → Nonneg (pending ts)
unfolding pending
pending-Nonneg limit user side [] h v y = omega arith
pending-Nonneg limit user side (t ∷ ts) h v y = omega (
  int_laws,
  with_bump (bump t.buyer_address Asset.b (amount_b t)) t.seller_address Asset.a (amount_a t)
      (λ w z. omega (
        int_laws,
        with_bump (λ _ _. pos 0) t.buyer_address Asset.b (amount_b t) (λ _ _. omega arith)
            (mul_pos t.price t.quantity h.0.priced h.0.moves) w z,
      ))
      h.0.moves v y,
  pending-Nonneg limit user side ts h.1 v y,
)

-- From liabilities that cover a demand that is nowhere negative and all that valid trades
-- consume, the processing of the trades returns: the demand is still covered, the sums of the
-- users' totals are kept, one settlement for each trade is queued behind the earlier actions in
-- their order, these are allowed one after another from each user's totals and lead to the new
-- ones, and the book, the message and the clock are as before.
pub process_trades-Runs :
    (ts : List Trade) (s : State) (side : OrderSide) (d : Demand) (limit : Decimal) (user : ℕ)
    → Each (IsTrade side limit user) ts
    → Nonneg d
    → Covers s.users (λ v y. d v y +ℤ pending ts v y)
    → Runs (process_trades ts side) s (λ _ s'. Traded s ts d s')
unfolding process_trades pending
process_trades-Runs [] s side d limit user h nonneg c = record {
  value = tt;
  returns = refl;
  holds = record {
    covers = Covers-le (λ v y. omega int_laws) c;
    supplies = λ y. refl;
    steps = refl;
    queued = sym (append-nil (payloads s.actions));
    book = refl;
    message = refl;
    now = refl;
    next = omega arith;
  };
}
process_trades-Runs (t ∷ ts) s side d limit user h nonneg c =
    Runs-bind
      (process_trade-Runs s t side (λ v y. d v y +ℤ pending ts v y) h.0.priced h.0.moves
        (λ v y. omega (int_laws, nonneg v y, pending-Nonneg limit user side ts h.1 v y))
        (Covers-le (λ v y. omega int_laws) c))
      λ _ s1 p1.
        Runs-map (process_trades-Runs ts s1 side d limit user h.1 nonneg p1.covers) λ _ s2 p2.
          record {
            covers = p2.covers;
            supplies = λ y. p2.supplies y ∙ p1.supplies y;
            steps =
                Steps-append (totals s.users) (totals s1.users) (totals s2.users)
                  (settlement_of t ∷ []) (map settlement_of ts) p1.steps p2.steps;
            queued =
                p2.queued
                ∙ ap (λ q. q ++ map settlement_of ts) p1.queued
                ∙ append_assoc _ (settlement_of t ∷ []) _;
            book = p2.book ∙ p1.book;
            message = p2.message ∙ p1.message;
            now = p2.now ∙ p1.now;
            next = omega (arith, p1.next, p2.next);
          }
