-- ===== src/Matching/Engine/Clearing.antt =====
-- After a match, what remains of the incoming order crosses no other user's order in the book.
use lumendark.Common.{
  ℕ, ◌≡◌, refl, sym, ap, ◌∙◌, true, some, List, [], ◌∷◌, arith, ◌==◌, inl, inr, ℤ, pos, ◌≤ℤ◌, leb_ℤ,
  eqb_ℤ, Bool-cases, Each, Distinct, eq→==, subst,
}
use lumendark.Common.Dict.{lookup, lookup-insert-some, lookup-erase-some}
use lumendark.Common.Dict.Sum.{All-lookup}
use lumendark.Models.Order.{Order, OrderSide, buy, sell, fill, remaining_quantity, is_active}
use lumendark.Storage.OrderBook.{OrderBook, iter_matching_asks, iter_matching_bids}
use lumendark.Storage.OrderBook.Invariant.{IsBook, Apart}
use lumendark.Storage.OrderBook.Changes.{orders-remove}
use lumendark.Storage.OrderBook.Iteration.{iter_matching_asks-Distinct, iter_matching_bids-Distinct}
use lumendark.Storage.OrderBook.Yields.{iter_matching_asks-yields, iter_matching_bids-yields}
use lumendark.Storage.UserStore.Cover.{Demand}
use lumendark.Matching.Engine.{
  Run, start, execute, fill_resting, match_loop, match_order, match_side, match_buy, match_sell,
  trade_quantity,
}
use lumendark.Matching.Engine.Filling.{fill_resting_done, fill_resting_rest}
use lumendark.Matching.Engine.Owed.{taker_trade}
use lumendark.Matching.Engine.Match.{start-IsRun, match_order-IsRun}
use lumendark.Matching.Engine.Loop.{
  IsRun, IsCandidate, execute-IsRun, match_loop_stop, match_loop_self, match_loop_next,
}
use lumendark.Matching.Engine.Exhaustion.{
  OwnOrGone, Exhausted, after_exchange, candidates_asks, candidates_bids, match_buy-exhausts,
  match_sell-exhausts,
}

-- The order that an order of the book was before: of the same side, price and user.
pub record Origin (old : OrderBook) (j : ℕ) (p : Order) : Type 0 where
  pub before : Order
  pub held : lookup j old.orders ≡ some before
  pub same_side : before.side ≡ p.side
  pub same_price : before.price ≡ p.price
  pub same_user : before.user_address ≡ p.user_address

-- Each order of a book comes from one of an older book.
abbrev pub Descends : OrderBook → OrderBook → Type 0
Descends old book = (j : ℕ) (p : Order) → lookup j book.orders ≡ some p → Origin old j p

Descends-refl : (book : OrderBook) → Descends book book
Descends-refl book j p e = record {
  before = p;
  held = e;
  same_side = refl;
  same_price = refl;
  same_user = refl;
}

Descends-trans : (a b c : OrderBook) → Descends a b → Descends b c → Descends a c
Descends-trans a b c f g j p e =
    let o = g j p e in
    let o' = f j o.before o.held in
    record {
      before = o'.before;
      held = o'.held;
      same_side = o'.same_side ∙ o.same_side;
      same_price = o'.same_price ∙ o.same_price;
      same_user = o'.same_user ∙ o.same_user;
    }

Descends-fill_resting :
    {next : ℕ} (q : ℤ) (r : Order) (book : OrderBook)
    → IsBook next book
    → lookup r.id book.orders ≡ some r
    → Descends book (fill_resting q r book)
unfolding fill
Descends-fill_resting q r book h found j p e =
    elim (Bool-cases (eqb_ℤ (remaining_quantity (fill q r)) (pos 0))) [
      | inl done ↦
          let e' =
            ap (λ (b : OrderBook). lookup j b.orders)
              (sym (fill_resting_done q r book h found done))
            ∙ e in
          let e'' = ap (lookup j) (sym (orders-remove r.id r book found)) ∙ e' in
          Descends-refl book j p (lookup-erase-some j r.id p book.orders h.dict e'').1
      | inr rest ↦
          let e' =
            ap (λ (b : OrderBook). lookup j b.orders)
              (sym (fill_resting_rest q r book h found rest))
            ∙ e in
          elim (lookup-insert-some j r.id (fill q r) p book.orders e') [
            | inl (same, new) ↦ record {
              before = r;
              held = ap (λ i. lookup i book.orders) same ∙ found;
              same_side = ap (λ (o : Order). o.side) (sym new);
              same_price = ap (λ (o : Order). o.price) (sym new);
              same_user = ap (λ (o : Order). o.user_address) (sym new);
            }
            | inr old ↦ Descends-refl book j p old
          ]
    ]

module _ (side : OrderSide) (now next : ℕ) (order : Order) (bound : Demand) where
  match_loop-Descends :
      (rest : List Order) (s : Run)
      → IsRun side next order bound s
      → Each (IsCandidate side order.price s.book) rest
      → Distinct (λ o. o.id) rest
      → Descends s.book (match_loop (taker_trade side now) s rest).book
  match_loop-Descends [] s h cs d = unfold match_loop in Descends-refl s.book
  match_loop-Descends (r ∷ rest) s h cs d =
      elim (Bool-cases (leb_ℤ (remaining_quantity s.incoming) (pos 0))) [
        | inl stop ↦
            rw (match_loop_stop (taker_trade side now) s r rest stop) (Descends-refl s.book)
        | inr more ↦ elim (Bool-cases (r.user_address == s.incoming.user_address)) [
          | inl self ↦
              rw (match_loop_self (taker_trade side now) s r rest more self)
                (match_loop-Descends rest s h cs.1 d.1)
          | inr stranger ↦
              let s' = execute (taker_trade side now) s r in
              rw (match_loop_next (taker_trade side now) s r rest more stranger) (
                Descends-trans s.book s'.book (match_loop (taker_trade side now) s' rest).book
                  (unfold execute in
                    Descends-fill_resting (trade_quantity s.incoming r) r s.book h.book cs.0.found)
                  (match_loop-Descends rest s'
                    (execute-IsRun side now next order bound s r h cs.0 (ground arith) (λ e. cc (
                      stranger,
                      eq→== r.user_address s.incoming.user_address (e ∙ sym h.user_kept),
                    )))
                    (after_exchange side now next order bound s r rest h cs.0 cs.1 d.0) d.1))
        ]
      ]

-- An order of the final book that the loop has met, or its origin has, is the taker's own.
met_own :
    (user j : ℕ) (book : OrderBook) (p before : Order)
    → lookup j book.orders ≡ some p
    → before.id ≡ j
    → before.user_address ≡ p.user_address
    → OwnOrGone user book before
    → p.user_address ≡ user
met_own user j book p before e own same (inl mine) = sym same ∙ mine
met_own user j book p before e own same (inr gone) =
    absurd (cc (e, ap (λ i. lookup i book.orders) own, gone))

none_of : (x : ℤ) → pos 1 ≤ℤ x → x ≡ pos 0 → ⊥
none_of x h e = omega (arith, subst (λ y. pos 1 ≤ℤ y) e h)

module _ (now : ℕ) {next : ℕ} (order : Order) (book : OrderBook) (n : ℕ) (h : IsBook next book)
    (more : pos 1 ≤ℤ remaining_quantity order) (act : is_active order ≡ true) where
  match_buy-Descends : order.side ≡ buy → Descends book (match_buy now order book n).book
  unfolding match_buy
  match_buy-Descends e =
      match_loop-Descends buy now next order _ (iter_matching_asks order.price book)
        (start order book n) (start-IsRun buy order book n e h more act)
        (candidates_asks order.price book h) (iter_matching_asks-Distinct book h order.price)

  match_sell-Descends : order.side ≡ sell → Descends book (match_sell now order book n).book
  unfolding match_sell
  match_sell-Descends e =
      match_loop-Descends sell now next order _ (iter_matching_bids order.price book)
        (start order book n) (start-IsRun sell order book n e h more act)
        (candidates_bids order.price book h) (iter_matching_bids-Distinct book h order.price)

  -- The final variables of a match, and what is left of the order.
  cleared :
      (side : OrderSide) (r : Run) {bound : Demand}
      → order.side ≡ side
      → r ≡ match_side side now order book n
      → IsRun side next order bound r
      → pos 1 ≤ℤ remaining_quantity r.incoming
      → Apart r.incoming r.book.orders
  unfolding match_side
  cleared buy r e is run left i p found (inr c) = absurd (cc (c.ask_side, run.side_kept))
  cleared buy r e is run left i p found (inl c) =
      elim (subst (Exhausted order.user_address (iter_matching_asks order.price book)) (sym is)
        (match_buy-exhausts now order book n e h more act)) [
          | inl none_left ↦ absurd (none_of _ left none_left)
          | inr met ↦
              let o =
                subst (λ (w : Run). Descends book w.book) (sym is) (match_buy-Descends e) i p
                  found in
              let own = (All-lookup _ i o.before book.orders h.resting o.held).own_id in
              met_own order.user_address i r.book p o.before found own o.same_user (
                iter_matching_asks-yields book h order.price (OwnOrGone order.user_address r.book)
                  o.before (ap (λ j. lookup j book.orders) own ∙ o.held) (o.same_side ∙ c.ask_side)
                  (rw (o.same_price, ← run.price_kept) c.reaches) met)
              ∙ sym run.user_kept
        ]
  cleared sell r e is run left i p found (inl c) = absurd (cc (c.bid_side, run.side_kept))
  cleared sell r e is run left i p found (inr c) =
      elim (subst (Exhausted order.user_address (iter_matching_bids order.price book)) (sym is)
        (match_sell-exhausts now order book n e h more act)) [
          | inl none_left ↦ absurd (none_of _ left none_left)
          | inr met ↦
              let o =
                subst (λ (w : Run). Descends book w.book) (sym is) (match_sell-Descends e) i p
                  found in
              let own = (All-lookup _ i o.before book.orders h.resting o.held).own_id in
              met_own order.user_address i r.book p o.before found own o.same_user (
                iter_matching_bids-yields book h order.price (OwnOrGone order.user_address r.book)
                  o.before (ap (λ j. lookup j book.orders) own ∙ o.held) (o.same_side ∙ c.bid_side)
                  (rw (o.same_price, ← run.price_kept) c.reaches) met)
              ∙ sym run.user_kept
        ]

  -- On a book in order, what the match of an active order with something to fill leaves of the
  -- order crosses no order of another user that is left in the book.
  pub match_order-Apart :
      pos 1 ≤ℤ remaining_quantity (match_order now order book n).incoming
      → Apart (match_order now order book n).incoming (match_order now order book n).book.orders
  match_order-Apart left =
      cleared order.side (match_order now order book n) refl (unfold match_order in refl)
        (match_order-IsRun now order book n h more act) left
