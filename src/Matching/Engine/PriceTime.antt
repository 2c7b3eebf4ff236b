-- ===== src/Matching/Engine/PriceTime.antt =====
-- Price-time priority of a whole match, on a book in order.
use lumendark.Common.{
  ℕ, ◌≡◌, ◌≢◌, ◌<◌, refl, sym, ap, subst, ◌∙◌, true, none, some, List, [], ◌∷◌, arith, ◌⊎◌, inl,
  inr, pos, ◌≤ℤ◌, ◌-ℤ◌, ltb_ℤ, int_laws, Each, Each-map, Decimal,
}
use lumendark.Common.Dict.{lookup}
use lumendark.Models.Order.{Order, OrderSide, buy, sell, remaining_quantity, is_active}
use lumendark.Storage.OrderBook.{
  OrderBook, key_ltb, ask_key, bid_key, iter_matching_asks, iter_matching_bids,
}
use lumendark.Storage.OrderBook.Invariant.{IsBook}
use lumendark.Storage.OrderBook.Iteration.{
  iter_matching_asks-Each, iter_matching_asks-Distinct, iter_matching_bids-Each,
  iter_matching_bids-Distinct,
}
use lumendark.Storage.OrderBook.Precedence.{
  Has, iter_matching_asks-Precedes, iter_matching_bids-Precedes,
}
use lumendark.Matching.Engine.{start, match_order, match_side, match_buy, match_sell}
use lumendark.Matching.Engine.Owed.{opposite}
use lumendark.Matching.Engine.Match.{start-IsRun}
use lumendark.Matching.Engine.Exhaustion.{candidates_asks, candidates_bids}
use lumendark.Matching.Engine.Priority.{Traded, Has-Traded, match_loop-priority}

-- What an incoming order of the given side takes first: the better price, and the earlier order at
-- the same price.
abbrev pub Ahead : OrderSide → Order → Order → Type 0
Ahead buy p q =
    (ltb_ℤ p.price q.price ≡ true) ⊎ ((p.price ≡ q.price) × (p.created_at < q.created_at))
Ahead sell p q =
    (ltb_ℤ q.price p.price ≡ true) ⊎ ((p.price ≡ q.price) × (p.created_at < q.created_at))

Ahead-asks : (p q : Order) → Ahead buy p q → key_ltb (ask_key p) (ask_key q) ≡ true
unfolding key_ltb
Ahead-asks p q (inl better) = ground arith
Ahead-asks p q (inr later) = rw (later.0) (ground arith)

negated : (a b : Decimal) → ltb_ℤ b a ≡ true → ltb_ℤ (pos 0 -ℤ a) (pos 0 -ℤ b) ≡ true
negated a b h = grind int_laws

Ahead-bids : (p q : Order) → Ahead sell p q → key_ltb (bid_key p) (bid_key q) ≡ true
unfolding key_ltb
Ahead-bids p q (inl better) = rw (negated p.price q.price better) refl
Ahead-bids p q (inr later) = rw (later.0) (ground arith)

-- What holds of all orders of a list holds of one that the dict has under an id of the list.
at_id :
    (P : Order → Type 0) (book : OrderBook) (os : List Order) (q : Order)
    → Each (λ o. (lookup o.id book.orders ≡ some o) × P o) os
    → lookup q.id book.orders ≡ some q
    → Has q.id os
    → P q
at_id P book [] q h found has = elim has [ ]
at_id P book (o ∷ os) q h found (inl e) =
    let same : some o ≡ some q = sym h.0.0 ∙ ap (λ i. lookup i book.orders) e ∙ found in
    let o_q : o ≡ q = cc same in subst P o_q h.0.1
at_id P book (o ∷ os) q h found (inr has) = at_id P book os q h.1 found has

module _ (now : ℕ) {next : ℕ} (order : Order) (book : OrderBook) (n : ℕ) (h : IsBook next book)
    (more : pos 1 ≤ℤ remaining_quantity order) (act : is_active order ≡ true) (p q : Order)
    (found_p : lookup p.id book.orders ≡ some p) (found_q : lookup q.id book.orders ≡ some q)
    (other : p.user_address ≢ order.user_address) where
  priority :
      (side : OrderSide)
      → order.side ≡ side
      → p.side ≡ opposite side
      → q.side ≡ opposite side
      → Ahead side p q
      → Traded side q.id (match_side side now order book n).trades
      → lookup p.id (match_side side now order book n).book.orders ≡ none
  unfolding match_side match_buy match_sell
  priority buy e side_p side_q ahead traded =
      let os = iter_matching_asks order.price book in
      let reaches : q.price ≤ℤ order.price =
        elim (Has-Traded buy now n order (λ _ _. pos 0) os (start order book n) q.id traded) [
          | inl never ↦ elim never [ ]
          | inr has ↦
              at_id (λ o. o.price ≤ℤ order.price) book os q
                (Each-map _ _ (λ o x. (x.0.0, x.1)) os (iter_matching_asks-Each book h order.price))
                found_q has
        ] in
      match_loop-priority buy now next order _ os (start order book n) p q.id
        (start-IsRun buy order book n e h more act) (candidates_asks order.price book h)
        (iter_matching_asks-Distinct book h order.price) other (λ t. t)
        (iter_matching_asks-Precedes book h order.price p q found_p found_q side_p side_q reaches
          (Ahead-asks p q ahead))
        traded
  priority sell e side_p side_q ahead traded =
      let os = iter_matching_bids order.price book in
      let reaches : order.price ≤ℤ q.price =
        elim (Has-Traded sell now n order (λ _ _. pos 0) os (start order book n) q.id traded) [
          | inl never ↦ elim never [ ]
          | inr has ↦
              at_id (λ o. order.price ≤ℤ o.price) book os q
                (Each-map _ _ (λ o x. (x.0.0, x.1)) os (iter_matching_bids-Each book h order.price))
                found_q has
        ] in
      match_loop-priority sell now next order _ os (start order book n) p q.id
        (start-IsRun sell order book n e h more act) (candidates_bids order.price book h)
        (iter_matching_bids-Distinct book h order.price) other (λ t. t)
        (iter_matching_bids-Precedes book h order.price p q found_p found_q side_p side_q reaches
          (Ahead-bids p q ahead))
        traded

  -- On a book in order, where the match of an active order with something to fill has traded with
  -- a resting order, every resting order of the other side that is ahead of it (at a better
  -- price, or earlier at the same price) and of another user than the order's is gone from the
  -- book.
  pub match_order-priority :
      p.side ≡ opposite order.side
      → q.side ≡ opposite order.side
      → Ahead order.side p q
      → Traded order.side q.id (match_order now order book n).trades
      → lookup p.id (match_order now order book n).book.orders ≡ none
  unfolding match_order
  match_order-priority side_p side_q ahead traded =
      priority order.side refl side_p side_q ahead traded
