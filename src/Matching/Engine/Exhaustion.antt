-- ===== src/Matching/Engine/Exhaustion.antt =====
-- What a match leaves behind: nothing of the incoming order, or no order that it could still trade with.
use lumendark.Common.{
  ℕ, ◌≡◌, ◌≢◌, refl, sym, ap, subst, ◌∙◌, true, false, none, List, [], ◌∷◌, arith, ◌==◌, ◌⊎◌, inl,
  inr, ℤ, Decimal, pos, ◌≤ℤ◌, leb_ℤ, eqb_ℤ, int_laws, Bool-cases, Each, Each-map, Each-both,
  Distinct, eq→==, ==→eq, eq_of_parts,
}
use lumendark.Common.Dict.{lookup, lookup-erase_self}
use lumendark.Models.Order.{Order, OrderSide, buy, sell, fill, remaining_quantity, is_active}
use lumendark.Models.Order.Laws.{remaining_quantity-fill}
use lumendark.Storage.OrderBook.{OrderBook, iter_matching_asks, iter_matching_bids}
use lumendark.Storage.OrderBook.Invariant.{IsBook}
use lumendark.Storage.OrderBook.Changes.{orders-remove}
use lumendark.Storage.UserStore.Cover.{Demand}
use lumendark.Matching.Engine.{
  Run, start, execute, match_loop, match_buy, match_sell, trade_quantity,
}
use lumendark.Matching.Engine.Filling.{fill_resting_done, lookup-fill_resting_ne}
use lumendark.Matching.Engine.Match.{start-IsRun}
use lumendark.Storage.OrderBook.Iteration.{
  iter_matching_asks-Each, iter_matching_asks-Distinct, iter_matching_bids-Each,
  iter_matching_bids-Distinct,
}
use lumendark.Matching.Engine.Owed.{taker_trade}
use lumendark.Matching.Engine.Loop.{
  IsRun, IsCandidate, execute-IsRun, execute-IsCandidate, match_loop_stop, match_loop_self,
  match_loop_next,
}

-- A resting order is the taker's own, or it is gone from the book.
abbrev pub OwnOrGone : ℕ → OrderBook → Order → Type 0
OwnOrGone user book r = (r.user_address ≡ user) ⊎ (lookup r.id book.orders ≡ none)

-- Nothing of the incoming order is left, or none of the given orders can trade with it any more.
abbrev pub Exhausted : ℕ → List Order → Run → Type 0
Exhausted user os t = (remaining_quantity t.incoming ≡ pos 0) ⊎ Each (OwnOrGone user t.book) os

zero_of : (x : ℤ) → pos 0 ≤ℤ x → leb_ℤ x (pos 0) ≡ true → x ≡ pos 0
zero_of x h e = eq_of_parts x (pos 0) (ground arith)

module _ (side : OrderSide) (now next : ℕ) (order : Order) (bound : Demand) where
  -- The rounds after an exchange.
  pub after_exchange :
      (s : Run) (r : Order) (rest : List Order)
      → IsRun side next order bound s
      → IsCandidate side order.price s.book r
      → Each (IsCandidate side order.price s.book) rest
      → Each (λ o. o.id ≢ r.id) rest
      → Each (IsCandidate side order.price (execute (taker_trade side now) s r).book) rest
  after_exchange s r rest h c cs d =
      Each-map _ _ (λ o p. execute-IsCandidate side now next order bound s r o h c p.0 p.1) rest
        (Each-both _ _ rest d cs)

  pub gone_stays :
      (rest : List Order) (s : Run) (j : ℕ)
      → IsRun side next order bound s
      → Each (IsCandidate side order.price s.book) rest
      → Distinct (λ o. o.id) rest
      → lookup j s.book.orders ≡ none
      → lookup j (match_loop (taker_trade side now) s rest).book.orders ≡ none
  gone_stays [] s j h cs d gone = unfold match_loop in gone
  gone_stays (r ∷ rest) s j h cs d gone =
      elim (Bool-cases (leb_ℤ (remaining_quantity s.incoming) (pos 0))) [
        | inl stop ↦ rw (match_loop_stop (taker_trade side now) s r rest stop) gone
        | inr more ↦ elim (Bool-cases (r.user_address == s.incoming.user_address)) [
          | inl self ↦
              rw (match_loop_self (taker_trade side now) s r rest more self)
                (gone_stays rest s j h cs.1 d.1 gone)
          | inr stranger ↦ rw (match_loop_next (taker_trade side now) s r rest more stranger) (
              gone_stays rest (execute (taker_trade side now) s r) j
                (execute-IsRun side now next order bound s r h cs.0 (ground arith) (λ e.
                  cc
                    (stranger, eq→== r.user_address s.incoming.user_address (e ∙ sym h.user_kept))))
                (after_exchange s r rest h cs.0 cs.1 d.0) d.1
                (unfold execute in
                  lookup-fill_resting_ne (trade_quantity s.incoming r) r s.book h.book cs.0.found j
                    (λ e. cc (gone, ap (λ i. lookup i s.book.orders) e, cs.0.found))
                  ∙ gone))
        ]
      ]

  pub match_loop_done :
      (s : Run) (rest : List Order)
      → remaining_quantity s.incoming ≡ pos 0
      → match_loop (taker_trade side now) s rest ≡ s
  match_loop_done s [] e = unfold match_loop in refl
  match_loop_done s (r ∷ rest) e = match_loop_stop (taker_trade side now) s r rest (rw e refl)

  pub filled_gone :
      (s : Run) (r : Order)
      → IsRun side next order bound s
      → IsCandidate side order.price s.book r
      → leb_ℤ (remaining_quantity s.incoming) (remaining_quantity r) ≡ false
      → lookup r.id (execute (taker_trade side now) s r).book.orders ≡ none
  unfolding execute
  filled_gone s r h c less =
      let full : eqb_ℤ (remaining_quantity (fill (trade_quantity s.incoming r) r)) (pos 0) ≡ true =
        rw (remaining_quantity-fill, less) (grind int_laws) in
      rw
        (
          fill_resting_done (trade_quantity s.incoming r) r s.book h.book c.found full,
          orders-remove r.id r s.book c.found,
        )
        (lookup-erase_self r.id s.book.orders h.book.dict)

  pub incoming_done :
      (s : Run) (r : Order)
      → leb_ℤ (remaining_quantity s.incoming) (remaining_quantity r) ≡ true
      → remaining_quantity (execute (taker_trade side now) s r).incoming ≡ pos 0
  unfolding execute
  incoming_done s r le = rw (remaining_quantity-fill, le) (omega int_laws)

  match_loop-exhausts :
      (rest : List Order) (s : Run)
      → IsRun side next order bound s
      → Each (IsCandidate side order.price s.book) rest
      → Distinct (λ o. o.id) rest
      → Exhausted order.user_address rest (match_loop (taker_trade side now) s rest)
  match_loop-exhausts [] s h cs d = inr tt
  match_loop-exhausts (r ∷ rest) s h cs d =
      elim (Bool-cases (leb_ℤ (remaining_quantity s.incoming) (pos 0))) [
        | inl stop ↦
            subst (Exhausted order.user_address (r ∷ rest))
              (sym (match_loop_stop (taker_trade side now) s r rest stop))
              (inl (zero_of _ h.left stop))
        | inr more ↦ elim (Bool-cases (r.user_address == s.incoming.user_address)) [
          | inl self ↦
              subst (Exhausted order.user_address (r ∷ rest))
                (sym (match_loop_self (taker_trade side now) s r rest more self))
                (with_head (match_loop (taker_trade side now) s rest) rest r
                  (inl (==→eq _ _ self ∙ h.user_kept)) (match_loop-exhausts rest s h cs.1 d.1))
          | inr stranger ↦
              let s' = execute (taker_trade side now) s r in
              let h' = execute-IsRun side now next order bound s r h cs.0 (ground arith) (λ e.
                cc
                  (stranger, eq→== r.user_address s.incoming.user_address (e ∙ sym h.user_kept))) in
              let cs' = after_exchange s r rest h cs.0 cs.1 d.0 in
              subst (Exhausted order.user_address (r ∷ rest))
                (sym (match_loop_next (taker_trade side now) s r rest more stranger))
                (elim (Bool-cases (leb_ℤ (remaining_quantity s.incoming) (remaining_quantity r))) [
                  | inl le ↦ inl (
                      ap (λ (w : Run). remaining_quantity w.incoming)
                        (match_loop_done s' rest (incoming_done s r le))
                      ∙ incoming_done s r le)
                  | inr less ↦
                      with_head (match_loop (taker_trade side now) s' rest) rest r
                        (inr (gone_stays rest s' r.id h' cs' d.1 (filled_gone s r h cs.0 less)))
                        (match_loop-exhausts rest s' h' cs' d.1)
                ])
        ]
      ]
    where
      with_head :
          (t : Run) (rest : List Order) (r : Order)
          → OwnOrGone order.user_address t.book r
          → Exhausted order.user_address rest t
          → Exhausted order.user_address (r ∷ rest) t
      with_head t rest r p (inl e) = inl e
      with_head t rest r p (inr ps) = inr (p, ps)

-- What the generators yield on a book in order, the loop may meet.
pub candidates_asks :
    (limit : Decimal) (book : OrderBook) {next : ℕ}
    → IsBook next book
    → Each (IsCandidate buy limit book) (iter_matching_asks limit book)
candidates_asks limit book h =
    Each-map _ _ (λ r p. record { found = p.0.0; other_side = p.0.1; crosses = p.1 })
      (iter_matching_asks limit book) (iter_matching_asks-Each book h limit)

pub candidates_bids :
    (limit : Decimal) (book : OrderBook) {next : ℕ}
    → IsBook next book
    → Each (IsCandidate sell limit book) (iter_matching_bids limit book)
candidates_bids limit book h =
    Each-map _ _ (λ r p. record { found = p.0.0; other_side = p.0.1; crosses = p.1 })
      (iter_matching_bids limit book) (iter_matching_bids-Each book h limit)

-- On a book in order, the match of an active buy order with something to fill leaves nothing of
-- the order, or every ask that `iter_matching_asks` had yielded for its price is gone from the
-- book or is the same user's own order.
pub match_buy-exhausts :
    (now : ℕ) {next : ℕ} (order : Order) (book : OrderBook) (n : ℕ)
    → order.side ≡ buy
    → IsBook next book
    → pos 1 ≤ℤ remaining_quantity order
    → is_active order ≡ true
    → Exhausted order.user_address
        (iter_matching_asks order.price book)
        (match_buy now order book n)
unfolding match_buy
match_buy-exhausts now order book n e h more act =
    match_loop-exhausts buy now _ order _ (iter_matching_asks order.price book) (start order book n)
      (start-IsRun buy order book n e h more act) (candidates_asks order.price book h)
      (iter_matching_asks-Distinct book h order.price)

-- On a book in order, the match of an active sell order with something to fill leaves nothing of
-- the order, or every bid that `iter_matching_bids` had yielded for its price is gone from the
-- book or is the same user's own order.
pub match_sell-exhausts :
    (now : ℕ) {next : ℕ} (order : Order) (book : OrderBook) (n : ℕ)
    → order.side ≡ sell
    → IsBook next book
    → pos 1 ≤ℤ remaining_quantity order
    → is_active order ≡ true
    → Exhausted order.user_address
        (iter_matching_bids order.price book)
        (match_sell now order book n)
unfolding match_sell
match_sell-exhausts now order book n e h more act =
    match_loop-exhausts sell now _ order _ (iter_matching_bids order.price book)
      (start order book n) (start-IsRun sell order book n e h more act)
      (candidates_bids order.price book h) (iter_matching_bids-Distinct book h order.price)
