-- ===== src/Matching/Engine/Loop.antt =====
-- The invariant of the matching loop, and what one exchange and the whole loop keep.
use lumendark.Common.{
  ℕ, ◌≤◌, ◌≡◌, ◌≢◌, refl, sym, ◌∙◌, true, false, some, List, [], ◌∷◌, ◌++◌, arith, ◌==◌, ℤ, pos,
  ◌+ℤ◌, ◌-ℤ◌, ◌≤ℤ◌, leb_ℤ, int_laws, Bool-cases, inl, inr, Decimal, Each, Each-map, Each-both,
  Each-append, Distinct, eq→==,
}
use lumendark.Common.Dict.{lookup}
use lumendark.Common.Dict.Sum.{All-lookup}
use lumendark.Models.Order.{Order, Asset, OrderSide, buy, sell, fill, remaining_quantity, is_active}
use lumendark.Models.Order.Laws.{remaining_quantity-fill}
use lumendark.Models.Trade.{Trade}
use lumendark.Models.Trade
use lumendark.Storage.OrderBook.{OrderBook}
use lumendark.Storage.OrderBook.Invariant.{IsBook}
use lumendark.Storage.OrderBook.Locked.{lock, locked}
use lumendark.Storage.UserStore.Cover.{Demand}
use lumendark.Matching.Engine.{
  Run, TradeOf, buy_trade, sell_trade, trade_quantity, execute, match_resting, match_loop,
}
use lumendark.Matching.Engine.Filling.{
  fill_resting-IsBook, lookup-fill_resting_ne, locked-fill_resting,
}
use lumendark.Matching.Engine.Owed.{
  pending, pending-append, opposite, Crosses, taker_trade, exchange,
}

-- The three ways of a round.
module _ (trade : TradeOf) (s : Run) (r : Order) (rest : List Order) where
  pub match_loop_stop :
      leb_ℤ (remaining_quantity s.incoming) (pos 0) ≡ true → match_loop trade s (r ∷ rest) ≡ s
  unfolding match_loop
  match_loop_stop e = rw (match_loop, e)

  pub match_loop_self :
      leb_ℤ (remaining_quantity s.incoming) (pos 0) ≡ false
      → r.user_address == s.incoming.user_address ≡ true
      → match_loop trade s (r ∷ rest) ≡ match_loop trade s rest
  unfolding match_loop
  match_loop_self e f = rw (match_loop, e, match_resting, f)

  pub match_loop_next :
      leb_ℤ (remaining_quantity s.incoming) (pos 0) ≡ false
      → r.user_address == s.incoming.user_address ≡ false
      → match_loop trade s (r ∷ rest) ≡ match_loop trade (execute trade s r) rest
  unfolding match_loop
  match_loop_next e f = rw (match_loop, e, match_resting, f)

-- The quantity that trades move.
unfoldable pub volume : List Trade → Decimal
volume [] = pos 0
volume (t ∷ ts) = t.quantity +ℤ volume ts

pub volume-append : (ts us : List Trade) → volume (ts ++ us) ≡ volume ts +ℤ volume us
unfolding volume
volume-append [] us = omega int_laws
volume-append (t ∷ ts) us = rw (volume-append ts us) (omega int_laws)

abbrev pub taker_address : OrderSide → Trade → ℕ
taker_address buy t = t.buyer_address
taker_address sell t = t.seller_address

abbrev pub maker_address : OrderSide → Trade → ℕ
maker_address buy t = t.seller_address
maker_address sell t = t.buyer_address

-- A trade that an order of the given side, price and user may make.
pub record IsTrade (side : OrderSide) (limit : Decimal) (user : ℕ) (t : Trade) : Type 0 where
  pub priced : pos 1 ≤ℤ t.price
  pub moves : pos 1 ≤ℤ t.quantity
  pub crosses : Crosses side limit t.price
  pub taker : taker_address side t ≡ user
  pub maker : maker_address side t ≢ user

-- A resting order that the loop may meet.
pub record IsCandidate (side : OrderSide) (limit : Decimal) (book : OrderBook) (r : Order)
    : Type 0 where
  pub found : lookup r.id book.orders ≡ some r
  pub other_side : r.side ≡ opposite side
  pub crosses : Crosses side limit r.price

-- What the loop keeps, for the order as it came in, and a bound on all that is locked or owed.
pub record IsRun (side : OrderSide) (next : ℕ) (order : Order) (bound : Demand) (s : Run)
    : Type 0 where
  pub book : IsBook next s.book
  pub side_kept : s.incoming.side ≡ side
  pub price_kept : s.incoming.price ≡ order.price
  pub user_kept : s.incoming.user_address ≡ order.user_address
  pub id_kept : s.incoming.id ≡ order.id
  pub active : pos 1 ≤ℤ remaining_quantity s.incoming → is_active s.incoming ≡ true
  pub left : pos 0 ≤ℤ remaining_quantity s.incoming
  pub owed :
      (v : ℕ) (y : Asset)
      → locked s.book v y +ℤ pending s.trades v y +ℤ lock s.incoming v y ≤ℤ bound v y
  pub trades : Each (IsTrade side order.price order.user_address) s.trades
  pub filled : volume s.trades +ℤ remaining_quantity s.incoming ≡ remaining_quantity order

filled_step : (w l q r : ℤ) → w +ℤ l ≡ r → w +ℤ (q +ℤ pos 0) +ℤ (l -ℤ q) ≡ r
filled_step w l q r e = rw (← e) (omega int_laws)

is_active-fill :
    (q : Decimal) (o : Order) → pos 1 ≤ℤ remaining_quantity (fill q o) → is_active (fill q o) ≡ true
unfolding is_active fill
is_active-fill q o h = ground arith

trade_quantity_fits :
    (i r : Order)
    → pos 1 ≤ℤ remaining_quantity i
    → pos 1 ≤ℤ remaining_quantity r
    → (pos 1 ≤ℤ trade_quantity i r)
      × (trade_quantity i r ≤ℤ remaining_quantity i)
      × (trade_quantity i r ≤ℤ remaining_quantity r)
trade_quantity_fits i r hi hr = ground arith

taker_trade-IsTrade :
    (side : OrderSide) (now : ℕ) (order : Order) (uuid : ℕ) (incoming r : Order) (q : Decimal)
    → pos 1 ≤ℤ r.price
    → pos 1 ≤ℤ q
    → Crosses side order.price r.price
    → incoming.user_address ≡ order.user_address
    → r.user_address ≢ order.user_address
    → IsTrade side order.price order.user_address (taker_trade side now uuid incoming r q)
unfolding buy_trade sell_trade Trade.create
taker_trade-IsTrade buy now order uuid incoming r q priced moves crosses same stranger = record {
  priced = priced;
  moves = moves;
  crosses = crosses;
  taker = same;
  maker = stranger;
}
taker_trade-IsTrade sell now order uuid incoming r q priced moves crosses same stranger = record {
  priced = priced;
  moves = moves;
  crosses = crosses;
  taker = same;
  maker = stranger;
}

quantity-taker_trade :
    (side : OrderSide) (now uuid : ℕ) (incoming r : Order) (q : Decimal)
    → (taker_trade side now uuid incoming r q).quantity ≡ q
unfolding buy_trade sell_trade Trade.create
quantity-taker_trade buy now uuid incoming r q = refl
quantity-taker_trade sell now uuid incoming r q = refl

module _ (side : OrderSide) (now next : ℕ) (order : Order) (bound : Demand) where
  -- One exchange keeps the invariant.
  pub execute-IsRun :
      (s : Run) (r : Order)
      → IsRun side next order bound s
      → IsCandidate side order.price s.book r
      → pos 1 ≤ℤ remaining_quantity s.incoming
      → r.user_address ≢ order.user_address
      → IsRun side next order bound (execute (taker_trade side now) s r)
  unfolding execute
  execute-IsRun s r h c more stranger =
      let rest = All-lookup _ r.id r s.book.orders h.book.resting c.found in
      let fits = trade_quantity_fits s.incoming r more rest.remains in
      let q = trade_quantity s.incoming r in
      let t = taker_trade side now s.next s.incoming r q in
      record {
        book = fill_resting-IsBook q r s.book h.book c.found fits.2;
        side_kept = unfold fill in h.side_kept;
        price_kept = unfold fill in h.price_kept;
        user_kept = unfold fill in h.user_kept;
        id_kept = unfold fill in h.id_kept;
        active = is_active-fill q s.incoming;
        left = rw remaining_quantity-fill (omega (int_laws, fits.1));
        owed = λ v y.
            rw
              (
                locked-fill_resting q r s.book h.book c.found v y,
                pending-append s.trades (t ∷ []) v y,
              )
              (unfold pending in
                omega (
                  int_laws,
                  h.owed v y,
                  exchange side now s.next s.incoming r q h.side_kept c.other_side
                      (rw h.price_kept c.crosses) (omega (arith, fits.0)) v y,
                ));
        trades = Each-append _ s.trades (t ∷ []) h.trades (
          taker_trade-IsTrade side now order s.next s.incoming r q rest.priced fits.0 c.crosses
              h.user_kept stranger,
          tt,
        );
        filled =
            rw (volume-append s.trades (t ∷ []), remaining_quantity-fill q s.incoming)
              (unfold volume in
                rw (quantity-taker_trade side now s.next s.incoming r q)
                  (filled_step _ _ _ _ h.filled));
      }

  -- The rest of the loop's orders are as they were.
  pub execute-IsCandidate :
      (s : Run) (r o : Order)
      → IsRun side next order bound s
      → IsCandidate side order.price s.book r
      → o.id ≢ r.id
      → IsCandidate side order.price s.book o
      → IsCandidate side order.price (execute (taker_trade side now) s r).book o
  unfolding execute
  execute-IsCandidate s r o h c ne co = record {
    found =
        lookup-fill_resting_ne (trade_quantity s.incoming r) r s.book h.book c.found o.id ne
        ∙ co.found;
    other_side = co.other_side;
    crosses = co.crosses;
  }

  pub match_loop-IsRun :
      (rest : List Order) (s : Run)
      → IsRun side next order bound s
      → Each (IsCandidate side order.price s.book) rest
      → Distinct (λ o. o.id) rest
      → IsRun side next order bound (match_loop (taker_trade side now) s rest)
  match_loop-IsRun [] s h cs d = unfold match_loop in h
  match_loop-IsRun (r ∷ rest) s h cs d =
      elim (Bool-cases (leb_ℤ (remaining_quantity s.incoming) (pos 0))) [
        | inl stop ↦ rw (match_loop_stop (taker_trade side now) s r rest stop) h
        | inr more ↦ elim (Bool-cases (r.user_address == s.incoming.user_address)) [
          | inl self ↦
              rw (match_loop_self (taker_trade side now) s r rest more self)
                (match_loop-IsRun rest s h cs.1 d.1)
          | inr stranger ↦ rw (match_loop_next (taker_trade side now) s r rest more stranger) (
              match_loop-IsRun rest (execute (taker_trade side now) s r)
                (execute-IsRun s r h cs.0 (ground arith) (λ e.
                  cc
                    (stranger, eq→== r.user_address s.incoming.user_address (e ∙ sym h.user_kept))))
                (Each-map _ _ (λ o p. execute-IsCandidate s r o h cs.0 p.0 p.1) rest
                  (Each-both _ _ rest d.0 cs.1))
                d.1)
        ]
      ]

  next-execute : (s : Run) (r : Order) → s.next ≤ (execute (taker_trade side now) s r).next
  unfolding execute
  next-execute s r = omega arith

  pub next-match_loop :
      (rest : List Order) (s : Run) → s.next ≤ (match_loop (taker_trade side now) s rest).next
  next-match_loop [] s = unfold match_loop in omega arith
  next-match_loop (r ∷ rest) s = elim (Bool-cases (leb_ℤ (remaining_quantity s.incoming) (pos 0))) [
    | inl stop ↦ rw (match_loop_stop (taker_trade side now) s r rest stop) (omega arith)
    | inr more ↦ elim (Bool-cases (r.user_address == s.incoming.user_address)) [
      | inl self ↦
          rw (match_loop_self (taker_trade side now) s r rest more self) (next-match_loop rest s)
      | inr stranger ↦ rw (match_loop_next (taker_trade side now) s r rest more stranger) (
          omega
            (arith, next-execute s r, next-match_loop rest (execute (taker_trade side now) s r)))
    ]
  ]
