-- ===== src/Storage/OrderBook/Precedence.antt =====
-- The generators over the sorted lists follow the order of the keys.
use lumendark.Common.{
  ℕ, ◌≡◌, refl, sym, ap, ◌∙◌, subst, Bool, true, false, some, List, [], ◌∷◌, arith, ◌⊎◌, ◌≤ℤ◌,
  leb_ℤ, Option-cases, inl, inr, Decimal, Each, Each-map,
}
use lumendark.Common.Dict.{Dict, lookup}
use lumendark.Models.Order.{Order, OrderSide, buy, sell}
use lumendark.Storage.OrderBook.{
  OrderBook, Key, key_ltb, bid_key, ask_key, objects, take_while, iter_matching_asks,
  iter_matching_bids,
}
use lumendark.Storage.OrderBook.Invariant.{Refers, IsSorted, Lists, IsBook}
use lumendark.Storage.OrderBook.Iteration.{objects-some}
use lumendark.Storage.OrderBook.Yields.{Each-Lists, yields, asks_stop, bids_stop}

-- The list has an order with that id.
abbrev pub Has : ℕ → List Order → Type 0
Has id [] = ⊥
Has id (r ∷ rest) = (r.id ≡ id) ⊎ Has id rest

-- The order stands in the list, and one with that id behind it.
abbrev pub Precedes : Order → ℕ → List Order → Type 0
Precedes p id [] = ⊥
Precedes p id (r ∷ rest) = ((r ≡ p) × Has id rest) ⊎ Precedes p id rest

Each-Has : (os : List Order) → Each (λ o. Has o.id os) os
Each-Has [] = tt
Each-Has (o ∷ os) =
    (inl refl, Each-map (λ p. Has p.id os) (λ p. Has p.id (o ∷ os)) (λ p h. inr h) os (Each-Has os))

key_ltb_irrefl : (k : Key) → key_ltb k k ≡ false
unfolding key_ltb
key_ltb_irrefl k = ground arith

passed :
    (test : Order → Bool) (o : Order) (os : List Order)
    → test o ≡ true
    → take_while test (o ∷ os) ≡ o ∷ take_while test os
unfolding take_while
passed test o os e = rw e

module _ (orders : Dict Order) (key : Order → Key) (own : (o : Order) → (key o).id ≡ o.id)
    (side : OrderSide) (test : Order → Bool)
    (stops : (o p : Order) → key_ltb (key p) (key o) ≡ false → test p ≡ true → test o ≡ true)
    (p q : Order) (found_p : lookup p.id orders ≡ some p) (found_q : lookup q.id orders ≡ some q)
    (passes : test q ≡ true) (less : key_ltb (key p) (key q) ≡ true) where
  precedes :
      (ks : List Key)
      → Each (Refers key side orders) ks
      → IsSorted ks
      → Lists (key p) ks
      → Lists (key q) ks
      → Precedes p q.id (take_while test (objects orders ks))
  precedes [] r s lp lq = elim lp [ ]
  precedes (k ∷ ks) r s lp (inl here) = elim lp [
    | inl also ↦ absurd (cc (less, ap (key_ltb (key p)) (here ∙ sym also), key_ltb_irrefl (key p)))
    | inr later ↦ absurd (
        cc (
          less,
          ap (key_ltb (key p)) here,
          Each-Lists (λ j. key_ltb j k ≡ false) (key p) ks later s.0,
        ))
  ]
  precedes (k ∷ ks) r s lp (inr later) = elim (Option-cases (lookup k.id orders)) [
    | inl missing ↦ absurd (rw missing at r.0)
    | inr (o, found) ↦
        let same : key o ≡ k = (rw found at r.0).1 in
        let rest = take_while test (objects orders ks) in
        let pass =
          stops o q
            (ap (key_ltb (key q)) same ∙ Each-Lists (λ j. key_ltb j k ≡ false) (key q) ks later s.0)
            passes in
        subst (Precedes p q.id)
          (sym (
            ap (take_while test) (objects-some orders k ks o found)
            ∙ passed test o (objects orders ks) pass))
          (elim lp [
            | inl first ↦
                let o_p : some o ≡ some p =
                  sym found
                  ∙ ap (λ i. lookup i orders) (sym (ap (λ (x : Key). x.id) first) ∙ own p)
                  ∙ found_p in
                inl (
                  cc o_p,
                  yields orders key own side test stops (λ x. Has x.id rest) q found_q passes ks r.1
                      s.1 later (Each-Has rest),
                )
            | inr behind ↦ inr (precedes ks r.1 s.1 behind later)
          ])
  ]

module _ {next : ℕ} (book : OrderBook) (h : IsBook next book) (limit : Decimal) (p q : Order)
    (found_p : lookup p.id book.orders ≡ some p) (found_q : lookup q.id book.orders ≡ some q) where
  pub iter_matching_asks-Precedes :
      p.side ≡ sell
      → q.side ≡ sell
      → q.price ≤ℤ limit
      → key_ltb (ask_key p) (ask_key q) ≡ true
      → Precedes p q.id (iter_matching_asks limit book)
  unfolding iter_matching_asks
  iter_matching_asks-Precedes side_p side_q reaches less =
      precedes book.orders ask_key (λ o. refl) sell (λ o. leb_ℤ o.price limit) (asks_stop limit) p q
        found_p found_q (ground arith) less book.asks h.asks.refers h.asks.sorted
        (h.asks.complete p.id p found_p side_p) (h.asks.complete q.id q found_q side_q)

  pub iter_matching_bids-Precedes :
      p.side ≡ buy
      → q.side ≡ buy
      → limit ≤ℤ q.price
      → key_ltb (bid_key p) (bid_key q) ≡ true
      → Precedes p q.id (iter_matching_bids limit book)
  unfolding iter_matching_bids
  iter_matching_bids-Precedes side_p side_q reaches less =
      precedes book.orders bid_key (λ o. refl) buy (λ o. leb_ℤ limit o.price) (bids_stop limit) p q
        found_p found_q (ground arith) less book.bids h.bids.refers h.bids.sorted
        (h.bids.complete p.id p found_p side_p) (h.bids.complete q.id q found_q side_q)
