-- ===== src/Storage/OrderBook/Yields.antt =====
-- The generators over the sorted lists leave no order out.
use lumendark.Common.{
  ℕ, ◌≡◌, refl, sym, ap, ◌∙◌, subst, Bool, true, false, some, List, [], ◌∷◌, arith, ◌≤ℤ◌, leb_ℤ,
  pos, ◌-ℤ◌, int_laws, Option-cases, inl, inr, Decimal, Each,
}
use lumendark.Common.Dict.{Dict, lookup}
use lumendark.Models.Order.{Order, OrderSide, buy, sell}
use lumendark.Storage.OrderBook.{
  OrderBook, Key, key_ltb, bid_key, ask_key, objects, take_while, iter_matching_asks,
  iter_matching_bids,
}
use lumendark.Storage.OrderBook.Invariant.{Refers, IsSorted, Lists, IsBook}
use lumendark.Storage.OrderBook.Iteration.{objects-some}

-- A property of all keys of a list, at one of them.
pub Each-Lists : (P : Key → Type 0) (k : Key) (ks : List Key) → Lists k ks → Each P ks → P k
Each-Lists P k [] l h = elim l [ ]
Each-Lists P k (j ∷ ks) (inl e) h = subst P (sym e) h.0
Each-Lists P k (j ∷ ks) (inr l) h = Each-Lists P k ks l h.1

module _ (test : Order → Bool) (Q : Order → Type 0) where
  take_while_head :
      (o : Order) (os : List Order) → test o ≡ true → Each Q (take_while test (o ∷ os)) → Q o
  unfolding take_while
  take_while_head o os e h = (rw e at h).0

  take_while_tail :
      (o : Order) (os : List Order)
      → test o ≡ true
      → Each Q (take_while test (o ∷ os))
      → Each Q (take_while test os)
  unfolding take_while
  take_while_tail o os e h = (rw e at h).1

-- A generator whose test, once failed, fails at every later key yields each order of its list that
-- passes the test.
module _ (orders : Dict Order) (key : Order → Key) (own : (o : Order) → (key o).id ≡ o.id)
    (side : OrderSide) (test : Order → Bool)
    (stops : (o p : Order) → key_ltb (key p) (key o) ≡ false → test p ≡ true → test o ≡ true)
    (Q : Order → Type 0) (p : Order) (found : lookup p.id orders ≡ some p)
    (passes : test p ≡ true) where
  pub yields :
      (ks : List Key)
      → Each (Refers key side orders) ks
      → IsSorted ks
      → Lists (key p) ks
      → Each Q (take_while test (objects orders ks))
      → Q p
  yields [] r s l h = elim l [ ]
  yields (k ∷ ks) r s l h = elim (Option-cases (lookup k.id orders)) [
    | inl missing ↦ absurd (rw missing at r.0)
    | inr (o, here) ↦
        let same : key o ≡ k = (rw here at r.0).1 in
        let h' : Each Q (take_while test (o ∷ objects orders ks)) =
          subst (λ os. Each Q (take_while test os)) (objects-some orders k ks o here) h in
        elim l [
          | inl e ↦
              let o_p : some o ≡ some p =
                sym here
                ∙ ap (λ i. lookup i orders) (sym (ap (λ (x : Key). x.id) e) ∙ own p)
                ∙ found in
              let o_is_p : o ≡ p = cc o_p in
              subst Q o_is_p
                (take_while_head test Q o (objects orders ks) (ap test o_is_p ∙ passes) h')
          | inr later ↦ yields ks r.1 s.1 later (
              take_while_tail test Q o (objects orders ks)
                (stops o p
                  (ap (key_ltb (key p)) same
                    ∙ Each-Lists (λ j. key_ltb j k ≡ false) (key p) ks later s.0)
                  passes)
                h')
        ]
  ]

not_below : (j k : Key) → key_ltb j k ≡ false → k.rank ≤ℤ j.rank
unfolding key_ltb
not_below j k e = ground arith

reaches_lower : (limit p o : Decimal) → pos 0 -ℤ o ≤ℤ pos 0 -ℤ p → limit ≤ℤ p → limit ≤ℤ o
reaches_lower limit p o le h = omega (int_laws, le, h)

pub asks_stop :
    (limit : Decimal) (o p : Order)
    → key_ltb (ask_key p) (ask_key o) ≡ false
    → leb_ℤ p.price limit ≡ true
    → leb_ℤ o.price limit ≡ true
unfolding key_ltb
asks_stop limit o p behind passes = ground arith

pub bids_stop :
    (limit : Decimal) (o p : Order)
    → key_ltb (bid_key p) (bid_key o) ≡ false
    → leb_ℤ limit p.price ≡ true
    → leb_ℤ limit o.price ≡ true
bids_stop limit o p behind passes =
    let reaches : limit ≤ℤ o.price =
      reaches_lower limit p.price o.price (not_below (bid_key p) (bid_key o) behind)
        (ground arith) in
    ground arith

module _ {next : ℕ} (book : OrderBook) (h : IsBook next book) (limit : Decimal) (Q : Order → Type 0)
    (p : Order) (found : lookup p.id book.orders ≡ some p) where
  -- What holds of all that `iter_matching_asks` yields on a book in order holds of each sell order
  -- of the dict at a price of at most the maximum.
  pub iter_matching_asks-yields :
      p.side ≡ sell → p.price ≤ℤ limit → Each Q (iter_matching_asks limit book) → Q p
  unfolding iter_matching_asks key_ltb
  iter_matching_asks-yields side reaches =
      yields book.orders ask_key (λ o. refl) sell (λ o. leb_ℤ o.price limit) (asks_stop limit) Q p
        found (ground arith) book.asks h.asks.refers h.asks.sorted
        (h.asks.complete p.id p found side)

  -- The same for the buy orders at a price of at least the minimum.
  pub iter_matching_bids-yields :
      p.side ≡ buy → limit ≤ℤ p.price → Each Q (iter_matching_bids limit book) → Q p
  unfolding iter_matching_bids key_ltb
  iter_matching_bids-yields side reaches =
      yields book.orders bid_key (λ o. refl) buy (λ o. leb_ℤ limit o.price) (bids_stop limit) Q p
        found (ground arith) book.bids h.bids.refers h.bids.sorted
        (h.bids.complete p.id p found side)
