-- ===== src/Storage/OrderBook/Iteration.antt =====
-- The orders that a sorted list refers to, and the generators over them.
use lumendark.Common.{
  ℕ, ◌≡◌, ◌≢◌, sym, ap, ◌∙◌, Bool, true, none, some, List, [], ◌∷◌, arith, ◌≤ℤ◌, leb_ℤ,
  Option-cases, inl, inr, Decimal, Each, Each-map, Each-both, Distinct,
}
use lumendark.Common.Dict.{Dict, lookup}
use lumendark.Common.Dict.Sum.{All, All-lookup}
use lumendark.Models.Order.{Order, OrderSide, buy, sell}
use lumendark.Storage.OrderBook.{
  OrderBook, Key, bid_key, ask_key, objects, take_while, iter_matching_asks, iter_matching_bids,
}
use lumendark.Storage.OrderBook.Invariant.{Refers, IsResting, IsBook}

-- An order as the dict holds it, on one side.
abbrev pub Held : OrderSide → Dict Order → Order → Type 0
Held side orders o = (lookup o.id orders ≡ some o) × (o.side ≡ side)

module _ (orders : Dict Order) where
  objects-none :
      (k : Key) (ks : List Key)
      → lookup k.id orders ≡ none
      → objects orders (k ∷ ks) ≡ objects orders ks
  unfolding objects
  objects-none k ks e = rw (objects, e)

  pub objects-some :
      (k : Key) (ks : List Key) (o : Order)
      → lookup k.id orders ≡ some o
      → objects orders (k ∷ ks) ≡ o ∷ objects orders ks
  unfolding objects
  objects-some k ks o e = rw (objects, e)

  module _ (next : ℕ) (resting : All (IsResting next) orders) (key : Order → Key)
      (side : OrderSide) where
    objects-Held :
        (ks : List Key)
        → Each (Refers key side orders) ks
        → Each (Held side orders) (objects orders ks)
    unfolding objects
    objects-Held [] h = tt
    objects-Held (k ∷ ks) h = elim (Option-cases (lookup k.id orders)) [
      | inl missing ↦ absurd (rw missing at h.0)
      | inr (o, found) ↦
          let own = (All-lookup _ k.id o orders resting found).own_id in
          rw (objects-some k ks o found)
            ((ap (λ i. lookup i orders) own ∙ found, (rw found at h.0).0), objects-Held ks h.1)
    ]

    -- The ids of the objects are among those of the keys.
    objects_ids_ne :
        (id : ℕ) (ks : List Key)
        → Each (λ k. k.id ≢ id) ks
        → Each (λ o. o.id ≢ id) (objects orders ks)
    unfolding objects
    objects_ids_ne id [] h = tt
    objects_ids_ne id (k ∷ ks) h = elim (Option-cases (lookup k.id orders)) [
      | inl missing ↦ rw (objects-none k ks missing) (objects_ids_ne id ks h.1)
      | inr (o, found) ↦
          let own = (All-lookup _ k.id o orders resting found).own_id in
          rw (objects-some k ks o found) ((λ e. h.0 (sym own ∙ e)), objects_ids_ne id ks h.1)
    ]

    objects-Distinct :
        (ks : List Key) → Distinct (λ k. k.id) ks → Distinct (λ o. o.id) (objects orders ks)
    unfolding objects
    objects-Distinct [] h = tt
    objects-Distinct (k ∷ ks) h = elim (Option-cases (lookup k.id orders)) [
      | inl missing ↦ rw (objects-none k ks missing) (objects-Distinct ks h.1)
      | inr (o, found) ↦
          let own = (All-lookup _ k.id o orders resting found).own_id in
          rw (objects-some k ks o found)
            (rw own (objects_ids_ne k.id ks h.0), objects-Distinct ks h.1)
    ]

module _ (test : Order → Bool) where
  pub Each-take_while :
      (P : Order → Type 0) (os : List Order) → Each P os → Each P (take_while test os)
  unfolding take_while
  Each-take_while P [] h = tt
  Each-take_while P (o ∷ os) h = ground (arith, Each-take_while P os h.1)

  pub passes-take_while : (os : List Order) → Each (λ o. test o ≡ true) (take_while test os)
  unfolding take_while
  passes-take_while [] = tt
  passes-take_while (o ∷ os) = ground (arith, passes-take_while os)

  pub Distinct-take_while :
      (os : List Order) → Distinct (λ o. o.id) os → Distinct (λ o. o.id) (take_while test os)
  unfolding take_while
  Distinct-take_while [] h = tt
  Distinct-take_while (o ∷ os) h =
      ground (arith, Distinct-take_while os h.1, Each-take_while (λ p. p.id ≢ o.id) os h.0)

module _ {next : ℕ} (book : OrderBook) (h : IsBook next book) (limit : Decimal) where
  -- On a book in order, each order that `iter_matching_asks` yields is the sell order that the
  -- dict holds under its id, at a price of at most the maximum.
  pub iter_matching_asks-Each :
      Each (λ o. Held sell book.orders o × (o.price ≤ℤ limit)) (iter_matching_asks limit book)
  unfolding iter_matching_asks
  iter_matching_asks-Each =
      let os = objects book.orders book.asks in
      let test : Order → Bool = λ o. leb_ℤ o.price limit in
      Each-both _ _ (take_while test os)
        (Each-take_while test _ os
          (objects-Held book.orders next h.resting ask_key sell book.asks h.asks.refers))
        (Each-map _ _ (λ o e. ground arith) (take_while test os) (passes-take_while test os))

  pub iter_matching_asks-Distinct : Distinct (λ o. o.id) (iter_matching_asks limit book)
  unfolding iter_matching_asks
  iter_matching_asks-Distinct =
      Distinct-take_while (λ o. leb_ℤ o.price limit) (objects book.orders book.asks)
        (objects-Distinct book.orders next h.resting ask_key sell book.asks h.asks.distinct)

  -- On a book in order, each order that `iter_matching_bids` yields is the buy order that the
  -- dict holds under its id, at a price of at least the minimum.
  pub iter_matching_bids-Each :
      Each (λ o. Held buy book.orders o × (limit ≤ℤ o.price)) (iter_matching_bids limit book)
  unfolding iter_matching_bids
  iter_matching_bids-Each =
      let os = objects book.orders book.bids in
      let test : Order → Bool = λ o. leb_ℤ limit o.price in
      Each-both _ _ (take_while test os)
        (Each-take_while test _ os
          (objects-Held book.orders next h.resting bid_key buy book.bids h.bids.refers))
        (Each-map _ _ (λ o e. ground arith) (take_while test os) (passes-take_while test os))

  pub iter_matching_bids-Distinct : Distinct (λ o. o.id) (iter_matching_bids limit book)
  unfolding iter_matching_bids
  iter_matching_bids-Distinct =
      Distinct-take_while (λ o. leb_ℤ limit o.price) (objects book.orders book.bids)
        (objects-Distinct book.orders next h.resting bid_key buy book.bids h.bids.distinct)
