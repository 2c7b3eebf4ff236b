-- ===== src/Storage/OrderBook/Invariant.antt =====
-- The invariant of the book: the dict and the two sorted lists describe the same open orders.
use lumendark.Common.{
  ℕ, ◌<◌, ◌≡◌, ◌≢◌, refl, sym, ap, ◌∙◌, Bool, true, false, Option, none, some, List, [], ◌∷◌, arith,
  if◌then◌else◌, pos, ◌≤ℤ◌, Each, Distinct, Each-map, Bool-cases, Option-cases, ◌≤◌, ◌⊎◌, inl, inr,
  ⊤,
}
use lumendark.Common.Dict.{Dict, IsDict, lookup}
use lumendark.Common.Dict.Sum.{All, All-map, All-lookup}
use lumendark.Models.Order.{Order, OrderSide, buy, sell, is_active, remaining_quantity}
use lumendark.Storage.OrderBook.{
  OrderBook, Key, key_ltb, key_eqb, bid_key, ask_key, sorted_add, sorted_discard,
}

-- An order that may rest under the id `id`: an id that was handed out, a price and a quantity to fill.
pub record IsResting (next id : ℕ) (o : Order) : Type 0 where
  pub own_id : o.id ≡ id
  pub issued : id < next
  pub priced : pos 1 ≤ℤ o.price
  pub remains : pos 1 ≤ℤ remaining_quantity o
  pub active : is_active o ≡ true

-- A key of a list leads to an order of that side with that key.
abbrev pub KeyOf : (Order → Key) → OrderSide → Key → Option Order → Type 0
KeyOf key side k none = ⊥
KeyOf key side k (some o) = (o.side ≡ side) × (key o ≡ k)

abbrev pub Refers : (Order → Key) → OrderSide → Dict Order → Key → Type 0
Refers key side orders k = KeyOf key side k (lookup k.id orders)

-- No key stands behind a greater one.
abbrev pub IsSorted : List Key → Type 0
IsSorted [] = ⊤
IsSorted (k ∷ ks) = Each (λ j. key_ltb j k ≡ false) ks × IsSorted ks

abbrev pub has_key : Key → List Key → Bool
has_key k [] = false
has_key k (j ∷ ks) = if key_eqb k j then true else has_key k ks

-- The list has the key.
abbrev pub Lists : Key → List Key → Type 0
Lists k [] = ⊥
Lists k (j ∷ ks) = (k ≡ j) ⊎ Lists k ks

-- One sorted list of the book.
pub record IsSide (key : Order → Key) (side : OrderSide) (orders : Dict Order) (ks : List Key)
    : Type 0 where
  pub refers : Each (Refers key side orders) ks
  pub distinct : Distinct (λ k. k.id) ks
  pub sorted : IsSorted ks
  pub complete : (id : ℕ) (o : Order) → lookup id orders ≡ some o → o.side ≡ side → Lists (key o) ks

-- A buy order whose price reaches that of a sell order.
pub record Crossing (bid ask : Order) : Type 0 where
  pub bid_side : bid.side ≡ buy
  pub ask_side : ask.side ≡ sell
  pub reaches : ask.price ≤ℤ bid.price

-- Only orders of one user cross.
abbrev pub Uncrossed : Dict Order → Type 0
Uncrossed orders =
    (i j : ℕ) (bid ask : Order)
    → lookup i orders ≡ some bid
    → lookup j orders ≡ some ask
    → Crossing bid ask
    → bid.user_address ≡ ask.user_address

-- An order crosses only orders of its own user.
abbrev pub Apart : Order → Dict Order → Type 0
Apart o orders =
    (i : ℕ) (p : Order)
    → lookup i orders ≡ some p
    → Crossing o p ⊎ Crossing p o
    → p.user_address ≡ o.user_address

pub record IsBook (next : ℕ) (book : OrderBook) : Type 0 where
  pub dict : IsDict book.orders
  pub resting : All (IsResting next) book.orders
  pub bids : IsSide bid_key buy book.orders book.bids
  pub asks : IsSide ask_key sell book.orders book.asks
  pub uncrossed : Uncrossed book.orders

-- What an operation on a sorted list keeps.
module _ (P : Key → Type 0) where
  pub Each-sorted_add : (k : Key) (ks : List Key) → P k → Each P ks → Each P (sorted_add k ks)
  unfolding sorted_add
  Each-sorted_add k [] p h = (p, tt)
  Each-sorted_add k (j ∷ ks) p h = ground (arith, Each-sorted_add k ks p h.1)

  pub Each-sorted_discard : (k : Key) (ks : List Key) → Each P ks → Each P (sorted_discard k ks)
  unfolding sorted_discard
  Each-sorted_discard k [] h = tt
  Each-sorted_discard k (j ∷ ks) h = ground (arith, Each-sorted_discard k ks h.1)

pub Distinct-sorted_discard :
    (k : Key) (ks : List Key) → Distinct (λ j. j.id) ks → Distinct (λ j. j.id) (sorted_discard k ks)
unfolding sorted_discard
Distinct-sorted_discard k [] h = tt
Distinct-sorted_discard k (j ∷ ks) h =
    ground
      (arith, Distinct-sorted_discard k ks h.1, Each-sorted_discard (λ i. i.id ≢ j.id) k ks h.0)

pub IsSorted-sorted_discard :
    (k : Key) (ks : List Key) → IsSorted ks → IsSorted (sorted_discard k ks)
unfolding sorted_discard
IsSorted-sorted_discard k [] h = tt
IsSorted-sorted_discard k (j ∷ ks) h = ground (
  arith,
  IsSorted-sorted_discard k ks h.1,
  Each-sorted_discard (λ i. key_ltb i j ≡ false) k ks h.0,
)

pub Distinct-sorted_add :
    (k : Key) (ks : List Key)
    → Each (λ j. j.id ≢ k.id) ks
    → Distinct (λ j. j.id) ks
    → Distinct (λ j. j.id) (sorted_add k ks)
unfolding sorted_add
Distinct-sorted_add k [] new h = (tt, tt)
Distinct-sorted_add k (j ∷ ks) new h = ground (
  arith,
  Distinct-sorted_add k ks new.1 h.1,
  Each-sorted_add (λ i. i.id ≢ j.id) k ks (λ e. new.0 (sym e)) h.0,
)

pub Lists-sorted_add_self : (k : Key) (ks : List Key) → Lists k (sorted_add k ks)
unfolding sorted_add
Lists-sorted_add_self k [] = inl refl
Lists-sorted_add_self k (j ∷ ks) = elim (Bool-cases (key_ltb k j)) [
  | inl before ↦ rw before (inl refl)
  | inr behind ↦ rw behind (inr (Lists-sorted_add_self k ks))
]

pub Lists-sorted_add : (i k : Key) (ks : List Key) → Lists i ks → Lists i (sorted_add k ks)
unfolding sorted_add
Lists-sorted_add i k [] h = elim h [ ]
Lists-sorted_add i k (j ∷ ks) h = elim (Bool-cases (key_ltb k j)) [
  | inl before ↦ rw before (inr h)
  | inr behind ↦
      rw behind (elim h [ inl same ↦ inl same | inr later ↦ inr (Lists-sorted_add i k ks later) ])
]

pub Lists-sorted_discard :
    (i k : Key) (ks : List Key) → i.id ≢ k.id → Lists i ks → Lists i (sorted_discard k ks)
unfolding sorted_discard
Lists-sorted_discard i k [] ne h = elim h [ ]
Lists-sorted_discard i k (j ∷ ks) ne h = elim (Bool-cases (key_eqb k j)) [
  | inl same ↦
      rw same (elim h [
        | inl e ↦ absurd (ne (ap (λ (x : Key). x.id) e ∙ ground arith))
        | inr later ↦ later
      ])
  | inr differs ↦
      rw differs (elim h [ inl e ↦ inl e | inr later ↦ inr (Lists-sorted_discard i k ks ne later) ])
]

key_ltb_asymm : (j k : Key) → key_ltb j k ≡ true → key_ltb k j ≡ false
unfolding key_ltb
key_ltb_asymm j k h = ground arith

key_ltb_trans : (i j k : Key) → key_ltb i j ≡ false → key_ltb k j ≡ true → key_ltb i k ≡ false
unfolding key_ltb
key_ltb_trans i j k h e = ground arith

pub IsSorted-sorted_add : (k : Key) (ks : List Key) → IsSorted ks → IsSorted (sorted_add k ks)
unfolding sorted_add
IsSorted-sorted_add k [] h = (tt, tt)
IsSorted-sorted_add k (j ∷ ks) h = elim (Bool-cases (key_ltb k j)) [
  | inl before ↦ rw before (
    (
      key_ltb_asymm k j before,
      Each-map (λ i. key_ltb i j ≡ false) (λ i. key_ltb i k ≡ false)
          (λ i e. key_ltb_trans i j k e before) ks h.0,
    ),
    h,
  )
  | inr behind ↦
      rw behind
        (Each-sorted_add (λ i. key_ltb i j ≡ false) k ks behind h.0, IsSorted-sorted_add k ks h.1)
]

-- Later ids do not matter.
pub IsBook-mono : {n m : ℕ} {book : OrderBook} → n ≤ m → IsBook n book → IsBook m book
IsBook-mono {n} {m} {book} le h = record {
  dict = h.dict;
  resting =
      All-map (IsResting n) (IsResting m)
        (λ k o r. record {
          own_id = r.own_id;
          issued = omega (arith, r.issued);
          priced = r.priced;
          remains = r.remains;
          active = r.active;
        })
        book.orders h.resting;
  bids = h.bids;
  asks = h.asks;
  uncrossed = h.uncrossed;
}

-- An id that was not handed out is not in the book.
pub lookup_unissued : {n : ℕ} {book : OrderBook} → IsBook n book → lookup n book.orders ≡ none
lookup_unissued {n} {book} h = elim (Option-cases (lookup n book.orders)) [
  | inl missing ↦ missing
  | inr (o, found) ↦ absurd (omega (arith, (All-lookup _ n o book.orders h.resting found).issued))
]
