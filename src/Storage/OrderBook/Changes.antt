-- ===== src/Storage/OrderBook/Changes.antt =====
-- `add`, `remove` and a fill of a resting order: what they do to the dict, and that they keep the
-- invariant of the book.
use lumendark.Common.{
  ℕ, ◌≡◌, refl, sym, ap, ◌∙◌, subst, Option, none, some, Option-cases, inl, inr, ok, Decimal, ◌≤ℤ◌,
}
use lumendark.Common.Dict.{
  Dict, IsDict, lookup, contains, insert, erase, lookup-insert_self, insert-IsDict, erase-IsDict,
  erase-insert, lookup-insert-some, lookup-erase-some,
}
use lumendark.Common.Dict.Sum.{All-lookup, All-insert, All-erase}
use lumendark.Models.Order.{Order, OrderSide, buy, sell}
use lumendark.Storage.OrderBook.{
  write, OrderBook, Key, bid_key, ask_key, sorted_discard, list_order, unlist_order, add, remove,
}
use lumendark.Storage.OrderBook.Invariant.{IsResting, IsBook, Uncrossed, Apart, Crossing}
use lumendark.Storage.OrderBook.Sides.{
  IsSide-insert_across, IsSide-erase_across, IsSide-discard, IsSide-sorted_add, IsSide-insert_same,
}

add_eq :
    (o : Order) (book : OrderBook)
    → lookup o.id book.orders ≡ none
    → add o book ≡ (ok tt, list_order o o.side (record book { orders = insert o.id o book.orders }))
unfolding add
add_eq o book new = rw (contains, new)

pub remove_eq :
    (id : ℕ) (o : Order) (book : OrderBook)
    → lookup id book.orders ≡ some o
    → remove id book
      ≡ (some o, unlist_order o o.side (record book { orders = erase id book.orders }))
unfolding remove
remove_eq id o book found = rw (remove, found)

pub remove_missing :
    (id : ℕ) (book : OrderBook) → lookup id book.orders ≡ none → remove id book ≡ (none, book)
unfolding remove
remove_missing id book missing = rw (remove, missing)

orders-list_order :
    (o : Order) (side : OrderSide) (book : OrderBook)
    → (list_order o side book).orders ≡ book.orders
unfolding list_order
orders-list_order o buy book = refl
orders-list_order o sell book = refl

orders-unlist_order :
    (o : Order) (side : OrderSide) (book : OrderBook)
    → (unlist_order o side book).orders ≡ book.orders
unfolding unlist_order
orders-unlist_order o buy book = refl
orders-unlist_order o sell book = refl

pub orders-add :
    (o : Order) (book : OrderBook)
    → lookup o.id book.orders ≡ none
    → (add o book).1.orders ≡ insert o.id o book.orders
orders-add o book new = rw (add_eq o book new) (orders-list_order o o.side _)

pub orders-remove :
    (id : ℕ) (o : Order) (book : OrderBook)
    → lookup id book.orders ≡ some o
    → (remove id book).1.orders ≡ erase id book.orders
orders-remove id o book found = rw (remove_eq id o book found) (orders-unlist_order o o.side _)

Uncrossed-insert :
    (o : Order) (orders : Dict Order)
    → Uncrossed orders
    → Apart o orders
    → Uncrossed (insert o.id o orders)
Uncrossed-insert o orders h apart i j bid ask e f c =
    elim (lookup-insert-some i o.id o bid orders e) [
      | inl (_, new_bid) ↦ elim (lookup-insert-some j o.id o ask orders f) [
        | inl (_, new_ask) ↦ cc (new_bid, new_ask)
        | inr old_ask ↦
            ap (λ (p : Order). p.user_address) new_bid
            ∙ sym (apart j ask old_ask (inl (subst (λ (p : Order). Crossing p ask) new_bid c)))
      ]
      | inr old_bid ↦ elim (lookup-insert-some j o.id o ask orders f) [
        | inl (_, new_ask) ↦
            apart i bid old_bid (inr (subst (λ (p : Order). Crossing bid p) new_ask c))
            ∙ ap (λ (p : Order). p.user_address) (sym new_ask)
        | inr old_ask ↦ h i j bid ask old_bid old_ask c
      ]
    ]

Uncrossed-erase :
    (id : ℕ) (orders : Dict Order) → IsDict orders → Uncrossed orders → Uncrossed (erase id orders)
Uncrossed-erase id orders d h i j bid ask e f =
    h i j bid ask (lookup-erase-some i id bid orders d e).1
      (lookup-erase-some j id ask orders d f).1

-- An order of a book is apart from it, and so is a new value of the same side, price and user.
pub held-Apart :
    (id : ℕ) (o o' : Order) (orders : Dict Order)
    → Uncrossed orders
    → lookup id orders ≡ some o
    → o'.side ≡ o.side
    → o'.price ≡ o.price
    → o'.user_address ≡ o.user_address
    → Apart o' orders
held-Apart id o o' orders h found side price user i p e (inl c) = sym (
    user
    ∙ h id i o p found e (record {
      bid_side = sym side ∙ c.bid_side;
      ask_side = c.ask_side;
      reaches = subst (λ (x : Decimal). p.price ≤ℤ x) price c.reaches;
    }))
held-Apart id o o' orders h found side price user i p e (inr c) =
    h i id p o e found (record {
      bid_side = c.bid_side;
      ask_side = sym side ∙ c.ask_side;
      reaches = subst (λ (x : Decimal). x ≤ℤ p.price) price c.reaches;
    })
    ∙ sym user

list_order-IsBook :
    {next : ℕ} (o : Order) (book : OrderBook) (side : OrderSide)
    → o.side ≡ side
    → IsBook next book
    → lookup o.id book.orders ≡ none
    → IsResting next o.id o
    → Apart o book.orders
    → IsBook next (list_order o side (record book { orders = insert o.id o book.orders }))
unfolding list_order
list_order-IsBook o book buy same h new r apart = record {
  dict = insert-IsDict o.id o book.orders h.dict;
  resting = All-insert _ o.id o book.orders h.resting r;
  bids = IsSide-sorted_add bid_key (λ o. refl) buy book.orders o book.bids new same h.bids;
  asks = IsSide-insert_across ask_key (λ o. refl) sell book.orders o book.asks new (λ e. cc) h.asks;
  uncrossed = Uncrossed-insert o book.orders h.uncrossed apart;
}
list_order-IsBook o book sell same h new r apart = record {
  dict = insert-IsDict o.id o book.orders h.dict;
  resting = All-insert _ o.id o book.orders h.resting r;
  bids = IsSide-insert_across bid_key (λ o. refl) buy book.orders o book.bids new (λ e. cc) h.bids;
  asks = IsSide-sorted_add ask_key (λ o. refl) sell book.orders o book.asks new same h.asks;
  uncrossed = Uncrossed-insert o book.orders h.uncrossed apart;
}

pub add-IsBook :
    {next : ℕ} (o : Order) (book : OrderBook)
    → IsBook next book
    → lookup o.id book.orders ≡ none
    → IsResting next o.id o
    → Apart o book.orders
    → ((add o book).0 ≡ ok tt) × IsBook next (add o book).1
add-IsBook o book h new r apart =
    rw (add_eq o book new) (refl, list_order-IsBook o book o.side refl h new r apart)

unlist_order-IsBook :
    {next : ℕ} (id : ℕ) (o : Order) (book : OrderBook) (side : OrderSide)
    → o.side ≡ side
    → IsBook next book
    → lookup id book.orders ≡ some o
    → o.id ≡ id
    → IsBook next (unlist_order o side (record book { orders = erase id book.orders }))
unfolding unlist_order
unlist_order-IsBook id o book buy same h found own =
    let found' : lookup o.id book.orders ≡ some o = ap (λ i. lookup i book.orders) own ∙ found in
    let ids = λ (j : ℕ) (p : Order) (e : lookup j book.orders ≡ some p).
      (All-lookup _ j p book.orders h.resting e).own_id in
    rw (sym own) (record {
      dict = erase-IsDict o.id book.orders h.dict;
      resting = All-erase _ o.id book.orders h.resting;
      bids =
          IsSide-discard bid_key (λ o. refl) buy book.orders o book.bids h.dict ids found' h.bids;
      asks =
          IsSide-erase_across ask_key (λ o. refl) sell book.orders o book.asks h.dict found'
            (λ e. cc) h.asks;
      uncrossed = Uncrossed-erase o.id book.orders h.dict h.uncrossed;
    })
unlist_order-IsBook id o book sell same h found own =
    let found' : lookup o.id book.orders ≡ some o = ap (λ i. lookup i book.orders) own ∙ found in
    let ids = λ (j : ℕ) (p : Order) (e : lookup j book.orders ≡ some p).
      (All-lookup _ j p book.orders h.resting e).own_id in
    rw (sym own) (record {
      dict = erase-IsDict o.id book.orders h.dict;
      resting = All-erase _ o.id book.orders h.resting;
      bids =
          IsSide-erase_across bid_key (λ o. refl) buy book.orders o book.bids h.dict found'
            (λ e. cc) h.bids;
      asks =
          IsSide-discard ask_key (λ o. refl) sell book.orders o book.asks h.dict ids found' h.asks;
      uncrossed = Uncrossed-erase o.id book.orders h.dict h.uncrossed;
    })

-- A removal by any id keeps a book in order, whether or not it finds an order.
pub remove-IsBook :
    {next : ℕ} (id : ℕ) (book : OrderBook) → IsBook next book → IsBook next (remove id book).1
remove-IsBook id book h = elim (Option-cases (lookup id book.orders)) [
  | inl missing ↦ rw (remove_missing id book missing) h
  | inr (o, found) ↦ rw (remove_eq id o book found) (
      unlist_order-IsBook id o book o.side refl h found
        (All-lookup _ id o book.orders h.resting found).own_id)
]

-- A new value of a resting order, of the same side and key, keeps the book in order.
pub write-IsBook :
    {next : ℕ} (o o' : Order) (book : OrderBook)
    → IsBook next book
    → lookup o'.id book.orders ≡ some o
    → o'.side ≡ o.side
    → bid_key o' ≡ bid_key o
    → ask_key o' ≡ ask_key o
    → o'.user_address ≡ o.user_address
    → IsResting next o'.id o'
    → IsBook next (write o' book)
write-IsBook o o' book h found side bid ask user r = record {
  dict = insert-IsDict o'.id o' book.orders h.dict;
  resting = All-insert _ o'.id o' book.orders h.resting r;
  bids =
      IsSide-insert_same bid_key (λ o. refl) buy book.orders o o' book.bids found side bid h.bids;
  asks =
      IsSide-insert_same ask_key (λ o. refl) sell book.orders o o' book.asks found side ask h.asks;
  uncrossed = Uncrossed-insert o' book.orders h.uncrossed (
      held-Apart o'.id o o' book.orders h.uncrossed found side (ap (λ (k : Key). k.rank) ask) user);
}

unlist_order-same :
    (o o' : Order) (side : OrderSide) (book : OrderBook)
    → bid_key o' ≡ bid_key o
    → ask_key o' ≡ ask_key o
    → unlist_order o' side book ≡ unlist_order o side book
unfolding unlist_order
unlist_order-same o o' buy book bid ask =
    ap (λ (k : Key). record book { bids = sorted_discard k book.bids }) bid
unlist_order-same o o' sell book bid ask =
    ap (λ (k : Key). record book { asks = sorted_discard k book.asks }) ask

-- The removal of an order does not depend on a new value that was written for it before.
pub remove-write :
    (o o' : Order) (book : OrderBook)
    → IsDict book.orders
    → lookup o'.id book.orders ≡ some o
    → o'.side ≡ o.side
    → bid_key o' ≡ bid_key o
    → ask_key o' ≡ ask_key o
    → (remove o'.id (write o' book)).1 ≡ (remove o'.id book).1
remove-write o o' book d found side bid ask =
    ap (λ (p : Option Order × OrderBook). p.1)
      (remove_eq o'.id o' (write o' book) (lookup-insert_self o'.id o' book.orders))
    ∙ ap (λ (d : Dict Order). unlist_order o' o'.side (record book { orders = d }))
        (erase-insert o'.id o' book.orders d)
    ∙ ap (λ (s : OrderSide). unlist_order o' s (record book { orders = erase o'.id book.orders }))
        side
    ∙ unlist_order-same o o' o.side (record book { orders = erase o'.id book.orders }) bid ask
    ∙ ap (λ (p : Option Order × OrderBook). p.1) (sym (remove_eq o'.id o book found))
