-- ===== src/Matching/Engine/Filling.antt =====
-- What `resting.fill(qty)` and the removal of a filled order do to the book.
use lumendark.Common.{
  ℤ, ℕ, ◌≡◌, ◌≢◌, refl, ◌∙◌, true, false, some, arith, pos, eqb_ℤ, ◌≤ℤ◌, ◌-ℤ◌, ◌+ℤ◌, int_laws,
  Bool-cases, inl, inr, Decimal, eq_of_parts,
}
use lumendark.Common.Dict.{lookup, lookup-insert_ne, lookup-erase_ne}
use lumendark.Common.Dict.Sum.{All-lookup, sum-insert, sum-erase}
use lumendark.Models.Order.{Order, Asset, fill, remaining_quantity, is_active}
use lumendark.Models.Order.Laws.{remaining_quantity-fill}
use lumendark.Storage.OrderBook.{OrderBook, write, remove}
use lumendark.Storage.OrderBook.Invariant.{IsResting, IsBook}
use lumendark.Storage.OrderBook.Changes.{orders-remove, remove-IsBook, write-IsBook, remove-write}
use lumendark.Storage.OrderBook.Locked.{lock, locked, lock_zero}
use lumendark.Matching.Engine.{fill_resting}

lock-fill_done :
    (q : Decimal) (r : Order)
    → eqb_ℤ (remaining_quantity (fill q r)) (pos 0) ≡ true
    → (v : ℕ) (y : Asset) → lock (fill q r) v y ≡ pos 0
lock-fill_done q r e v y = lock_zero (fill q r) (eq_of_parts _ _ (ground arith)) v y

nonzero : (x : ℤ) → pos 0 ≤ℤ x → eqb_ℤ x (pos 0) ≡ false → pos 1 ≤ℤ x
nonzero x h e = ground arith

-- An order that is filled in part may rest on.
IsResting-fill :
    {next : ℕ} (q : Decimal) (r : Order)
    → IsResting next r.id r
    → q ≤ℤ remaining_quantity r
    → eqb_ℤ (remaining_quantity (fill q r)) (pos 0) ≡ false
    → IsResting next r.id (fill q r)
unfolding fill is_active
IsResting-fill q r h fits e = record {
  own_id = refl;
  issued = h.issued;
  priced = h.priced;
  remains =
      nonzero (remaining_quantity (fill q r)) (rw remaining_quantity-fill (omega (int_laws, fits)))
        e;
  active = rw e refl;
}

module _ {next : ℕ} (q : Decimal) (r : Order) (book : OrderBook) (h : IsBook next book)
    (found : lookup r.id book.orders ≡ some r) where
  pub fill_resting_rest :
      eqb_ℤ (remaining_quantity (fill q r)) (pos 0) ≡ false
      → fill_resting q r book ≡ write (fill q r) book
  unfolding fill_resting
  fill_resting_rest e = rw e

  fill_resting-remove :
      eqb_ℤ (remaining_quantity (fill q r)) (pos 0) ≡ true
      → fill_resting q r book ≡ (remove r.id (write (fill q r) book)).1
  unfolding fill_resting
  fill_resting-remove e = rw e

  remove-write-fill : (remove r.id (write (fill q r) book)).1 ≡ (remove r.id book).1
  unfolding fill
  remove-write-fill = remove-write r (fill q r) book h.dict found refl refl refl

  -- A filled order leaves the book as if it had been removed at once.
  pub fill_resting_done :
      eqb_ℤ (remaining_quantity (fill q r)) (pos 0) ≡ true
      → fill_resting q r book ≡ (remove r.id book).1
  fill_resting_done e = fill_resting-remove e ∙ remove-write-fill

  -- On a book in order, a fill of a resting order of the book by at most what remains of it, with
  -- the removal once nothing remains, leaves a book in order.
  pub fill_resting-IsBook : q ≤ℤ remaining_quantity r → IsBook next (fill_resting q r book)
  fill_resting-IsBook fits = elim (Bool-cases (eqb_ℤ (remaining_quantity (fill q r)) (pos 0))) [
    | inl done ↦ rw (fill_resting_done done) (remove-IsBook r.id book h)
    | inr rest ↦ rw (fill_resting_rest rest) (
        unfold fill in
        write-IsBook r (fill q r) book h found refl refl refl refl
          (IsResting-fill q r (All-lookup _ r.id r book.orders h.resting found) fits rest))
  ]

  -- No other order changes.
  pub lookup-fill_resting_ne :
      (j : ℕ) → j ≢ r.id → lookup j (fill_resting q r book).orders ≡ lookup j book.orders
  lookup-fill_resting_ne j ne = elim (Bool-cases (eqb_ℤ (remaining_quantity (fill q r)) (pos 0))) [
    | inl done ↦
        rw (fill_resting_done done, orders-remove r.id r book found)
          (lookup-erase_ne j r.id book.orders ne)
    | inr rest ↦
        rw (fill_resting_rest rest) (unfold fill in lookup-insert_ne j r.id _ book.orders ne)
  ]

  -- On a book in order, a fill of a resting order of the book changes what the open orders lock,
  -- for each user and asset, from what the order locked to what the filled order locks, whether
  -- the order stays or is removed.
  pub locked-fill_resting :
      (v : ℕ) (y : Asset)
      → locked (fill_resting q r book) v y ≡ locked book v y -ℤ lock r v y +ℤ lock (fill q r) v y
  locked-fill_resting v y = elim (Bool-cases (eqb_ℤ (remaining_quantity (fill q r)) (pos 0))) [
    | inl done ↦
        rw
          (
            fill_resting_done done,
            orders-remove r.id r book found,
            sum-erase (λ o. lock o v y) r.id book.orders,
            found,
            lock-fill_done q r done v y,
          )
          (omega int_laws)
    | inr rest ↦
        rw (fill_resting_rest rest)
          (unfold fill in (sum-insert (λ o. lock o v y) r.id (fill q r) book.orders ∙ rw found))
  ]
