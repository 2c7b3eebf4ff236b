-- ===== src/Executor/MessageHandler/Finishing.antt =====
-- The end of `_process_order`: what remains of the order, and the message.
use lumendark.Common.{
  ℕ, ◌≡◌, refl, sym, ap, subst, ◌∙◌, none, some, List, ◌++◌, map, arith, ℤ, pos, ◌+ℤ◌, ◌≤ℤ◌, ltb_ℤ,
  minus_zero, int_laws, Runs, Runs-bind, Runs-map, ◌>>◌, ◌<◌, modify, length, Bool-cases, inl, inr,
}
use lumendark.Common.Dict.{lookup, insert}
use lumendark.Common.Dict.Sum.{sum, sum-insert}
use lumendark.Models.Order.{Asset, Order, OrderSide, remaining_quantity}
use lumendark.Models.Message
use lumendark.Models.Message.{accepted}
use lumendark.Models.Trade.{Trade}
use lumendark.Storage.UserStore.{UserStore}
use lumendark.Storage.UserStore.Holdings.{supply}
use lumendark.Storage.UserStore.Cover.{Demand, Covers, Covers-le}
use lumendark.Storage.OrderBook
use lumendark.Storage.OrderBook.{OrderBook}
use lumendark.Storage.OrderBook.Invariant.{IsBook, IsResting, Apart, IsBook-mono, lookup_unissued}
use lumendark.Storage.OrderBook.Changes.{add-IsBook, orders-add}
use lumendark.Storage.OrderBook.Locked.{lock, locked, lock_nonneg, locked_in_nonneg}
use lumendark.Matching.Engine.{Run, remaining_order}
use lumendark.Matching.Engine.Loop.{IsRun}
use lumendark.Executor.MessageHandler.{State, note_result, finish_order, add_remaining}
use lumendark.Executor.MessageHandler.Chain.{payloads, Steps}
use lumendark.Storage.UserStore.Totals.{totals}
use lumendark.Executor.MessageHandler.Settling.{settlement_of}
use lumendark.Executor.MessageHandler.Trades.{process_trades-Runs}
use lumendark.Executor.MessageHandler.Solvency.{IsSolvent, Runs-on_book}

-- A state that differs from `s` in the book and the message at most.
abbrev SameFunds : State → State → Type 0
SameFunds s s' = (s'.users ≡ s.users) × (s'.actions ≡ s.actions) × (s'.now ≡ s.now)

pub locked-insert :
    (o : Order) (book book' : OrderBook)
    → lookup o.id book.orders ≡ none
    → book'.orders ≡ insert o.id o book.orders
    → (v : ℕ) (y : Asset) → locked book' v y ≡ locked book v y +ℤ lock o v y
locked-insert o book book' new e v y =
    ap (λ d. sum (λ w. lock w v y) d) e
    ∙ sum-insert (λ w. lock w v y) o.id o book.orders
    ∙ rw new (ap (λ (l : ℤ). l +ℤ lock o v y) (minus_zero (locked book v y)))

module _ (s : State) (r : Run) (h : IsBook s.next s.book)
    (c : Covers s.users (λ v y. locked s.book v y +ℤ lock r.incoming v y)) where
  -- What remains of the order is added, and the liabilities cover the open orders again.
  pub add_remaining-Runs :
      pos 0 ≤ℤ remaining_quantity r.incoming
      → pos 1 ≤ℤ r.incoming.price
      → (pos 1 ≤ℤ remaining_quantity r.incoming → IsResting s.next r.incoming.id r.incoming)
      → lookup r.incoming.id s.book.orders ≡ none
      → (pos 1 ≤ℤ remaining_quantity r.incoming → Apart r.incoming s.book.orders)
      → Runs (add_remaining (remaining_order r)) s (λ _ s'. IsSolvent s' × SameFunds s s')
  unfolding add_remaining remaining_order
  add_remaining-Runs left priced rest new apart =
      elim (Bool-cases (ltb_ℤ (pos 0) (remaining_quantity r.incoming))) [
        | inl more ↦ rw more (
            let p =
              add-IsBook r.incoming s.book h new (rest (ground arith)) (apart (ground arith)) in
            Runs-on_book (OrderBook.add r.incoming)
              (λ _. modify (λ (w : State). record w {
                message = record w.message { order_id = some r.incoming.id };
              }))
              s
              {P = λ _ book.
                IsBook s.next book × (book.orders ≡ insert r.incoming.id r.incoming s.book.orders)}
              (record {
                value = tt;
                returns = p.0;
                holds = (p.1, orders-add r.incoming s.book new);
              })
              λ _ book q. record {
                value = tt;
                returns = refl;
                holds = (
                  record {
                    book = q.0;
                    covers =
                        Covers-le
                          (λ v y.
                            rw (locked-insert r.incoming s.book book new q.1 v y) (omega arith))
                          c;
                  },
                  (refl, refl, refl),
                );
              })
        | inr done ↦ rw done (record {
          value = tt;
          returns = refl;
          holds = (
            record {
              book = h;
              covers =
                  Covers-le
                    (λ v y.
                      omega (int_laws, lock_nonneg r.incoming (omega (arith, priced)) left v y))
                    c;
            },
            (refl, refl, refl),
          );
        })
      ]

-- After the order: the state is solvent, the supplies are kept, the message is accepted with the count
-- of trades, and the trades are queued for settlement in their order.
pub record Placed (s : State) (ts : List Trade) (s' : State) : Type 0 where
  pub solvent : IsSolvent s'
  pub supplies : (y : Asset) → supply s'.users y ≡ supply s.users y
  pub steps : Steps (totals s.users) (map settlement_of ts) (totals s'.users)
  pub queued : payloads s'.actions ≡ payloads s.actions ++ map settlement_of ts
  pub status : s'.message.status ≡ accepted
  pub count : s'.message.trades_count ≡ length ts

abbrev noted : State → Run → State
noted s r = record s {
  message = Message.accept s.now (record s.message { trades_count = length r.trades });
}

note_result-Runs : (s : State) (r : Run) → Runs (note_result r) s (λ _ s'. s' ≡ noted s r)
unfolding note_result
note_result-Runs s r = record { value = tt; returns = refl; holds = refl }

-- The end of `_process_order`, for the variables of the loop that `IsRun` describes.
pub finish_order-Runs :
    (s : State) (side : OrderSide) (n : ℕ) (order : Order) (bound : Demand) (r : Run)
    → IsRun side n order bound r
    → pos 1 ≤ℤ order.price
    → order.id ≡ n
    → s.book ≡ r.book
    → n < s.next
    → Covers s.users bound
    → (pos 1 ≤ℤ remaining_quantity r.incoming → Apart r.incoming r.book.orders)
    → Runs (finish_order side r) s (λ _ s'. Placed s r.trades s')
unfolding finish_order
finish_order-Runs s side n order bound r h priced own book issued c apart =
    let limit : pos 1 ≤ℤ r.incoming.price = rw h.price_kept priced in
    Runs-bind {f = λ _. add_remaining (remaining_order r) >> note_result r}
      (process_trades-Runs r.trades s side (λ v y. locked r.book v y +ℤ lock r.incoming v y)
        order.price order.user_address h.trades
        (λ v y. omega (
          int_laws,
          locked_in_nonneg n r.book.orders h.book.resting v y,
          lock_nonneg r.incoming (omega (arith, limit)) h.left v y,
        ))
        (Covers-le (λ v y. omega (int_laws, h.owed v y)) c))
      λ _ s1 t.
        let b1 : s1.book ≡ r.book = t.book ∙ book in
        Runs-bind {f = λ _. note_result r}
          (add_remaining-Runs s1 r
            (subst (IsBook s1.next) (sym b1) (IsBook-mono (omega (arith, t.next)) h.book))
            (subst (λ (b : OrderBook). Covers s1.users (λ v y. locked b v y +ℤ lock r.incoming v y))
              (sym b1) t.covers)
            h.left limit
            (λ more. record {
              own_id = refl;
              issued = omega (arith, t.next, h.id_kept ∙ own);
              priced = limit;
              remains = more;
              active = h.active more;
            })
            (ap (λ (b : OrderBook). lookup r.incoming.id b.orders) b1
              ∙ ap (λ (i : ℕ). lookup i r.book.orders) (h.id_kept ∙ own)
              ∙ lookup_unissued h.book)
            (λ more. subst (λ (b : OrderBook). Apart r.incoming b.orders) (sym b1) (apart more)))
          λ _ s2 q. Runs-map (note_result-Runs s2 r) λ _ s3 e. record {
            solvent = subst IsSolvent (sym e) (record { book = q.0.book; covers = q.0.covers });
            supplies = λ y.
                ap (λ (w : State). supply w.users y) e
                ∙ ap (λ (u : UserStore). supply u y) q.1.0
                ∙ t.supplies y;
            steps =
                subst (Steps (totals s.users) (map settlement_of r.trades))
                  (sym (ap (λ (w : State). totals w.users) e ∙ ap totals q.1.0)) t.steps;
            queued = ap (λ (w : State). payloads w.actions) e ∙ ap payloads q.1.1 ∙ t.queued;
            status = ap (λ (w : State). w.message.status) e;
            count = ap (λ (w : State). w.message.trades_count) e;
          }
