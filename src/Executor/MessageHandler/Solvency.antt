-- ===== src/Executor/MessageHandler/Solvency.antt =====
-- The handler's invariant, and how its calls act on a state.
use lumendark.Common.{Runs, bind_ok, Action, ◌>>=◌}
use lumendark.Storage.UserStore.{UserStore}
use lumendark.Storage.UserStore.Cover.{Covers}
use lumendark.Storage.OrderBook.{OrderBook}
use lumendark.Storage.OrderBook.Invariant.{IsBook}
use lumendark.Storage.OrderBook.Locked.{locked}
use lumendark.Executor.MessageHandler.{State, M, on_users, on_book}

-- The book is in order, no balance is negative, and each user's liabilities are at least what the
-- user's open orders lock.
pub record IsSolvent (s : State) : Type 0 where
  pub book : IsBook s.next s.book
  pub covers : Covers s.users (locked s.book)

pub Runs-on_users :
    {A B : Type 0} (m : Action UserStore A) (k : A → M B) (s : State) {P : A → UserStore → Type 0}
    {Q : B → State → Type 0}
    → Runs m s.users P
    → ((a : A) (users : UserStore) → P a users → Runs (k a) (record s { users = users }) Q)
    → Runs (on_users m >>= k) s Q
Runs-on_users m k s h next =
    let e = bind_ok (on_users m) k s h.value h.returns in
    let r = next h.value (m s.users).1 h.holds in
    record { value = r.value; returns = rw e r.returns; holds = rw e r.holds }

pub Runs-on_book :
    {A B : Type 0} (m : Action OrderBook A) (k : A → M B) (s : State) {P : A → OrderBook → Type 0}
    {Q : B → State → Type 0}
    → Runs m s.book P
    → ((a : A) (book : OrderBook) → P a book → Runs (k a) (record s { book = book }) Q)
    → Runs (on_book m >>= k) s Q
Runs-on_book m k s h next =
    let e = bind_ok (on_book m) k s h.value h.returns in
    let r = next h.value (m s.book).1 h.holds in
    record { value = r.value; returns = rw e r.returns; holds = rw e r.holds }
