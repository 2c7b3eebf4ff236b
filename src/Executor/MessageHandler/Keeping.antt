-- ===== src/Executor/MessageHandler/Keeping.antt =====
-- Steps of the message handler that keep the message's identity: the primitives and their composition.
use lumendark.Common.{
  ℕ, ◌≡◌, refl, sym, ap, ◌∙◌, ◌⊎◌, inl, inr, true, false, Bool, some, if◌then◌else◌, Result, Action,
  ok, err, Error, pure, gets, modify, raise, ◌>>=◌, bind_ok,
}
use lumendark.Models.Order.{Order}
use lumendark.Models.Message.{
  Message, Value, nan, finite, compared, Reason, ActionPayload, processing,
}
use lumendark.Storage.UserStore.{UserStore}
use lumendark.Storage.OrderBook.{OrderBook}
use lumendark.Executor.MessageHandler.{
  State, M, on_users, ask_users, on_book, accept, reject, uuid4, put_action, run_match,
}

-- The same message at the same reading of the clock, with that time on it once it is decided.
pub record Same (s0 s : State) : Type 0 where
  pub id : s.message.id ≡ s0.message.id
  pub user_address : s.message.user_address ≡ s0.message.user_address
  pub payload : s.message.payload ≡ s0.message.payload
  pub created_at : s.message.created_at ≡ s0.message.created_at
  pub now : s.now ≡ s0.now
  pub stamped : (s.message.status ≡ processing) ⊎ (s.message.processed_at ≡ some s.now)

pub record Keeps {A : Type 0} (m : M A) : Type 0 where
  pub keeps : (s0 s : State) → Same s0 s → Same s0 (m s).1

Result-cases : {A : Type 0} (r : Result A) → ((a : A) × (r ≡ ok a)) ⊎ ((e : Error) × (r ≡ err e))
Result-cases (ok a) = inl (a, refl)
Result-cases (err e) = inr (e, refl)

bind_err :
    {A B : Type 0} (m : M A) (f : A → M B) (s : State) (e : Error)
    → (m s).0 ≡ err e
    → (m >>= f) s ≡ raise e (m s).1
bind_err m f s e h = rw (◌>>=◌, h)

pub Keeps-bind :
    {A B : Type 0} (m : M A) (f : A → M B) → Keeps m → ((a : A) → Keeps (f a)) → Keeps (m >>= f)
Keeps-bind m f hm hf = record {
  keeps = λ s0 s h. elim (Result-cases (m s).0) [
    | inl (a, returns) ↦ rw (bind_ok m f s a returns) ((hf a).keeps s0 (m s).1 (hm.keeps s0 s h))
    | inr (e, raises) ↦ rw (bind_err m f s e raises) (hm.keeps s0 s h)
  ];
}

pub Keeps-if : {A : Type 0} (b : Bool) (m n : M A) → Keeps m → Keeps n → Keeps (if b then m else n)
Keeps-if true m n hm hn = hm
Keeps-if false m n hm hn = hn

-- A step that leaves the message and the clock as they were.
pub Keeps-aside :
    {A : Type 0} (m : M A)
    → ((s : State) → ((m s).1.message ≡ s.message) × ((m s).1.now ≡ s.now))
    → Keeps m
Keeps-aside m aside = record {
  keeps = λ s0 s h.
      let a = aside s in
      record {
        id = ap (λ (x : Message). x.id) a.0 ∙ h.id;
        user_address = ap (λ (x : Message). x.user_address) a.0 ∙ h.user_address;
        payload = ap (λ (x : Message). x.payload) a.0 ∙ h.payload;
        created_at = ap (λ (x : Message). x.created_at) a.0 ∙ h.created_at;
        now = a.1 ∙ h.now;
        stamped = elim h.stamped [
          | inl going ↦ inl (ap (λ (x : Message). x.status) a.0 ∙ going)
          | inr done ↦
              inr
                (ap (λ (x : Message). x.processed_at) a.0 ∙ done ∙ ap (λ (t : ℕ). some t) (sym a.1))
        ];
      };
}

pub Keeps-accept : Keeps accept
Keeps-accept = record {
  keeps = λ s0 s h. record {
    id = h.id;
    user_address = h.user_address;
    payload = h.payload;
    created_at = h.created_at;
    now = h.now;
    stamped = inr refl;
  };
}

pub Keeps-reject : (reason : Reason) → Keeps (reject reason)
Keeps-reject reason = record {
  keeps = λ s0 s h. record {
    id = h.id;
    user_address = h.user_address;
    payload = h.payload;
    created_at = h.created_at;
    now = h.now;
    stamped = inr refl;
  };
}

pub Keeps-put_action : (payload : ActionPayload) → Keeps (put_action payload)
unfolding put_action
Keeps-put_action payload = Keeps-aside _ (λ s. (refl, refl))

pub Keeps-on_users : {A : Type 0} (m : Action UserStore A) → Keeps (on_users m)
Keeps-on_users m = Keeps-aside _ (λ s. (refl, refl))

pub Keeps-on_book : {A : Type 0} (m : Action OrderBook A) → Keeps (on_book m)
Keeps-on_book m = Keeps-aside _ (λ s. (refl, refl))

pub Keeps-ask_users : {A : Type 0} (read : UserStore → Result A) → Keeps (ask_users read)
Keeps-ask_users read = Keeps-aside _ (λ s. (refl, refl))

pub Keeps-gets : {A : Type 0} (f : State → A) → Keeps (gets f)
Keeps-gets f = Keeps-aside _ (λ s. (refl, refl))

pub Keeps-compared : (v : Value) → Keeps (compared v)
Keeps-compared nan = Keeps-aside _ (λ s. (refl, refl))
Keeps-compared (finite d) = Keeps-aside _ (λ s. (refl, refl))

pub Keeps-order_id :
    (id : ℕ)
    → Keeps (modify (λ (s : State). record s { message = record s.message { order_id = some id } }))
Keeps-order_id id = record {
  keeps = λ s0 s h. record {
    id = h.id;
    user_address = h.user_address;
    payload = h.payload;
    created_at = h.created_at;
    now = h.now;
    stamped = h.stamped;
  };
}

pub Keeps-trades_count :
    (n : ℕ)
    → Keeps (modify (λ (s : State). record s { message = record s.message { trades_count = n } }))
Keeps-trades_count n = record {
  keeps = λ s0 s h. record {
    id = h.id;
    user_address = h.user_address;
    payload = h.payload;
    created_at = h.created_at;
    now = h.now;
    stamped = h.stamped;
  };
}

pub Keeps-uuid4 : Keeps uuid4
Keeps-uuid4 = Keeps-aside _ (λ s. (refl, refl))

pub Keeps-pure : Keeps (pure tt)
Keeps-pure = Keeps-aside _ (λ s. (refl, refl))

pub Keeps-run_match : (o : Order) → Keeps (run_match o)
unfolding run_match
Keeps-run_match o = Keeps-aside _ (λ s. (refl, refl))

pub ruleset keeping = (
  Keeps-bind, Keeps-if, Keeps-accept, Keeps-reject, Keeps-put_action, Keeps-on_users, Keeps-on_book,
  Keeps-ask_users, Keeps-gets, Keeps-compared, Keeps-order_id, Keeps-trades_count, Keeps-uuid4,
  Keeps-pure, Keeps-run_match,
)
