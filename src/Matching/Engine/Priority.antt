-- ===== src/Matching/Engine/Priority.antt =====
-- The loop serves its orders in their order: while one can still trade, no later one has.
use lumendark.Common.{
  ℕ, ◌≡◌, ◌≢◌, refl, sym, ap, subst, ◌∙◌, none, List, [], ◌∷◌, ◌++◌, arith, ◌==◌, ◌⊎◌, inl, inr,
  pos, leb_ℤ, Bool-cases, Each, Distinct, eq→==, ==→eq,
}
use lumendark.Common.Dict.{lookup}
use lumendark.Models.Order.{Order, OrderSide, buy, sell, remaining_quantity}
use lumendark.Models.Trade.{Trade}
use lumendark.Models.Trade
use lumendark.Storage.OrderBook.Precedence.{Has, Precedes}
use lumendark.Storage.UserStore.Cover.{Demand}
use lumendark.Matching.Engine.{Run, execute, match_loop, trade_quantity, buy_trade, sell_trade}
use lumendark.Matching.Engine.Owed.{taker_trade}
use lumendark.Matching.Engine.Loop.{
  IsRun, IsCandidate, execute-IsRun, match_loop_stop, match_loop_self, match_loop_next,
}
use lumendark.Matching.Engine.Exhaustion.{
  after_exchange, gone_stays, match_loop_done, filled_gone, incoming_done,
}

-- The resting order of a trade.
abbrev pub maker_order : OrderSide → Trade → ℕ
maker_order buy t = t.sell_order_id
maker_order sell t = t.buy_order_id

-- The order with that id has traded as a resting order.
abbrev pub Traded : OrderSide → ℕ → List Trade → Type 0
Traded side id [] = ⊥
Traded side id (t ∷ ts) = (maker_order side t ≡ id) ⊎ Traded side id ts

Has-Precedes : (p : Order) (id : ℕ) (rest : List Order) → Precedes p id rest → Has id rest
Has-Precedes p id [] h = elim h [ ]
Has-Precedes p id (r ∷ rest) (inl h) = inr h.1
Has-Precedes p id (r ∷ rest) (inr h) = inr (Has-Precedes p id rest h)

Has-Distinct : (id k : ℕ) (rest : List Order) → Has id rest → Each (λ o. o.id ≢ k) rest → k ≢ id
Has-Distinct id k [] h d e = elim h [ ]
Has-Distinct id k (r ∷ rest) (inl h) d e = d.0 (h ∙ sym e)
Has-Distinct id k (r ∷ rest) (inr h) d e = Has-Distinct id k rest h d.1 e

Traded-append :
    (side : OrderSide) (id : ℕ) (ts : List Trade) (t : Trade)
    → Traded side id (ts ++ t ∷ [])
    → Traded side id ts ⊎ (maker_order side t ≡ id)
Traded-append side id [] t (inl e) = inr e
Traded-append side id [] t (inr h) = elim h [ ]
Traded-append side id (u ∷ ts) t (inl e) = inl (inl e)
Traded-append side id (u ∷ ts) t (inr h) = elim (Traded-append side id ts t h) [
  | inl earlier ↦ inl (inr earlier)
  | inr now ↦ inr now
]

module _ (side : OrderSide) (now next : ℕ) (order : Order) (bound : Demand) where
  abbrev loop : Run → List Order → Run
  loop s rest = match_loop (taker_trade side now) s rest

  abbrev served : Run → Order → Run
  served s r = execute (taker_trade side now) s r

  maker-taker_trade :
      (side : OrderSide) (uuid : ℕ) (incoming r : Order)
      → maker_order side (taker_trade side now uuid incoming r (trade_quantity incoming r)) ≡ r.id
  unfolding buy_trade sell_trade Trade.create
  maker-taker_trade buy uuid incoming r = refl
  maker-taker_trade sell uuid incoming r = refl

  -- An exchange adds a trade of its resting order.
  Traded-served :
      (s : Run) (r : Order) (id : ℕ)
      → Traded side id (served s r).trades
      → Traded side id s.trades ⊎ (r.id ≡ id)
  unfolding execute
  Traded-served s r id h = elim (Traded-append side id s.trades _ h) [
    | inl earlier ↦ inl earlier
    | inr e ↦ inr (sym (maker-taker_trade side s.next s.incoming r) ∙ e)
  ]

  -- Only orders of the loop trade.
  pub Has-Traded :
      (rest : List Order) (s : Run) (id : ℕ)
      → Traded side id (loop s rest).trades
      → Traded side id s.trades ⊎ Has id rest
  Has-Traded [] s id h = inl (unfold match_loop in h)
  Has-Traded (r ∷ rest) s id h = elim (Bool-cases (leb_ℤ (remaining_quantity s.incoming) (pos 0))) [
    | inl stop ↦ inl (
        subst (λ (w : Run). Traded side id w.trades)
          (match_loop_stop (taker_trade side now) s r rest stop) h)
    | inr more ↦ elim (Bool-cases (r.user_address == s.incoming.user_address)) [
      | inl self ↦ behind r rest s.trades id (
          Has-Traded rest s id (
            subst (λ (w : Run). Traded side id w.trades)
              (match_loop_self (taker_trade side now) s r rest more self) h))
      | inr stranger ↦
          elim (Has-Traded rest (served s r) id (
            subst (λ (w : Run). Traded side id w.trades)
              (match_loop_next (taker_trade side now) s r rest more stranger) h)) [
                | inl before ↦ elim (Traded-served s r id before) [
                  | inl earlier ↦ inl earlier
                  | inr here ↦ inr (inl here)
                ]
                | inr later ↦ inr (inr later)
              ]
    ]
  ]
    where
      behind :
          (r : Order) (rest : List Order) (ts : List Trade) (id : ℕ)
          → Traded side id ts ⊎ Has id rest
          → Traded side id ts ⊎ Has id (r ∷ rest)
      behind r rest ts id (inl h) = inl h
      behind r rest ts id (inr h) = inr (inr h)

  -- Where a later order has traded, an earlier one of another user is gone.
  pub match_loop-priority :
      (rest : List Order) (s : Run) (p : Order) (id : ℕ)
      → IsRun side next order bound s
      → Each (IsCandidate side order.price s.book) rest
      → Distinct (λ o. o.id) rest
      → p.user_address ≢ order.user_address
      → (Traded side id s.trades → ⊥)
      → Precedes p id rest
      → Traded side id (loop s rest).trades
      → lookup p.id (loop s rest).book.orders ≡ none
  match_loop-priority [] s p id h cs d other fresh before traded = elim before [ ]
  match_loop-priority (r ∷ rest) s p id h cs d other fresh before traded =
      elim (Bool-cases (leb_ℤ (remaining_quantity s.incoming) (pos 0))) [
        | inl stop ↦ absurd (
            fresh (
              subst (λ (w : Run). Traded side id w.trades)
                (match_loop_stop (taker_trade side now) s r rest stop) traded))
        | inr more ↦ elim (Bool-cases (r.user_address == s.incoming.user_address)) [
          | inl self ↦
              let e = match_loop_self (taker_trade side now) s r rest more self in
              elim before [
                | inl here ↦ absurd (
                    other (
                      ap (λ (o : Order). o.user_address) (sym here.0)
                      ∙ ==→eq _ _ self
                      ∙ h.user_kept))
                | inr later ↦ rw e (
                    match_loop-priority rest s p id h cs.1 d.1 other fresh later
                      (subst (λ (w : Run). Traded side id w.trades) e traded))
              ]
          | inr stranger ↦
              let e = match_loop_next (taker_trade side now) s r rest more stranger in
              let traded' = subst (λ (w : Run). Traded side id w.trades) e traded in
              let has : Has id rest = elim before [
                | inl here ↦ here.1
                | inr later ↦ Has-Precedes p id rest later
              ] in
              let fresh' : Traded side id (served s r).trades → ⊥ = λ t.
                elim (Traded-served s r id t) [
                  | inl earlier ↦ fresh earlier
                  | inr same ↦ Has-Distinct id r.id rest has d.0 same
                ] in
              let h' = execute-IsRun side now next order bound s r h cs.0 (ground arith) (λ u.
                cc
                  (stranger, eq→== r.user_address s.incoming.user_address (u ∙ sym h.user_kept))) in
              let cs' = after_exchange side now next order bound s r rest h cs.0 cs.1 d.0 in
              rw e (elim before [
                | inr later ↦
                    match_loop-priority rest (served s r) p id h' cs' d.1 other fresh' later traded'
                | inl here ↦
                    elim (Bool-cases
                      (leb_ℤ (remaining_quantity s.incoming) (remaining_quantity r))) [
                        | inl le ↦ absurd (
                            fresh' (
                              subst (λ (w : Run). Traded side id w.trades)
                                (match_loop_done side now next order bound (served s r) rest
                                  (incoming_done side now next order bound s r le))
                                traded'))
                        | inr less ↦
                            gone_stays side now next order bound rest (served s r) p.id h' cs' d.1 (
                              subst (λ (o : Order). lookup o.id (served s r).book.orders ≡ none)
                                here.0 (filled_gone side now next order bound s r h cs.0 less))
                      ]
              ])
        ]
      ]
