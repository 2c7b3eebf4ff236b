-- ===== src/Executor/ActionHandler/Nonces.antt =====
-- The nonces that accepted actions carry.
use lumendark.Common.{
  ℕ, zero, suc, ◌+◌, ◌≡◌, refl, ap, sym, ◌∙◌, Option, none, some, List, [], ◌∷◌, ◌++◌, arith,
}
use lumendark.Models.Message.{ChainAction, MessageStatus, accepted}
use lumendark.Executor.ActionHandler.{Submit, Handler, process_action, conclude, start}

-- A submitter that also writes down the nonce of each call that did not raise.
abbrev pub note_nonce : {S : Type 0} → ℕ → List ℕ → Option ℕ × S → Option ℕ × (S × List ℕ)
note_nonce nonce log (some tx, t) = (some tx, (t, log ++ nonce ∷ []))
note_nonce nonce log (none, t) = (none, (t, log))

abbrev pub recording : {S : Type 0} → Submit S → Submit (S × List ℕ)
recording submit nonce payload (t, log) = note_nonce nonce log (submit nonce payload t)

-- The `k` numbers from `n` on.
unfoldable pub numbers_from : ℕ → ℕ → List ℕ
numbers_from n zero = []
numbers_from n (suc k) = n ∷ numbers_from (suc n) k

abbrev count_status : MessageStatus → ℕ → ℕ
count_status accepted k = suc k
count_status _ k = k

unfoldable pub count_accepted : List ChainAction → ℕ
count_accepted [] = 0
count_accepted (action ∷ actions) = count_status action.status (count_accepted actions)

-- How a handler went on from `n` to a list of results.
pub record Advanced {S : Type 0} (n : ℕ) (log : List ℕ)
    (result : List ChainAction × Handler (S × List ℕ)) : Type 0 where
  pub nonce : result.1.nonce ≡ count_accepted result.0 + n
  pub logged : result.1.submitter.1 ≡ log ++ numbers_from n (count_accepted result.0)

append_nil : (xs : List ℕ) → xs ++ [] ≡ xs
append_nil [] = refl
append_nil (x ∷ xs) = ap (λ ys. x ∷ ys) (append_nil xs)

append_one : (xs : List ℕ) (y : ℕ) (ys : List ℕ) → (xs ++ y ∷ []) ++ ys ≡ xs ++ y ∷ ys
append_one [] y ys = refl
append_one (x ∷ xs) y ys = ap (λ zs. x ∷ zs) (append_one xs y ys)

module _ {S : Type 0} (submit : Submit S) where
  abbrev started : List ChainAction → ℕ → S → List ℕ → List ChainAction × Handler (S × List ℕ)
  started queue n t log =
      start (recording submit) queue (record { nonce = n; submitter = (t, log) })

  extend :
      (action : ChainAction) (queue : List ChainAction) (n : ℕ) (log : List ℕ)
      (outcome : Option ℕ × S)
      → ((m : ℕ) (t : S) (l : List ℕ) → Advanced m l (started queue m t l))
      → Advanced n log (
          let (done, h1) = conclude (recording submit) action n (note_nonce n log outcome) in
          let (rest, h2) = start (recording submit) queue h1 in (done ∷ rest, h2))
  unfolding count_accepted numbers_from
  extend action queue n log (none, t) next =
      let a = next n t log in record { nonce = a.nonce; logged = a.logged }
  extend action queue n log (some tx, t) next =
      let a = next (suc n) t (log ++ n ∷ []) in
      record { nonce = omega (arith, a.nonce); logged = a.logged ∙ append_one log n _ }

  start-Advanced :
      (queue : List ChainAction) (n : ℕ) (t : S) (log : List ℕ)
      → Advanced n log (started queue n t log)
  unfolding start process_action count_accepted numbers_from
  start-Advanced [] n t log = record { nonce = omega arith; logged = sym (append_nil log) }
  start-Advanced (action ∷ queue) n t log =
      extend action queue n log (submit n action.payload t) (start-Advanced queue)

-- Whatever the submitter answers, the calls that it accepts carry consecutive nonces from the
-- handler's first one on, in the order of the queue, one for each action that is accepted, and
-- the handler's nonce is then the next one.
pub start-consecutive :
    {S : Type 0} (submit : Submit S) (queue : List ChainAction) (n : ℕ) (t : S)
    → (let (results, h) =
          start (recording submit) queue (record { nonce = n; submitter = (t, []) }) in
        (h.submitter.1 ≡ numbers_from n (count_accepted results))
        × (h.nonce ≡ count_accepted results + n))
start-consecutive submit queue n t =
    let a = start-Advanced submit queue n t [] in (a.logged, a.nonce)
