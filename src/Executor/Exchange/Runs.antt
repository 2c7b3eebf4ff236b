-- ===== src/Executor/Exchange/Runs.antt =====
-- The backend and the contract stay in step over every run whose submissions are delivered.
use lumendark.Common.{
  ℕ, ◌≡◌, ◌≤◌, refl, sym, ap, subst, ◌∙◌, inl, inr, true, false, some, List, [], ◌∷◌, ◌++◌, arith,
  ℤ, ◌+ℤ◌, int_laws, Each, Each-append,
}
use lumendark.Models.Order.{Asset}
use lumendark.Models.Message.{
  Message, Payload, ActionPayload, ChainAction, accepted, processing, decimal, finite,
}
use lumendark.Storage.MessageStore.{MessageStore}
use lumendark.Storage.UserStore.Cover.{Demand, bump}
use lumendark.Storage.UserStore.Totals.{totals}
use lumendark.Executor.ActionHandler.{Submit, Handler, process_action}
use lumendark.Executor.MessageHandler.{State, process_message, dispatch, catching}
use lumendark.Executor.MessageHandler.Solvency.{IsSolvent}
use lumendark.Executor.MessageHandler.Chain.{
  Allowed, Steps, Steps-append, Chained, payloads, nothing, ledger_eq, bump_nonneg,
}
use lumendark.Executor.MessageHandler.Processing.{process_message-Handled}
use lumendark.Executor.MessageHandler.Queueing.{
  credited, IsRequest, credited_request, process_message-Queued, deposit_accepted,
}
use lumendark.Storage.UserStore.Holdings.{asset_eqb}
use lumendark.Blockchain.Transaction.{ContractAsset, ContractCall, Conversions}
use lumendark.Blockchain.Decoding.RoundTrip.{asset_of}
use lumendark.Contract
use lumendark.Contract.{World, Chain, Signers, u64_max, invoke}
use lumendark.Contract.Backing.{no_amounts, Owes, Moves}
use lumendark.Contract.Calls.{invoke-Owes}
use lumendark.Contract.Ledger.{ledger}
use lumendark.Contract.Funded.{deposit-ledger}
use lumendark.Contract.Carrying.{Pays}
use lumendark.Contract.Queue.{submit_to, Accepted, accepts, process_action-Accepted}
use lumendark.Executor.Exchange.{
  Funding, Exchange, next_state, Step, fund, credit, process, submit, Run, done, then_step,
  Submittable, Smooth, AllSmooth,
}
use lumendark.Executor.Exchange.Due.{Positive, due, due_nonneg, due-snoc, Steps-more}

asset_of_real : (x : ContractAsset) → asset_eqb (asset_of x) (asset_of x) ≡ true
asset_of_real ContractAsset.A = refl
asset_of_real ContractAsset.B = refl

with_message :
    (s : State) (now : ℕ) (m : Message)
    → IsSolvent s
    → IsSolvent (record s { message = m; now = now })
with_message s now m h = record { book = h.book; covers = h.covers }

next_state-IsSolvent :
    (store : MessageStore) (now : ℕ) (m : Message) (s : State)
    → IsSolvent s
    → IsSolvent (next_state store now m s)
next_state-IsSolvent store now m s h =
    (process_message-Handled store (record s { message = m; now = now })
      (with_message s now m h)).solvent

-- A request brings nothing in, accepted or rejected.
request-Chained :
    (store : MessageStore) (now : ℕ) (m : Message) (s : State)
    → IsSolvent s
    → IsRequest m.payload
    → Chained nothing s (next_state store now m s)
request-Chained store now m s h request =
    elim (process_message-Queued store (record s { message = m; now = now })
      (with_message s now m h)) [
        | inl (yea, c) ↦
            subst (λ (d : Demand). Chained d s (next_state store now m s))
              (credited_request m.user_address m.payload request) c
        | inr (nay, c) ↦ c
      ]

funding_accepted :
    (store : MessageStore) (now : ℕ) (m : Message) (s : State) (d : Funding) (ledger tx_hash : ℕ)
    → IsSolvent s
    → Positive d
    → m.payload ≡ Payload.deposit (asset_of d.asset) (decimal (finite d.amount)) ledger tx_hash
    → (next_state store now m s).message.status ≡ accepted
unfolding process_message dispatch
funding_accepted store now m s d ledger tx_hash h funding e =
    let t : State = record s { message = record m { status = processing }; now = now } in
    ap (λ (p : Payload). (catching (dispatch p t)).message.status) e
    ∙ deposit_accepted t (asset_of d.asset) d.amount (record { book = h.book; covers = h.covers })
        (asset_of_real d.asset) (ground (arith, funding))

-- The message of a deposit brings in its amount.
funding-Chained :
    (store : MessageStore) (now : ℕ) (m : Message) (s : State) (d : Funding) (ledger tx_hash : ℕ)
    → IsSolvent s
    → Positive d
    → m.user_address ≡ d.user
    → m.payload ≡ Payload.deposit (asset_of d.asset) (decimal (finite d.amount)) ledger tx_hash
    → Chained (bump d.user (asset_of d.asset) d.amount) s (next_state store now m s)
funding-Chained store now m s d ledger tx_hash h funding own e =
    elim (process_message-Queued store (record s { message = m; now = now })
      (with_message s now m h)) [
        | inl (yea, c) ↦
            subst (λ (b : Demand). Chained b s (next_state store now m s))
              (ap (λ (p : Payload). credited m.user_address p) e
                ∙ ap (λ (u : ℕ). bump u (asset_of d.asset) d.amount) own)
              c
        | inr (nay, c) ↦
            absurd (cc (nay, funding_accepted store now m s d ledger tx_hash h funding e))
      ]

module _ {T : Type 0} (conv : Conversions) (chain : Chain T) (signers : Signers)
    (held : ℕ → ℕ → T → ℤ) where
  -- The contract's balances, after all queued actions, are the totals with what waits to be credited;
  -- it holds what it owes, and the action handler has its nonce.
  record InStep (e : Exchange T) : Type 0 where
    solvent : IsSolvent e.state
    steps :
        Steps
          (ledger e.handler.submitter.storage)
          (payloads e.state.actions)
          (λ v y. totals e.state.users v y +ℤ due e.incoming v y)
    fundings : Each Positive e.incoming
    owes : Owes chain held no_amounts e.handler.submitter
    signed : signers e.handler.submitter.storage.admin ≡ true
    nonce : e.handler.nonce ≡ e.handler.submitter.storage.nonce

  -- A step that queues actions, and brings in `brought` of what was due.
  queue_more :
      (e : Exchange T) (s' : State) (ds : List Funding) (brought : Demand)
      → InStep e
      → IsSolvent s'
      → Each Positive ds
      → ((v : ℕ) (y : Asset) → due e.incoming v y ≡ brought v y +ℤ due ds v y)
      → Chained brought e.state s'
      → InStep (record e { state = s'; incoming = ds })
  queue_more e s' ds brought h solvent fundings parts c =
      let l = ledger e.handler.submitter.storage in
      record {
        solvent = solvent;
        steps =
            subst
              (λ (ps : List ActionPayload). Steps l ps (λ v y. totals s'.users v y +ℤ due ds v y))
              (sym c.queued)
              (Steps-append l _ _ (payloads e.state.actions) c.new h.steps (
                subst (λ (m : Demand). Steps m c.new (λ v y. totals s'.users v y +ℤ due ds v y))
                  (ledger_eq λ v y. rw (parts v y) (omega int_laws))
                  (Steps-more _ _ (due ds) c.new (due_nonneg ds fundings) c.steps)));
        fundings = fundings;
        owes = h.owes;
        signed = h.signed;
        nonce = h.nonce;
      }

  module _ (tx_hash : ContractCall → World T → ℕ) (pays : Pays chain held)
      (exact : (n : ℕ) → n ≤ u64_max → conv.is_uint64 n ≡ true) (moves : Moves chain held)
      (unsigned : signers chain.contract_address ≡ false) where
    funded :
        (e : Exchange T) (by : Signers) (d : Funding) (w : World T)
        → InStep e
        → by chain.contract_address ≡ false
        → invoke chain by (Contract.fund d.user d.asset d.amount) e.handler.submitter ≡ some w
        → InStep (record e {
          handler = record e.handler { submitter = w };
          incoming = e.incoming ++ d ∷ [];
        })
    funded e by d w h apart returns =
        let g =
          deposit-ledger chain held by d.user d.asset d.amount e.handler.submitter w returns in
        let waiting : Demand = λ v y. totals e.state.users v y +ℤ due (e.incoming ++ d ∷ []) v y in
        record {
          solvent = h.solvent;
          steps =
              subst (λ (l : Demand). Steps l (payloads e.state.actions) waiting)
                (sym (ledger_eq g.1))
                (subst (Steps _ (payloads e.state.actions))
                  (ledger_eq λ v y. rw (due-snoc e.incoming d v y) (omega int_laws))
                  (Steps-more (ledger e.handler.submitter.storage) _
                    (bump d.user (asset_of d.asset) d.amount) (payloads e.state.actions)
                    (λ v y. bump_nonneg d.user (asset_of d.asset) d.amount v y g.0) h.steps));
          fundings = Each-append Positive e.incoming (d ∷ []) h.fundings (g.0, tt);
          owes =
              invoke-Owes chain held moves by (Contract.fund d.user d.asset d.amount) apart
                e.handler.submitter w h.owes returns;
          signed = ap signers g.3 ∙ h.signed;
          nonce = h.nonce ∙ sym g.2;
        }

    -- The contract takes the first queued action.
    takes :
        (e : Exchange T) (act : ChainAction) (acts : List ChainAction)
        → InStep e
        → e.state.actions ≡ act ∷ acts
        → Submittable conv chain signers tx_hash act e.handler
        → Accepted conv chain signers held pays exact e.handler.submitter act.payload
    takes e act acts h first fits =
        accepts conv chain signers held pays exact e.handler.submitter act.payload h.owes h.signed
          fits.2 (first_Allowed _ _ e.state.actions h.steps first) fits.0 fits.1
      where
        first_Allowed :
            (l m : Demand) (queue : List ChainAction)
            → Steps l (payloads queue) m
            → queue ≡ act ∷ acts
            → Allowed act.payload l
        first_Allowed l m queue steps first =
            (subst (λ (q : List ChainAction). Steps l (payloads q) m) first steps).0

    processed :
        (e : Exchange T) (act : ChainAction) (h : InStep e)
        → (a : Accepted conv chain signers held pays exact e.handler.submitter act.payload)
        → process_action (submit_to conv chain signers tx_hash) act e.handler ≡ (
          record act { status = accepted; tx_hash = some (tx_hash a.call e.handler.submitter) },
          record { nonce = a.runs.after.storage.nonce; submitter = a.runs.after },
        )
    processed e act h a =
        ap
          (λ (n : ℕ).
            process_action (submit_to conv chain signers tx_hash) act
              (record { nonce = n; submitter = e.handler.submitter }))
          h.nonce
        ∙ process_action-Accepted conv chain signers held pays exact moves unsigned tx_hash act
            e.handler.submitter a

    submitted :
        (e : Exchange T) (submitter : Submit (World T)) (act : ChainAction)
        (acts : List ChainAction)
        → InStep e
        → e.state.actions ≡ act ∷ acts
        → submitter e.handler.nonce act.payload e.handler.submitter
          ≡ submit_to conv chain signers tx_hash e.handler.nonce act.payload e.handler.submitter
        → Submittable conv chain signers tx_hash act e.handler
        → InStep (record e {
          state = record e.state { actions = acts };
          handler = (process_action submitter act e.handler).1;
        })
    unfolding process_action
    submitted e submitter act acts h first delivers fits =
        let a = takes e act acts h first fits in
        let c = a.runs.holds in
        let waiting : Demand = λ v y. totals e.state.users v y +ℤ due e.incoming v y in
        let same : process_action submitter act e.handler
            ≡ process_action (submit_to conv chain signers tx_hash) act e.handler =
          rw delivers refl in
        let left : Steps _ (payloads (act ∷ acts)) _ =
          subst
            (λ (q : List ChainAction).
              Steps (ledger e.handler.submitter.storage) (payloads q)
                (λ v y. totals e.state.users v y +ℤ due e.incoming v y))
            first h.steps in
        subst
          (λ (g : Handler (World T)).
            InStep (record e { state = record e.state { actions = acts }; handler = g }))
          (sym (ap (λ (r : ChainAction × Handler (World T)). r.1) (same ∙ processed e act h a)))
          (record {
            solvent = record { book = h.solvent.book; covers = h.solvent.covers };
            steps = subst (λ (l : Demand). Steps l (payloads acts) waiting) (sym c.balances) left.1;
            fundings = h.fundings;
            owes =
                invoke-Owes chain held moves signers (Contract.act a.call) unsigned
                  e.handler.submitter a.runs.after h.owes a.runs.returns;
            signed = ap signers c.admin ∙ h.signed;
            nonce = refl;
          })

    Step-InStep :
        (e e' : Exchange T) (step : Step chain e e')
        → Smooth conv chain signers tx_hash step
        → InStep e
        → InStep e'
    Step-InStep e _ (fund by d w returns) apart h = funded e by d w h apart returns
    Step-InStep e _ (credit d ds store now m number hash first own payload) smooth h =
        let fundings : Each Positive (d ∷ ds) = subst (Each Positive) first h.fundings in
        queue_more e (next_state store now m e.state) ds (bump d.user (asset_of d.asset) d.amount) h
          (next_state-IsSolvent store now m e.state h.solvent) fundings.1
          (λ v y. ap (λ (q : List Funding). due q v y) first)
          (funding-Chained store now m e.state d number hash h.solvent fundings.0 own payload)
    Step-InStep e _ (process store now m request) smooth h =
        queue_more e (next_state store now m e.state) e.incoming nothing h
          (next_state-IsSolvent store now m e.state h.solvent) h.fundings (λ v y. omega int_laws)
          (request-Chained store now m e.state h.solvent request)
    Step-InStep e _ (submit submitter act acts first) smooth h =
        submitted e submitter act acts h first smooth.0 smooth.1

    Run-InStep :
        (e e' : Exchange T) (run : Run chain e e')
        → AllSmooth conv chain signers tx_hash run
        → InStep e
        → InStep e'
    Run-InStep e _ done smooth h = h
    Run-InStep e _ (then_step {e'} {e''} run step) smooth h =
        Step-InStep e' e'' step smooth.1 (Run-InStep e e' run smooth.0 h)

-- The message handler is solvent, nothing waits, the contract holds what it owes and its balances are
-- the users' totals, and the action handler has its nonce.
pub record Agrees {T : Type 0} (chain : Chain T) (held : ℕ → ℕ → T → ℤ) (e : Exchange T)
    : Type 0 where
  pub solvent : IsSolvent e.state
  pub no_actions : e.state.actions ≡ []
  pub no_fundings : e.incoming ≡ []
  pub owes : Owes chain held no_amounts e.handler.submitter
  pub balances :
      (v : ℕ) (y : Asset) → ledger e.handler.submitter.storage v y ≡ totals e.state.users v y
  pub nonce : e.handler.nonce ≡ e.handler.submitter.storage.nonce

module _ {T : Type 0} (conv : Conversions) (chain : Chain T) (signers : Signers)
    (held : ℕ → ℕ → T → ℤ) (tx_hash : ContractCall → World T → ℕ) (pays : Pays chain held)
    (exact : (n : ℕ) → n ≤ u64_max → conv.is_uint64 n ≡ true) (moves : Moves chain held)
    (unsigned : signers chain.contract_address ≡ false) (e e' : Exchange T)
    (h : Agrees chain held e) (signed : signers e.handler.submitter.storage.admin ≡ true)
    (run : Run chain e e') (smooth : AllSmooth conv chain signers tx_hash run) where
  end_InStep : InStep conv chain signers held e'
  end_InStep =
      Run-InStep conv chain signers held tx_hash pays exact moves unsigned e e' run smooth (record {
        solvent = h.solvent;
        steps = rw (h.no_actions, h.no_fundings) (ledger_eq λ v y. h.balances v y ∙ omega int_laws);
        fundings = rw h.no_fundings tt;
        owes = h.owes;
        signed = signed;
        nonce = h.nonce;
      })

  -- For a token that moves what it is asked to and pays what the contract holds, backend calls
  -- that the admin signs and the contract does not, and nonces that the SDK takes: from an
  -- exchange that agrees (a solvent state, nothing queued, no deposit waiting, a contract that
  -- holds what it owes and whose balances are the users' totals, and an action handler with its
  -- nonce), after any smooth run (deposits at the contract that return, of which it signs none;
  -- their messages in their order; other messages of any content; and submissions of the first
  -- queued action, each delivered and with amounts that convert as they are, arguments that the
  -- SDK takes and room in the contract), the first queued action, if its amounts convert as they
  -- are, the SDK takes its arguments and the contract has room for it, is marked as accepted when
  -- the action handler processes it and its call is delivered.
  pub Run-accepts :
      (act : ChainAction) (acts : List ChainAction)
      → e'.state.actions ≡ act ∷ acts
      → Submittable conv chain signers tx_hash act e'.handler
      → (process_action (submit_to conv chain signers tx_hash) act e'.handler).0.status ≡ accepted
  Run-accepts act acts first fits =
      ap (λ (r : ChainAction × Handler (World T)). r.0.status)
        (processed conv chain signers held tx_hash pays exact moves unsigned e' act end_InStep (
          takes conv chain signers held tx_hash pays exact moves unsigned e' act acts end_InStep
            first fits))

  -- For a token that moves what it is asked to and pays what the contract holds, backend calls
  -- that the admin signs and the contract does not, and nonces that the SDK takes: from an
  -- exchange that agrees (a solvent state, nothing queued, no deposit waiting, a contract that
  -- holds what it owes and whose balances are the users' totals, and an action handler with its
  -- nonce), after any smooth run (deposits at the contract that return, of which it signs none;
  -- their messages in their order; other messages of any content; and submissions of the first
  -- queued action, each delivered and with amounts that convert as they are, arguments that the
  -- SDK takes and room in the contract), whenever nothing is queued and no deposit waits, the
  -- contract's balance of each user in each asset is the user's total in the backend.
  pub Run-Agrees :
      e'.state.actions ≡ []
      → e'.incoming ≡ []
      → (v : ℕ) (y : Asset) → ledger e'.handler.submitter.storage v y ≡ totals e'.state.users v y
  Run-Agrees no_actions no_fundings v y =
      ap (λ (l : Demand). l v y) (rw (no_actions, no_fundings) at end_InStep.steps) ∙ omega int_laws
