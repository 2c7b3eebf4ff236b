-- ===== src/Lib.antt =====
-- Lumen Dark is a dark pool: a private order book for two assets, "a" and "b", in front of a contract on
-- a blockchain that holds the deposits. This library models the backend's core, the path of a message
-- from the queue to the user balances, the order book and the actions for the contract.
--
-- Parts, and the files that model them:
-- Models (backend/lumendark/models): Models/Order (order.py), Models/Trade (trade.py), Models/User
-- (user.py: a balance with its available part and its liabilities), Models/Message (message.py: requests
-- and actions). Records and methods keep the source's names; a method is a function of the object.
-- Storage (backend/lumendark/storage): Storage/UserStore (user_store.py), Storage/OrderBook
-- (order_book.py), Storage/MessageStore (message_store.py). A dict is an association list
-- (Common/Dict). An order object is shared by the book's dict and a sorted list: the dict holds the
-- object, and the sorted list holds the key by which `SortedList` placed it.
-- Matching (backend/lumendark/matching): Matching/Engine (engine.py). A match takes the incoming order
-- and the book, and returns the trades and both objects as they are left.
-- Executor (backend/lumendark/executor): Executor/MessageHandler (message_handler.py) and
-- Executor/ActionHandler (action_handler.py). The message handler's state has the user store, the book,
-- the queued actions and the message object; its methods are cut into the steps that stand between
-- their early returns. Queues has the queues of backend/lumendark/queues, which are lists.
-- The chain beside the handler: Executor/MessageHandler/Chain says what the contract asks of an action and
-- what it does to its balances where the amounts convert as they are. Executor/Exchange has the message
-- handler, the action handler and the contract in any order of steps: deposits, messages, and the submission
-- of the first queued action by any submitter, also one that fails. A smooth run is one where each submission
-- is delivered and its amounts convert as they are: `int(float(..))` drops fractions, and `int(..)` raises on
-- them (transaction.py), after which the two sides differ. There and in Contract/Queue and Contract/Requests a
-- unit of a `Decimal` is 1 of the contract's integers.
-- API (backend/lumendark/api/routes): Api/Routes (orders.py, withdrawals.py and status.py). A route stores
-- and queues a message, or reads the stores; the user's address is what the signature check returned.
--
-- How failures are modelled: a method that may raise is an `Action S A`, a function from a state to a
-- result (`ok` or an error) and the state as it was left, also where it raised (Common/Outcome).
-- `_process_message` catches an error and rejects the message.
--
-- Bounds and choices: a `Decimal` is an integer count of units, so that sums and products are exact:
-- the rounding of `Decimal` at 28 digits and the infinities are not modelled. A text is what `Decimal`
-- makes of it: malformed, a NaN, or a number. Ids and addresses are naturals; `uuid4` counts up, so that
-- ids do not repeat; the clock stands still while one message is processed. The loops of the backend run
-- over lists or a fixed number of rounds; only the client's wait has fuel. A lock is not modelled, since a
-- call is one step, and neither is logging. The `TransactionSubmitter` of action_handler.py is a protocol, so
-- it is a parameter there.
--
-- Signatures: Api/Auth (api/auth.py) is the check of a request, and Client/Signing (`_sign_request` of
-- client/lumendark_client/client.py) is what a client sends. Texts, Texts/Hex and Texts/Fields have the
-- texts of both, as lists of bytes: the decimal text of an integer, `int` of a text, and bytes in hex.
-- SHA-256 and the calls of the Stellar SDK are parameters; blanks, plus signs and underscores that `int` and
-- `fromhex` accept beside digits are not modelled.
-- Client/Requests (client.py) has the requests of a client and how the routes read them, with the encoding of a body
-- and what FastAPI makes of it as parameters; any refusal of a request counts as the same.
-- Client/Polling (client.py and exceptions.py) is the wait for a message to be processed. Its fuel is the
-- number of polls; enough is one more than the number of the first poll behind the timeout.
--
-- Blockchain (backend/lumendark/blockchain): Blockchain/Client (client.py), Blockchain/Transaction
-- (transaction.py, the submitter of withdrawals and settlements), Blockchain/Decoding and
-- Blockchain/EventListener (event_listener.py, with `on_deposit` of api/app.py). The values are those that
-- the SDK has read from XDR. The RPC server is a parameter, and so are `int` and `float` of a decimal's
-- text. The ids of events are naturals in the order of their texts. An integer amount becomes a `Decimal` of
-- `per_one` units for each 1, which may differ for the two assets: a unit of "b" is one of "a" times one of
-- the price.
--
-- Contract (contracts/orderbook/src: lib.rs, storage.rs, types.rs, events.rs) is the contract in Rust: its
-- storage, a call as a function that returns the new state or panics, and i128 and u64 arithmetic that
-- panics where it overflows. Who signs a call and the contracts of the tokens are parameters. Contract/Carrying
-- compares it with Executor/MessageHandler/Chain, Contract/Queue puts it behind the action handler, for a network
-- that delivers each call, and Contract/Requests behind the message handler.
--
-- Tests and the sample states are in Tests and the files below it.
--
-- Not modelled: the wiring of the backend (the rest of api/app.py and api/dependencies.py), the
-- builder and the simulation of blockchain/client.py, which pass calls on, what the client reads of JSON
-- answers, the scripts (backend/scripts), and the contract's getters and the expiry of its storage entries.
pub mod Common
pub mod Texts
pub mod Models
pub mod Storage
pub mod Queues
pub mod Matching
pub mod Executor
pub mod Blockchain
pub mod Api
pub mod Client
pub mod Contract
mod Tests
