-- ===== src/Queues.antt =====
-- backend/lumendark/queues/message_queue.py and action_queue.py: one queue for two types of items. `get`
-- is modelled at the moment its wait ends, by an item or by the timeout.
use mathlib.Core.Option.{Option, none, some}
use mathlib.Core.List.{List, [], ◌∷◌, ◌++◌}

module _ {A : Type 0} where
  abbrev pub put : A → List A → List A
  put item queue = queue ++ item ∷ []

  abbrev pub get : List A → Option A × List A
  get [] = (none, [])
  get (item ∷ queue) = (some item, queue)
