-- ===== src/Storage/MessageStore.antt =====
-- backend/lumendark/storage/message_store.py: messages by id. The lock is not modelled: a call is one
-- step. The store and its callers share one message object; the model writes a message back by
-- `update` where the code calls it.
use lumendark.Common.{ℕ, Option}
use lumendark.Common.Dict.{Dict, lookup, insert}
use lumendark.Models.Message.{Message}

abbrev pub MessageStore : Type 0
MessageStore = Dict Message

abbrev pub add : Message → MessageStore → MessageStore
add m store = insert m.id m store

abbrev pub get : ℕ → MessageStore → Option Message
get message_id store = lookup message_id store

abbrev pub update : Message → MessageStore → MessageStore
update m store = insert m.id m store
