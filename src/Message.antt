-- ===== src/Message.antt =====
-- services/message and services/odb/message.hpp: text messages between two users.
pub mod Paging
pub mod Sending
pub mod Status
pub mod History
pub mod Delivery
mod Tests
use mathlib.Core.Option
use my_chat.Prelude.{
  ℕ, String, ◌≡◌, refl, Bool, true, false, ◌&&◌, ◌||◌, ◌-◌, ◌^◌, Option, none, some, List, [], ◌∷◌,
  map, ◌==◌, string_comparable, nat_comparable, if◌then◌else◌, or_empty, Outcome, ok, err, take,
}
use my_chat.Prelude.Int.{ℤ, pos, negsuc, ltz, positive_or}
use my_chat.Storage.{
  Database, Schema, Table, Sorter, ascending, attempt, persisted, loaded, updated, sorted_by,
}

pub data MessageStatus : Type 0 where
  sent delivered read : MessageStatus

pub data MessageType : Type 0 where
  text image file system : MessageType

pub record Message : Type 0 where
  pub msg_id : ℕ
  pub sender_uid : String
  pub receiver_uid : String
  pub content : String
  pub msg_type : MessageType
  pub status : MessageStatus
  pub create_time : ℤ
  pub delivered_time : ℤ
  pub read_time : ℤ

abbrev pub is_sent : MessageStatus → Bool
is_sent sent = true
is_sent _ = false

pub message_key-assign : (k : ℕ) (m : Message) → (record m { msg_id = k }).msg_id ≡ k
message_key-assign k m = refl

abbrev pub message_schema : Schema ℕ Message
message_schema = record {
  key = λ m. m.msg_id;
  assign = λ k m. record m { msg_id = k };
  conflicts = λ m n. false;
  key-assign = message_key-assign;
}

pub record MessageTable (db : Database) : Type 1 where
  pub messages : Table message_schema db
  pub sorter : Sorter message_schema messages

pub data SendError : Type 0 where
  empty_sender empty_receiver empty_content persist_failed : SendError

pub record SendRequest : Type 0 where
  pub sender_uid : String
  pub receiver_uid : String
  pub content : String
  pub msg_type : MessageType
  pub now_ms : ℤ

-- MessageData has the fields of Message, and to_data copies them one by one.
abbrev pub MessageData : Type 0
MessageData = Message

abbrev pub SendResult : Type 0
SendResult = Outcome SendError MessageData

-- The query of find_conversation.
abbrev pub exchanged : String → String → ℤ → Message → Bool
exchanged a b before m =
    ((m.sender_uid == a) && ((m.receiver_uid == b) && ltz m.create_time before))
    || ((m.sender_uid == b) && ((m.receiver_uid == a) && ltz m.create_time before))

-- The query of find_offline.
abbrev pub undelivered : String → ℤ → Message → Bool
undelivered uid before m = (m.receiver_uid == uid) && (is_sent m.status && ltz m.create_time before)

-- The loop that copies rows while fewer than `limit` have been copied.
abbrev pub collect : ℤ → List Message → List Message
collect (pos n) rows = take n rows
collect (negsuc n) rows = []

-- INT64_MAX
abbrev pub int64_max : ℤ
int64_max = pos (2 ^ 63 - 1)

module _ (db : Database) (table : MessageTable db) where
  open db use {Db}
  open table use {messages, sorter}

  unfoldable pub create : Message → Db → Option (ℕ × Db)
  create m d = persisted messages m d

  unfoldable pub find_by_id : ℕ → Db → Option Message
  find_by_id id d = loaded messages id d

  unfoldable pub find_conversation : String → String → ℤ → ℤ → Db → List Message
  find_conversation a b before limit d =
      collect limit (
        or_empty
          (sorted_by messages sorter (exchanged a b before) ascending (λ m. m.create_time) d))

  unfoldable pub find_offline : String → ℤ → ℤ → Db → List Message
  find_offline uid before limit d = collect limit (
      or_empty
        (sorted_by messages sorter (undelivered uid before) ascending (λ m. m.create_time) d))

  unfoldable pub mark_delivered : ℕ → ℤ → Db → Bool × Db
  mark_delivered id time d = attempt d (
      Option.map (λ s. s.1)
        (updated messages id (λ m. record m { status = delivered; delivered_time = time }) d))

  unfoldable pub mark_read : ℕ → ℤ → Db → Bool × Db
  mark_read id time d = attempt d (
      Option.map (λ s. s.1)
        (updated messages id (λ m. record m { status = read; read_time = time }) d))

  -- The reply of send_text_message, once the row has been written under `id`.
  unfoldable pub read_back : ℕ → Db → SendResult × Db
  read_back id d = elim (find_by_id id d) [ none ↦ (err persist_failed, d) | some m ↦ (ok m, d) ]

  unfoldable pub send_text_message : SendRequest → Db → SendResult × Db
  send_text_message request d =
      let m : Message = record {
        msg_id = 0;
        sender_uid = request.sender_uid;
        receiver_uid = request.receiver_uid;
        content = request.content;
        msg_type = request.msg_type;
        status = sent;
        create_time = request.now_ms;
        delivered_time = pos 0;
        read_time = pos 0;
      } in
      if request.sender_uid == ""
      then (err empty_sender, d)
      else if request.receiver_uid == ""
      then (err empty_receiver, d)
      else if request.content == ""
      then (err empty_content, d)
      else elim (create m d) [ none ↦ (err persist_failed, d) | some (id, d') ↦ read_back id d' ]

  unfoldable pub get_conversation : String → String → ℤ → ℤ → Db → List MessageData
  get_conversation a b before limit d =
      find_conversation a b (positive_or before int64_max) (positive_or limit (pos 50)) d

  unfoldable pub pull_offline : String → ℤ → ℤ → Db → List MessageData
  pull_offline uid before limit d =
      find_offline uid (positive_or before int64_max) (positive_or limit (pos 50)) d
