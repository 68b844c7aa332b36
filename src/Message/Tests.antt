-- ===== src/Message/Tests.antt =====
-- Messages at concrete inputs, over the database in memory.
use my_chat.Prelude.{
  Bool, ap, ◌≡◌, refl, inl, inr, false, List, [], ◌∷◌, IsIn, select, string_comparable,
  nat_comparable, ◌==◌, ok,
}
use my_chat.Prelude.Int.{pos}
use my_chat.Storage.{Database, persisted, loaded, updated, sorted_by, replace, ascending}
use my_chat.Storage.Paging.{IsPage}
use my_chat.Storage.Memory.{memory, table, insert, fresh, clashes, find}
use my_chat.Storage.Sorting.{sorter, sort, place}
use my_chat.Message.{
  Message, MessageTable, SendRequest, message_schema, text, delivered, exchanged, create,
  find_by_id, read_back, send_text_message, get_conversation, pull_offline, find_conversation,
  mark_delivered, mark_read,
}
use my_chat.Message.Paging.{Answers, get_conversation-IsPage}
use my_chat.Message.Sending.{Sends, message_of, send_text_message-Sends}
use my_chat.Message.Status.{as_delivered, as_read}
use my_chat.Message.Delivery.{mark_delivered-pull_offline}
use my_chat.Message.History.{
  Call, sends, delivers, reads, run, IsSame, IsSound, run-IsSame, mark_read-mark_delivered,
}

abbrev store : Database
store = memory (List Message)

put_back : (xs d : List Message) → xs ≡ xs
put_back xs d = refl

abbrev message_table : MessageTable store
message_table = record {
  messages =
      table message_schema (fresh (λ (m : Message). m.msg_id)) (λ d. d) (λ xs _. xs) put_back;
  sorter = sorter message_schema (fresh (λ (m : Message). m.msg_id)) (λ d. d) (λ xs _. xs) put_back;
}

abbrev hello : SendRequest
hello = record {
  sender_uid = "ann";
  receiver_uid = "bob";
  content = "hello";
  msg_type = text;
  now_ms = pos 20;
}

abbrev reply : SendRequest
reply = record {
  sender_uid = "bob";
  receiver_uid = "ann";
  content = "hi";
  msg_type = text;
  now_ms = pos 10;
}

abbrev two : List Message
two = message_of hello 1 ∷ message_of reply 2 ∷ []

send_adds :
    send_text_message store message_table hello []
    ≡ (ok (message_of hello 1), message_of hello 1 ∷ [])
unfolding send_text_message create persisted insert fresh clashes read_back find_by_id loaded find
send_adds = refl

oldest_first :
    get_conversation store message_table "ann" "bob" (pos 0) (pos 0) two
    ≡ message_of reply 2 ∷ message_of hello 1 ∷ []
unfolding get_conversation find_conversation sorted_by sort place select
oldest_first = refl

send_text_message-Sends_example :
    Sends hello []
      (send_text_message store message_table hello []).0
      (send_text_message store message_table hello []).1
send_text_message-Sends_example = send_text_message-Sends store message_table hello []

answers : (p : Message → Bool) (d : List Message) → Answers store message_table p d
unfolding sorted_by
answers p d e = cc

get_conversation-IsPage_example :
    IsPage ascending
      (λ (m : Message). m.create_time)
      (exchanged "ann" "bob" (pos 15))
      1
      two
      (get_conversation store message_table "ann" "bob" (pos 15) (pos 1) two)
get_conversation-IsPage_example =
    get_conversation-IsPage store message_table "ann" "bob" (pos 15) (pos 1) two
      (answers (exchanged "ann" "bob" (pos 15)) two)

abbrev marked_two : List Message
marked_two = as_delivered (pos 30) (message_of hello 1) ∷ message_of reply 2 ∷ []

mark_delivered-pull_offline_example : ¬ (
    (x : Message) × IsIn x (
      pull_offline store message_table "bob" (pos 0) (pos 0) (
        run store message_table
          (sends hello ∷ reads 1 (pos 40) ∷ delivers 1 (pos 50) ∷ [])
          marked_two))
    × (x.msg_id ≡ 1))
unfolding mark_delivered updated find replace
mark_delivered-pull_offline_example =
    mark_delivered-pull_offline store message_table 1 (pos 30) two marked_two (inl refl)
      (sends hello ∷ reads 1 (pos 40) ∷ delivers 1 (pos 50) ∷ []) "bob" (pos 0) (pos 0)

later : (y : Message) → IsIn y (message_of reply 2 ∷ []) → (1 == y.msg_id) ≡ false
later y (inl e) = ap (λ (m : Message). 1 == m.msg_id) e
later y (inr nowhere) = absurd nowhere

two-IsSound : IsSound two
two-IsSound = record {
  ids = ((λ y m. later y m), ((λ y m. absurd m), tt));
  times = ((λ e. (refl, refl)), ((λ e. (refl, refl)), tt));
}

abbrev calls : List Call
calls = reads 1 (pos 30) ∷ sends hello ∷ delivers 1 (pos 40) ∷ delivers 9 (pos 40) ∷ []

run-IsSame_example :
    (y : Message) × IsIn y (run store message_table calls two) × IsSame (message_of hello 1) y
run-IsSame_example =
    run-IsSame store message_table calls two two-IsSound (message_of hello 1) (inl refl)

mark_read-mark_delivered_example :
    (x : Message) × IsIn x
      (as_delivered (pos 40) (as_read (pos 30) (message_of hello 1)) ∷ message_of reply 2 ∷ [])
    × (x.msg_id ≡ 1)
    × (x.status ≡ delivered)
    × (x.delivered_time ≡ pos 40)
    × (x.read_time ≡ pos 30)
unfolding mark_read mark_delivered updated find replace
mark_read-mark_delivered_example =
    mark_read-mark_delivered store message_table 1 (pos 30) (pos 40) two _ _ refl refl two-IsSound
