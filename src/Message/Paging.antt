-- ===== src/Message/Paging.antt =====
-- The pages of find_conversation and find_offline (services/message/message_repository.cpp).
use my_chat.Prelude.{
  ℕ, zero, suc, String, ◌≡◌, ◌≢◌, refl, Bool, none, List, arith, IsIn, nat_comparable,
  string_comparable,
}
use my_chat.Prelude.Int.{ℤ, pos, negsuc, positive_or}
use my_chat.Storage.{Database, ascending, sorted_by}
use my_chat.Storage.Paging.{IsPage, take-IsIn, sorted_by-IsPage}
use my_chat.Message.{
  Message, MessageTable, exchanged, undelivered, collect, int64_max, find_conversation,
  find_offline, get_conversation, pull_offline,
}

pub collect-IsIn :
    (limit : ℤ) (x : Message) (rows : List Message) → IsIn x (collect limit rows) → IsIn x rows
collect-IsIn (pos n) x rows m = take-IsIn n x rows m
collect-IsIn (negsuc n) x rows m = absurd m

-- The limit of a page, by an independent description: a positive one, or else 50.
abbrev pub page_size : ℤ → ℕ
page_size (pos zero) = 50
page_size (pos (suc n)) = suc n
page_size (negsuc n) = 50

limit_page : (limit : ℤ) → positive_or limit (pos 50) ≡ pos (page_size limit)
limit_page (pos zero) = refl
limit_page (pos (suc n)) = ground arith
limit_page (negsuc n) = refl

module _ (db : Database) (table : MessageTable db) where
  open db use {Db}
  open table use {messages, sorter}

  -- The repository's query succeeds.
  abbrev pub Answers : (Message → Bool) → Db → Type 0
  Answers p d = sorted_by messages sorter p ascending (λ m. m.create_time) d ≢ none

  find_conversation-IsPage :
      (a b : String) (before : ℤ) (n : ℕ) (d : Db)
      → Answers (exchanged a b before) d
      → IsPage ascending
          (λ (m : Message). m.create_time)
          (exchanged a b before)
          n
          (messages.rows d)
          (find_conversation db table a b before (pos n) d)
  unfolding find_conversation
  find_conversation-IsPage a b before n d answers =
      sorted_by-IsPage messages sorter ascending (λ m. m.create_time) (exchanged a b before) n d
        answers

  find_offline-IsPage :
      (uid : String) (before : ℤ) (n : ℕ) (d : Db)
      → Answers (undelivered uid before) d
      → IsPage ascending
          (λ (m : Message). m.create_time)
          (undelivered uid before)
          n
          (messages.rows d)
          (find_offline db table uid before (pos n) d)
  unfolding find_offline
  find_offline-IsPage uid before n d answers =
      sorted_by-IsPage messages sorter ascending (λ m. m.create_time) (undelivered uid before) n d
        answers

  -- Where the query succeeds, get_conversation returns a page of the messages between the two users
  -- before the given time (before any, where none is given): the oldest of them in order of time, as
  -- many as the limit says, which is 50 unless it is positive.
  pub get_conversation-IsPage :
      (a b : String) (before limit : ℤ) (d : Db)
      → Answers (exchanged a b (positive_or before int64_max)) d
      → IsPage ascending
          (λ (m : Message). m.create_time)
          (exchanged a b (positive_or before int64_max))
          (page_size limit)
          (messages.rows d)
          (get_conversation db table a b before limit d)
  unfolding get_conversation
  get_conversation-IsPage a b before limit d answers =
      rw (limit_page limit)
        (find_conversation-IsPage a b (positive_or before int64_max) (page_size limit) d answers)

  -- Where the query succeeds, pull_offline returns a page of the messages to the user that are still
  -- in status SENT, before the given time: the oldest of them in order of time, as many as the limit
  -- says, which is 50 unless it is positive.
  pub pull_offline-IsPage :
      (uid : String) (before limit : ℤ) (d : Db)
      → Answers (undelivered uid (positive_or before int64_max)) d
      → IsPage ascending
          (λ (m : Message). m.create_time)
          (undelivered uid (positive_or before int64_max))
          (page_size limit)
          (messages.rows d)
          (pull_offline db table uid before limit d)
  unfolding pull_offline
  pull_offline-IsPage uid before limit d answers =
      rw (limit_page limit)
        (find_offline-IsPage uid (positive_or before int64_max) (page_size limit) d answers)
