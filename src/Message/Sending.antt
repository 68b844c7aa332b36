-- ===== src/Message/Sending.antt =====
-- What MessageService::send_text_message writes (services/message/message_service.cpp).
use my_chat.Prelude.{
  ℕ, String, ◌≡◌, ◌≢◌, refl, sym, subst, ◌⊎◌, inl, inr, true, false, some, List, [], ◌∷◌, ◌++◌,
  IsIn, IsIn-append_cases, Option-cases, Bool-cases, nat_comparable, string_comparable, ◌==◌,
  ==_iff, ok, err, ne_of_test,
}
use my_chat.Prelude.Int.{pos}
use my_chat.Storage.{Database}
use my_chat.Storage.Laws.{rows-persisted, loaded_row}
use my_chat.Message.{
  Message, MessageTable, SendRequest, SendResult, empty_sender, empty_receiver, empty_content,
  persist_failed, sent, create, find_by_id, read_back, send_text_message,
}

-- The row of a request: in status SENT, and neither delivered nor read yet.
abbrev pub message_of : SendRequest → ℕ → Message
message_of request id = record {
  msg_id = id;
  sender_uid = request.sender_uid;
  receiver_uid = request.receiver_uid;
  content = request.content;
  msg_type = request.msg_type;
  status = sent;
  create_time = request.now_ms;
  delivered_time = pos 0;
  read_time = pos 0;
}

pub record CanSend (request : SendRequest) : Type 0 where
  pub sender : request.sender_uid ≢ ""
  pub receiver : request.receiver_uid ≢ ""
  pub text : request.content ≢ ""

abbrev pub IsNew : ℕ → List Message → Type 0
IsNew id rows = (x : Message) → IsIn x rows → (x.msg_id == id) ≡ false

-- The reply to a request and the rows after it, by the rows before.
abbrev pub Sends : SendRequest → List Message → SendResult → List Message → Type 0
Sends request rows (ok m) after =
    CanSend request
    × (m ≡ message_of request m.msg_id)
    × IsNew m.msg_id rows
    × (after ≡ rows ++ m ∷ [])
Sends request rows (err empty_sender) after = (request.sender_uid ≡ "") × (after ≡ rows)
Sends request rows (err empty_receiver) after =
    (request.sender_uid ≢ "") × (request.receiver_uid ≡ "") × (after ≡ rows)
Sends request rows (err empty_content) after =
    (request.sender_uid ≢ "")
    × (request.receiver_uid ≢ "")
    × (request.content ≡ "")
    × (after ≡ rows)
Sends request rows (err persist_failed) after =
    CanSend request
    × ((after ≡ rows) ⊎ ((id : ℕ) × IsNew id rows × (after ≡ rows ++ message_of request id ∷ [])))

string_cases : (s : String) → ((s == "") ≡ true) × (s ≡ "") ⊎ ((s == "") ≡ false) × (s ≢ "")
string_cases s = elim (Bool-cases (s == "")) [
  | inl e ↦ inl (e, (==_iff {T = String} s "").0 e)
  | inr e ↦ inr (e, ne_of_test s "" e)
]

module _ (db : Database) (table : MessageTable db) where
  open db use {Db}
  open table use {messages}

  read_back-Sends :
      (request : SendRequest) (d t : Db) (id : ℕ)
      → CanSend request
      → create db table (message_of request 0) d ≡ some (id, t)
      → Sends request
          (messages.rows d)
          (read_back db table id t).0
          (messages.rows (read_back db table id t).1)
  unfolding read_back create find_by_id
  read_back-Sends request d t id can h =
      let (grown, new) = rows-persisted messages (message_of request 0) d id t h in
      let fresh : IsNew id (messages.rows d) = λ x m. (new x m).0 in
      elim (Option-cases (find_by_id db table id t)) [
        | inl e ↦
            let reply : read_back db table id t ≡ (err persist_failed, t) =
              rw (read_back, e) refl in
            subst (λ r. Sends request (messages.rows d) r.0 (messages.rows r.1)) (sym reply)
              (can, inr (id, fresh, grown))
        | inr (m, e) ↦
            let (here, key) = loaded_row messages id t m e in
            let row : m ≡ message_of request id =
              elim (IsIn-append_cases m (messages.rows d) (message_of request id ∷ [])
                (subst (IsIn m) grown here)) [
                  | inl old ↦ absurd (ne_of_test m.msg_id id (fresh m old) key)
                  | inr (inl same) ↦ same
                  | inr (inr nowhere) ↦ absurd nowhere
                ] in
            let reply : read_back db table id t ≡ (ok (message_of request id), t) =
              rw (read_back, e, row) refl in
            subst (λ r. Sends request (messages.rows d) r.0 (messages.rows r.1)) (sym reply)
              (can, refl, fresh, grown)
      ]

  -- send_text_message refuses a request without sender, receiver or content, in this order, and
  -- writes nothing then. Otherwise it adds one row under a new id, in status SENT and with the
  -- request's fields, and returns that very row; where it answers PERSIST_FAILED the table is as it
  -- was, or has that row, which could not be read back.
  pub send_text_message-Sends :
      (request : SendRequest) (d : Db)
      → Sends request
          (messages.rows d)
          (send_text_message db table request d).0
          (messages.rows (send_text_message db table request d).1)
  unfolding send_text_message
  send_text_message-Sends request d = elim (string_cases request.sender_uid) [
    | inl (e, empty) ↦ rw e (empty, refl)
    | inr (e₁, sender) ↦ elim (string_cases request.receiver_uid) [
      | inl (e, empty) ↦ rw (e₁, e) (sender, empty, refl)
      | inr (e₂, receiver) ↦ elim (string_cases request.content) [
        | inl (e, empty) ↦ rw (e₁, e₂, e) (sender, receiver, empty, refl)
        | inr (e₃, text) ↦
            let can : CanSend request = record {
              sender = sender;
              receiver = receiver;
              text = text;
            } in
            elim (Option-cases (create db table (message_of request 0) d)) [
              | inl e ↦ rw (e₁, e₂, e₃, e) (can, inl refl)
              | inr ((id, t), e) ↦ rw (e₁, e₂, e₃, e) (read_back-Sends request d t id can e)
            ]
      ]
    ]
  ]
