-- ===== src/Message/Delivery.antt =====
-- What a delivery or read mark means for the pulls behind it, whatever is called in between
-- (MessageService::mark_delivered, mark_read and pull_offline).
use my_chat.Prelude.{
  ℕ, String, ◌≡◌, ◌∙◌, sym, ap, subst, ◌⊎◌, inl, inr, Bool, true, false, List, [], ◌∷◌, ◌++◌, IsIn,
  IsIn-append_left, IsIn-append_cases, nat_comparable, ◌==◌, ==_iff, ne_of_test, Bool-cases, ok,
  err,
}
use my_chat.Prelude.Int.{ℤ}
use my_chat.Storage.{Database, replace}
use my_chat.Storage.Replace.{replace-IsIn, new-IsIn-replace, IsIn-replace_cases}
use my_chat.Message.{
  Message, MessageTable, SendRequest, SendResult, message_schema, empty_sender, empty_receiver,
  empty_content, persist_failed, is_sent, mark_delivered, mark_read, pull_offline,
}
use my_chat.Message.Sending.{message_of, Sends, IsNew, send_text_message-Sends}
use my_chat.Message.Status.{
  Marks, as_delivered, as_read, mark_delivered-Marks, mark_read-Marks, pulled-undelivered,
  not_pulled,
}
use my_chat.Message.History.{
  Call, sends, delivers, reads, run, step, IsMark, delivered-IsMark, read-IsMark,
}

-- The message is there, and no row with its id is in status SENT.
pub record IsHandled (id : ℕ) (rows : List Message) : Type 0 where
  pub there : (x : Message) × IsIn x rows × (x.msg_id ≡ id)
  pub unsent : (x : Message) → IsIn x rows → x.msg_id ≡ id → is_sent x.status ≡ false

IsHandled-add :
    (id : ℕ) (request : SendRequest) (k : ℕ) (rows : List Message)
    → IsNew k rows
    → IsHandled id rows
    → IsHandled id (rows ++ message_of request k ∷ [])
IsHandled-add id request k rows new h = record {
  there =
      (h.there.0, IsIn-append_left h.there.0 rows (message_of request k ∷ []) h.there.1, h.there.2);
  unsent = λ x m same. elim (IsIn-append_cases x rows (message_of request k ∷ []) m) [
    | inl old ↦ h.unsent x old same
    | inr (inl e) ↦
        let (y, here, own) = h.there in
        absurd
          (ne_of_test y.msg_id k (new y here) (own ∙ sym same ∙ ap (λ (z : Message). z.msg_id) e))
    | inr (inr nothing) ↦ absurd nothing
  ];
}

sent-IsHandled :
    (id : ℕ) (request : SendRequest) (rows after : List Message) (result : SendResult)
    → Sends request rows result after
    → IsHandled id rows
    → IsHandled id after
sent-IsHandled id request rows after (ok m) (can, row, new, grown) h =
    subst (IsHandled id) (sym (grown ∙ ap (λ r. rows ++ r ∷ []) row))
      (IsHandled-add id request m.msg_id rows new h)
sent-IsHandled id request rows after (err empty_sender) (e, same) h = rw same h
sent-IsHandled id request rows after (err empty_receiver) (e, f, same) h = rw same h
sent-IsHandled id request rows after (err empty_content) (e, f, g, same) h = rw same h
sent-IsHandled id request rows after (err persist_failed) (can, inl same) h = rw same h
sent-IsHandled id request rows after (err persist_failed) (can, inr (k, new, grown)) h =
    rw grown (IsHandled-add id request k rows new h)

marked-IsHandled :
    (id : ℕ) (change : Message → Message) (old : Message) (rows : List Message)
    → IsMark change
    → IsIn old rows
    → (old.msg_id ≡ id) ⊎ IsHandled id rows
    → IsHandled id (replace message_schema (change old) rows)
marked-IsHandled id change old rows mark here before = record {
  there = elim before [
    | inl own ↦ (
      change old,
      new-IsIn-replace message_schema old (change old) rows here (mark.same old).msg_id,
      sym (mark.same old).msg_id ∙ own,
    )
    | inr h ↦
        let (x, m, own) = h.there in
        elim (Bool-cases (x.msg_id == (change old).msg_id)) [
          | inl hit ↦ (
            change old,
            new-IsIn-replace message_schema old (change old) rows here (mark.same old).msg_id,
            sym ((==_iff x.msg_id (change old).msg_id).0 hit) ∙ own,
          )
          | inr miss ↦ (x, rw miss at (replace-IsIn message_schema (change old) rows x m), own)
        ]
  ];
  unsent = λ x m same. elim (IsIn-replace_cases message_schema (change old) rows x m) [
    | inl placed ↦ ap (λ (r : Message). is_sent r.status) placed ∙ mark.unsent old
    | inr (kept, miss) ↦ elim before [
      | inl own ↦
          absurd
            (ne_of_test x.msg_id (change old).msg_id miss (same ∙ sym own ∙ (mark.same old).msg_id))
      | inr h ↦ h.unsent x kept same
    ]
  ];
}

module _ (db : Database) (table : MessageTable db) where
  open db use {Db}
  open table use {messages}

  Marks-IsHandled :
      (id : ℕ) (change : Message → Message) (k : ℕ) (d t : Db) (b : Bool)
      → IsMark change
      → Marks db table change k d b t
      → IsHandled id (messages.rows d)
      → IsHandled id (messages.rows t)
  Marks-IsHandled id change k d t true mark (old, here, key, after) h =
      rw after (marked-IsHandled id change old (messages.rows d) mark here (inr h))
  Marks-IsHandled id change k d t false mark same h =
      subst (λ s. IsHandled id (messages.rows s)) (sym same) h

  step-IsHandled :
      (id : ℕ) (c : Call) (d : Db)
      → IsHandled id (messages.rows d)
      → IsHandled id (messages.rows (step db table c d))
  step-IsHandled id (sends request) d h =
      sent-IsHandled id request _ _ _ (send_text_message-Sends db table request d) h
  step-IsHandled id (delivers k time) d h =
      Marks-IsHandled id (as_delivered time) k d _ _ (delivered-IsMark time)
        (mark_delivered-Marks db table k time d) h
  step-IsHandled id (reads k time) d h =
      Marks-IsHandled id (as_read time) k d _ _ (read-IsMark time)
        (mark_read-Marks db table k time d) h

  run-IsHandled :
      (id : ℕ) (cs : List Call) (d : Db)
      → IsHandled id (messages.rows d)
      → IsHandled id (messages.rows (run db table cs d))
  run-IsHandled id [] d h = h
  run-IsHandled id (c ∷ cs) d h = run-IsHandled id cs (step db table c d) (step-IsHandled id c d h)

  first_mark :
      (change : Message → Message) (id : ℕ) (d t : Db)
      → IsMark change
      → Marks db table change id d true t
      → IsHandled id (messages.rows t)
  first_mark change id d t mark (old, here, key, after) =
      rw after (marked-IsHandled id change old (messages.rows d) mark here (inl key))

  -- Once mark_delivered or mark_read has succeeded for a message, no later pull_offline returns it,
  -- whatever is sent and marked in between.
  pub mark_delivered-pull_offline :
      (id : ℕ) (time : ℤ) (d t : Db)
      → (mark_delivered db table id time d ≡ (true, t)) ⊎ (mark_read db table id time d ≡ (true, t))
      → (cs : List Call) (uid : String) (before limit : ℤ)
      → ¬ (
          (x : Message) × IsIn x (pull_offline db table uid before limit (run db table cs t))
          × (x.msg_id ≡ id))
  mark_delivered-pull_offline id time d t marked cs uid before limit (x, m, same) =
      let after = run db table cs t in
      let handled : IsHandled id (messages.rows t) = elim marked [
        | inl e ↦ first_mark (as_delivered time) id d t (delivered-IsMark time) (
            subst (λ r. Marks db table (as_delivered time) id d r.0 r.1) e
              (mark_delivered-Marks db table id time d))
        | inr e ↦ first_mark (as_read time) id d t (read-IsMark time) (
            subst (λ r. Marks db table (as_read time) id d r.0 r.1) e
              (mark_read-Marks db table id time d))
      ] in
      let (here, _) = pulled-undelivered db table uid before limit after x m in
      cc (
        (run-IsHandled id cs t handled).unsent x here same,
        not_pulled db table uid before limit after x m,
      )
