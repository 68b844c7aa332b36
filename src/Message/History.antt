-- ===== src/Message/History.antt =====
-- The message table under any sequence of the calls that write it.
use my_chat.Prelude.{
  ℕ, ◌≡◌, ◌∙◌, refl, sym, ap, subst, inl, inr, Bool, true, false, List, [], ◌∷◌, ◌++◌, IsIn,
  IsIn-append_left, All, All-append_one, Apart, Apart-append_one, nat_comparable, ◌==◌, ==_iff,
  ne_of_test, Bool-cases, Apart-eq, ok, err,
}
use my_chat.Prelude.Int.{ℤ, pos}
use my_chat.Storage.{Database, replace}
use my_chat.Storage.Replace.{replace-IsIn, new-IsIn-replace, All-replace, Apart-replace}
use my_chat.Message.{
  Message, MessageTable, SendRequest, SendResult, message_schema, delivered, empty_sender,
  empty_receiver, empty_content, persist_failed, is_sent, mark_delivered, mark_read,
  send_text_message,
}
use my_chat.Message.Sending.{message_of, Sends, IsNew, send_text_message-Sends}
use my_chat.Message.Status.{Marks, as_delivered, as_read, mark_delivered-Marks, mark_read-Marks}

pub data Call : Type 0 where
  sends : SendRequest → Call
  delivers reads : ℕ → ℤ → Call

-- The ids are distinct, and a message still in status SENT has neither time.
abbrev pub Differs : Message → Message → Type 0
Differs m n = (m.msg_id == n.msg_id) ≡ false

abbrev pub IsUntouched : Message → Type 0
IsUntouched m = is_sent m.status ≡ true → (m.delivered_time ≡ pos 0) × (m.read_time ≡ pos 0)

pub record IsSound (rows : List Message) : Type 0 where
  pub ids : Apart Differs rows
  pub times : All IsUntouched rows

-- What no call changes in a message.
pub record IsSame (m n : Message) : Type 0 where
  pub msg_id : m.msg_id ≡ n.msg_id
  pub sender_uid : m.sender_uid ≡ n.sender_uid
  pub receiver_uid : m.receiver_uid ≡ n.receiver_uid
  pub content : m.content ≡ n.content
  pub msg_type : m.msg_type ≡ n.msg_type
  pub create_time : m.create_time ≡ n.create_time

IsSame-refl : (m : Message) → IsSame m m
IsSame-refl m = record {
  msg_id = refl;
  sender_uid = refl;
  receiver_uid = refl;
  content = refl;
  msg_type = refl;
  create_time = refl;
}

IsSame-trans : (m n o : Message) → IsSame m n → IsSame n o → IsSame m o
IsSame-trans m n o h k = record {
  msg_id = h.msg_id ∙ k.msg_id;
  sender_uid = h.sender_uid ∙ k.sender_uid;
  receiver_uid = h.receiver_uid ∙ k.receiver_uid;
  content = h.content ∙ k.content;
  msg_type = h.msg_type ∙ k.msg_type;
  create_time = h.create_time ∙ k.create_time;
}

IsSound-add :
    (request : SendRequest) (id : ℕ) (rows : List Message)
    → IsNew id rows
    → IsSound rows
    → IsSound (rows ++ message_of request id ∷ [])
IsSound-add request id rows new s = record {
  ids = Apart-append_one Differs rows (message_of request id) s.ids new;
  times = All-append_one IsUntouched rows (message_of request id) (λ e. (refl, refl)) s.times;
}

-- The rows after a call, by the rows before: sound if they were, and with every message kept.
pub record IsStep (rows after : List Message) : Type 0 where
  pub sound : IsSound rows → IsSound after
  pub kept : (x : Message) → IsIn x rows → IsSound rows → (y : Message) × IsIn y after × IsSame x y

still : (rows : List Message) → IsStep rows rows
still rows = record { sound = λ s. s; kept = λ x m s. (x, m, IsSame-refl x) }

added :
    (request : SendRequest) (id : ℕ) (rows : List Message)
    → IsNew id rows
    → IsStep rows (rows ++ message_of request id ∷ [])
added request id rows new = record {
  sound = IsSound-add request id rows new;
  kept = λ x m s. (x, IsIn-append_left x rows (message_of request id ∷ []) m, IsSame-refl x);
}

sent-IsStep :
    (request : SendRequest) (rows after : List Message) (result : SendResult)
    → Sends request rows result after
    → IsStep rows after
sent-IsStep request rows after (ok m) (can, row, new, grown) =
    subst (IsStep rows) (sym (grown ∙ ap (λ r. rows ++ r ∷ []) row))
      (added request m.msg_id rows new)
sent-IsStep request rows after (err empty_sender) (e, same) = rw same (still rows)
sent-IsStep request rows after (err empty_receiver) (e, f, same) = rw same (still rows)
sent-IsStep request rows after (err empty_content) (e, f, g, same) = rw same (still rows)
sent-IsStep request rows after (err persist_failed) (can, inl same) = rw same (still rows)
sent-IsStep request rows after (err persist_failed) (can, inr (id, new, grown)) =
    rw grown (added request id rows new)

one_row :
    (rows : List Message) (x y : Message)
    → Apart Differs rows
    → IsIn x rows
    → IsIn y rows
    → x.msg_id ≡ y.msg_id
    → x ≡ y
one_row rows x y ids mx my same =
    Apart-eq Differs rows x y ids mx my (λ differ. ne_of_test x.msg_id y.msg_id differ same)
      (λ differ. ne_of_test y.msg_id x.msg_id differ (sym same))

-- A mark keeps what no call changes, and leaves status SENT.
pub record IsMark (change : Message → Message) : Type 0 where
  pub same : (m : Message) → IsSame m (change m)
  pub unsent : (m : Message) → is_sent (change m).status ≡ false

marked-IsStep :
    (change : Message → Message) (old : Message) (rows : List Message)
    → IsMark change
    → IsIn old rows
    → IsStep rows (replace message_schema (change old) rows)
marked-IsStep change old rows mark here = record {
  sound = λ s. record {
    ids =
        Apart-replace message_schema Differs old (change old) rows
          (λ x m same. one_row rows x old s.ids m here (same ∙ sym (mark.same old).msg_id))
          (λ x. subst (λ k. (x.msg_id == k) ≡ false) (mark.same old).msg_id)
          (λ x. subst (λ k. (k == x.msg_id) ≡ false) (mark.same old).msg_id) s.ids;
    times =
        All-replace message_schema IsUntouched (change old) rows (λ e. cc (e, mark.unsent old))
          s.times;
  };
  kept = λ x m s. elim (Bool-cases (x.msg_id == (change old).msg_id)) [
    | inl hit ↦
        let same : x ≡ old =
          one_row rows x old s.ids m here
            ((==_iff x.msg_id (change old).msg_id).0 hit ∙ sym (mark.same old).msg_id) in
        (
          change old,
          new-IsIn-replace message_schema old (change old) rows here (mark.same old).msg_id,
          subst (λ (z : Message). IsSame z (change old)) (sym same) (mark.same old),
        )
    | inr miss ↦ (x, rw miss at (replace-IsIn message_schema (change old) rows x m), IsSame-refl x)
  ];
}

pub delivered-IsMark : (time : ℤ) → IsMark (as_delivered time)
delivered-IsMark time = record {
  same = λ m. record {
    msg_id = refl;
    sender_uid = refl;
    receiver_uid = refl;
    content = refl;
    msg_type = refl;
    create_time = refl;
  };
  unsent = λ m. refl;
}

pub read-IsMark : (time : ℤ) → IsMark (as_read time)
read-IsMark time = record {
  same = λ m. record {
    msg_id = refl;
    sender_uid = refl;
    receiver_uid = refl;
    content = refl;
    msg_type = refl;
    create_time = refl;
  };
  unsent = λ m. refl;
}

module _ (db : Database) (table : MessageTable db) where
  open db use {Db}
  open table use {messages}

  abbrev pub step : Call → Db → Db
  step (sends request) d = (send_text_message db table request d).1
  step (delivers id time) d = (mark_delivered db table id time d).1
  step (reads id time) d = (mark_read db table id time d).1

  abbrev pub run : List Call → Db → Db
  run [] d = d
  run (c ∷ cs) d = run cs (step c d)

  Marks-IsStep :
      (change : Message → Message) (id : ℕ) (d t : Db) (b : Bool)
      → IsMark change
      → Marks db table change id d b t
      → IsStep (messages.rows d) (messages.rows t)
  Marks-IsStep change id d t true mark (old, here, key, after) =
      rw after (marked-IsStep change old (messages.rows d) mark here)
  Marks-IsStep change id d t false mark same =
      subst (λ s. IsStep (messages.rows d) (messages.rows s)) (sym same) (still (messages.rows d))

  step-IsStep : (c : Call) (d : Db) → IsStep (messages.rows d) (messages.rows (step c d))
  step-IsStep (sends request) d =
      sent-IsStep request _ _ _ (send_text_message-Sends db table request d)
  step-IsStep (delivers id time) d =
      Marks-IsStep (as_delivered time) id d _ _ (delivered-IsMark time)
        (mark_delivered-Marks db table id time d)
  step-IsStep (reads id time) d =
      Marks-IsStep (as_read time) id d _ _ (read-IsMark time) (mark_read-Marks db table id time d)

  -- mark_delivered does not look at the status: a message that mark_read has just marked goes back
  -- from READ to DELIVERED, and keeps its time of reading.
  pub mark_read-mark_delivered :
      (id : ℕ) (t u : ℤ) (d d₁ d₂ : Db)
      → mark_read db table id t d ≡ (true, d₁)
      → mark_delivered db table id u d₁ ≡ (true, d₂)
      → IsSound (messages.rows d)
      → (x : Message) × IsIn x (messages.rows d₂)
        × (x.msg_id ≡ id)
        × (x.status ≡ delivered)
        × (x.delivered_time ≡ u)
        × (x.read_time ≡ t)
  mark_read-mark_delivered id t u d d₁ d₂ h k s =
      let (old, here, key, after) =
        subst (λ r. Marks db table (as_read t) id d r.0 r.1) h (mark_read-Marks db table id t d) in
      let (old', here', key', after') =
        subst (λ r. Marks db table (as_delivered u) id d₁ r.0 r.1) k
          (mark_delivered-Marks db table id u d₁) in
      let there : IsIn (as_read t old) (messages.rows d₁) =
        subst (IsIn (as_read t old)) (sym after)
          (new-IsIn-replace message_schema old (as_read t old) (messages.rows d) here refl) in
      let sound : IsSound (messages.rows d₁) =
        subst IsSound (sym after)
          ((marked-IsStep (as_read t) old (messages.rows d) (read-IsMark t) here).sound s) in
      let same : old' ≡ as_read t old =
        one_row (messages.rows d₁) old' (as_read t old) sound.ids here' there (key' ∙ sym key) in
      (
        as_delivered u old',
        subst (IsIn (as_delivered u old')) (sym after') (
            new-IsIn-replace message_schema old' (as_delivered u old') (messages.rows d₁) here'
              refl),
        key',
        refl,
        refl,
        ap (λ (m : Message). m.read_time) same,
      )

  -- No sequence of sends, delivery marks and read marks, failed ones included, loses a message or
  -- changes its id, users, content, type or time of creation: it is there after them all.
  pub run-IsSame :
      (cs : List Call) (d : Db)
      → IsSound (messages.rows d)
      → (x : Message) → IsIn x (messages.rows d)
      → (y : Message) × IsIn y (messages.rows (run cs d)) × IsSame x y
  run-IsSame [] d s x m = (x, m, IsSame-refl x)
  run-IsSame (c ∷ cs) d s x m =
      let next = step-IsStep c d in
      let (y, my, e) = next.kept x m s in
      let (z, mz, f) = run-IsSame cs (step c d) (next.sound s) y my in
      (z, mz, IsSame-trans x y z e f)

  -- Every sequence of these calls keeps the message ids distinct, and a message in status SENT
  -- without a delivery and a read time.
  pub run_messages-IsSound :
      (cs : List Call) (d : Db) → IsSound (messages.rows d) → IsSound (messages.rows (run cs d))
  run_messages-IsSound [] d s = s
  run_messages-IsSound (c ∷ cs) d s = run_messages-IsSound cs (step c d) ((step-IsStep c d).sound s)
