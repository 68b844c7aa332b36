-- ===== src/Message/Status.antt =====
-- Delivery and read marks (MessageService::mark_delivered and mark_read), and what pull_offline shows.
use mathlib.Core.Option
use my_chat.Prelude.{
  ℕ, String, ◌≡◌, ◌∙◌, refl, sym, ap, ◌⊎◌, inl, inr, Bool, true, false, Option, none, some, arith,
  IsIn, IsIn-select, IsIn-Permᴰ, Option-cases, nat_comparable, string_comparable, or_empty,
}
use my_chat.Prelude.Int.{ℤ, pos, positive_or}
use my_chat.Storage.{Database, attempt, updated, sorted_by, replace, ascending}
use my_chat.Storage.Laws.{rows-updated, sorted_by_rows}
use my_chat.Message.{
  Message, MessageTable, message_schema, delivered, read, is_sent, undelivered, int64_max,
  mark_delivered, mark_read, pull_offline, find_offline,
}
use my_chat.Message.Paging.{collect-IsIn}

abbrev pub as_delivered : ℤ → Message → Message
as_delivered time m = record m { status = delivered; delivered_time = time }

abbrev pub as_read : ℤ → Message → Message
as_read time m = record m { status = read; read_time = time }

module _ (db : Database) (table : MessageTable db) where
  open db use {Db}
  open table use {messages, sorter}

  attempt_cases :
      (o : Option (Message × Db)) (d t : Db) (b : Bool)
      → attempt d (Option.map (λ s. s.1) o) ≡ (b, t)
      → (((m : Message) × (o ≡ some (m, t)) × (b ≡ true)) ⊎ ((b ≡ false) × (t ≡ d)))
  attempt_cases none d t b h = inr (cc, cc)
  attempt_cases (some (m, d')) d t b h =
      let e₁ : d' ≡ t = ap (λ p. p.1) h in
      let e₂ : true ≡ b = ap (λ p. p.0) h in inl (m, rw e₁ refl, sym e₂)

  -- A mark that succeeds changes the one row of its id, and one that fails changes nothing.
  abbrev pub Marks : (Message → Message) → ℕ → Db → Bool → Db → Type 0
  Marks change id d true t =
      (old : Message) × IsIn old (messages.rows d)
      × (old.msg_id ≡ id)
      × (messages.rows t ≡ replace message_schema (change old) (messages.rows d))
  Marks change id d false t = t ≡ d

  marks :
      (change : Message → Message) (id : ℕ) (d t : Db) (b : Bool)
      → attempt d (Option.map (λ s. s.1) (updated messages id change d)) ≡ (b, t)
      → Marks change id d b t
  marks change id d t b h = elim (attempt_cases (updated messages id change d) d t b h) [
    | inl (m, e, done) ↦
        let (old, here, key, changed, after) = rows-updated messages id change d m t e in
        rw done
          (old, here, key, after ∙ ap (λ r. replace message_schema r (messages.rows d)) changed)
    | inr (failure, same) ↦ rw failure same
  ]

  pub mark_delivered-Marks :
      (id : ℕ) (time : ℤ) (d : Db)
      → Marks
          (as_delivered time)
          id
          d
          (mark_delivered db table id time d).0
          (mark_delivered db table id time d).1
  unfolding mark_delivered
  mark_delivered-Marks id time d = marks (as_delivered time) id d _ _ refl

  pub mark_read-Marks :
      (id : ℕ) (time : ℤ) (d : Db)
      → Marks (as_read time) id d (mark_read db table id time d).0 (mark_read db table id time d).1
  unfolding mark_read
  mark_read-Marks id time d = marks (as_read time) id d _ _ refl

  answered :
      (p : Message → Bool) (d : Db) (x : Message)
      → IsIn x (or_empty (sorted_by messages sorter p ascending (λ m. m.create_time) d))
      → IsIn x (messages.rows d) × (p x ≡ true)
  answered p d x m =
      elim (Option-cases (sorted_by messages sorter p ascending (λ m. m.create_time) d)) [
        | inl e ↦ absurd (rw e at m)
        | inr (rows, e) ↦
            let (perm, order) =
              sorted_by_rows messages sorter p ascending (λ m. m.create_time) d rows e in
            IsIn-select p x (messages.rows d) (IsIn-Permᴰ x perm (rw e at m))
      ]

  pub pulled-undelivered :
      (uid : String) (before limit : ℤ) (d : Db) (x : Message)
      → IsIn x (pull_offline db table uid before limit d)
      → IsIn x (messages.rows d) × (undelivered uid (positive_or before int64_max) x ≡ true)
  unfolding pull_offline find_offline
  pulled-undelivered uid before limit d x m =
      answered (undelivered uid (positive_or before int64_max)) d x
        (collect-IsIn (positive_or limit (pos 50)) x _ m)

  pub not_pulled :
      (uid : String) (before limit : ℤ) (t : Db) (x : Message)
      → IsIn x (pull_offline db table uid before limit t)
      → is_sent x.status ≡ true
  not_pulled uid before limit t x m = ground (arith, (pulled-undelivered uid before limit t x m).1)
