-- ===== src/Group/Messages.antt =====
-- services/group/group_message_service.cpp, its repository and services/odb/group_message.hpp:
-- messages to a group, which only its members may send.
use mathlib.Core.Bool.{false≢true}
use my_chat.Prelude.{
  ℕ, String, ◌≡◌, ◌≢◌, ◌∙◌, refl, sym, ap, ◌⊎◌, inl, inr, Bool, true, false, not, ◌&&◌, Option,
  none, some, List, [], ◌∷◌, ◌++◌, map, IsIn, nat_comparable, string_comparable, ◌==◌,
  if◌then◌else◌, Option-cases, Bool-cases, has_value, or_empty, Outcome, ok, err, failed,
  ne_of_test,
}
use my_chat.Prelude.Int.{ℤ, pos, ltz}
use my_chat.Storage.{
  Database, Schema, Table, Sorter, ascending, descending, persisted, sorted_by, limited_to,
}
use my_chat.Storage.Laws.{rows-persisted}
use my_chat.Storage.Paging.{IsPage, limited_to-IsPage}
use my_chat.User.{UserProfile}
use my_chat.Group.{
  GroupMember, GroupTables, group_exists, list_members, find_group_by_id, find_member,
  resolve_nickname, in_seat,
}
use my_chat.Group.Operations.{find_member_row}

pub record GroupMessage : Type 0 where
  pub id : ℕ
  pub group_id : ℕ
  pub sender_uid : String
  pub content : String
  pub created_at : ℤ

pub group_message_key-assign : (k : ℕ) (m : GroupMessage) → (record m { id = k }).id ≡ k
group_message_key-assign k m = refl

abbrev pub group_message_schema : Schema ℕ GroupMessage
group_message_schema = record {
  key = λ m. m.id;
  assign = λ k m. record m { id = k };
  conflicts = λ m n. false;
  key-assign = group_message_key-assign;
}

pub data GroupSendError : Type 0 where
  invalid_group empty_sender group_not_found forbidden store_failed : GroupSendError

-- What a successful GroupSendResult says: its msg_id.
abbrev pub GroupSendResult : Type 0
GroupSendResult = Outcome GroupSendError ℕ

pub record GroupMessageDto : Type 0 where
  pub msg_id : ℕ
  pub sender_uid : String
  pub sender_nickname : String
  pub content : String
  pub created_at : ℤ

abbrev pub in_group_before : ℕ → ℤ → GroupMessage → Bool
in_group_before id before m = (m.group_id == id) && ltz m.created_at before

abbrev pub in_group_after : ℕ → ℤ → GroupMessage → Bool
in_group_after id after m = (m.group_id == id) && ltz after m.created_at

abbrev pub is_empty {ℓ} : {A : Type ℓ} → List A → Bool
is_empty [] = true
is_empty (x ∷ xs) = false

-- The row that send_message writes.
abbrev pub message_row : ℕ → String → String → ℤ → GroupMessage
message_row id sender content now = record {
  id = 0;
  group_id = id;
  sender_uid = sender;
  content = content;
  created_at = now;
}

module _ (db : Database) (tables : GroupTables db) (chat : Table group_message_schema db)
    (sorter : Sorter group_message_schema chat) (profile_of : String → Option UserProfile) where
  open db use {Db}

  unfoldable pub create_message : GroupMessage → Db → Option (ℕ × Db)
  create_message m d = persisted chat m d

  unfoldable pub find_by_group : ℕ → ℤ → ℤ → Db → List GroupMessage
  find_by_group id before limit d =
      or_empty
        (limited_to chat sorter (in_group_before id before) descending (λ m. m.created_at) limit d)

  unfoldable pub find_offline : ℕ → ℤ → Db → List GroupMessage
  find_offline id after d =
      or_empty (sorted_by chat sorter (in_group_after id after) ascending (λ m. m.created_at) d)

  unfoldable pub send_message : ℕ → String → String → ℤ → Db → GroupSendResult × Db
  send_message id sender content now d =
      let m : GroupMessage = record {
        id = 0;
        group_id = id;
        sender_uid = sender;
        content = content;
        created_at = now;
      } in
      if id == 0
      then (err invalid_group, d)
      else if sender == ""
      then (err empty_sender, d)
      else if not (group_exists db tables id d)
      then (err group_not_found, d)
      else if is_empty (list_members db tables profile_of id sender d)
      then (err forbidden, d)
      else elim (create_message m d) [ none ↦ (err store_failed, d) | some (k, d') ↦ (ok k, d') ]

  unfoldable pub to_dto : GroupMessage → GroupMessageDto
  to_dto m = record {
    msg_id = m.id;
    sender_uid = m.sender_uid;
    sender_nickname = resolve_nickname db tables profile_of m.sender_uid;
    content = m.content;
    created_at = m.created_at;
  }

  unfoldable pub get_history : ℕ → ℤ → ℤ → Db → List GroupMessageDto
  get_history id before limit d = map to_dto (find_by_group id before limit d)

  -- A message is stored only for a user with a seat in the group, under a new id.
  pub record Posts (id : ℕ) (sender content : String) (now : ℤ) (d : Db) (r : GroupSendResult × Db)
      : Type 0 where
    pub msg_id : ℕ
    pub reply : r.0 ≡ ok msg_id
    pub signed : sender ≢ ""
    pub seat : GroupMember
    pub seated : IsIn seat (tables.members.rows d) × (in_seat id sender seat ≡ true)
    pub new : (x : GroupMessage) → IsIn x (chat.rows d) → (x.id == msg_id) ≡ false
    pub after :
        chat.rows r.1
        ≡ chat.rows d
          ++ record {
            id = msg_id;
            group_id = id;
            sender_uid = sender;
            content = content;
            created_at = now;
          }
            ∷ []

  stored :
      (m : GroupMessage) (d : Db) (k : ℕ) (t : Db)
      → create_message m d ≡ some (k, t)
      → (chat.rows t ≡ chat.rows d ++ record m { id = k } ∷ [])
        × ((x : GroupMessage) → IsIn x (chat.rows d) → (x.id == k) ≡ false)
  unfolding create_message
  stored m d k t e =
      let (grown, new) = rows-persisted chat m d k t e in (grown, λ x mx. (new x mx).0)

  seat_of :
      (id : ℕ) (uid : String) (d : Db)
      → is_empty (list_members db tables profile_of id uid d) ≡ false
      → (m : GroupMember) × IsIn m (tables.members.rows d) × (in_seat id uid m ≡ true)
  unfolding list_members
  seat_of id uid d h = elim (Option-cases (find_member db tables id uid d)) [
    | inl e ↦
        let nobody : list_members db tables profile_of id uid d ≡ [] =
          elim (Bool-cases (has_value (find_group_by_id db tables id d))) [
            | inl there ↦ rw (there, e) refl
            | inr lost ↦ rw lost refl
          ] in
        absurd (false≢true (sym h ∙ ap is_empty nobody))
    | inr (m, e) ↦ let (here, seat) = find_member_row db tables id uid d m e in (m, here, seat)
  ]

  -- send_message either refuses and leaves the database as it was, or the sender is named and has a
  -- seat in the group, and one message with the given fields has been added under a new id, which
  -- is the reply.
  pub send_message-Posts :
      (id : ℕ) (sender content : String) (now : ℤ) (d : Db)
      → ((failed (send_message id sender content now d).0 ≡ true)
          × ((send_message id sender content now d).1 ≡ d))
        ⊎ Posts id sender content now d (send_message id sender content now d)
  unfolding send_message
  send_message-Posts id sender content now d = elim (Bool-cases (id == 0)) [
    | inl e ↦ inl (rw e, rw e)
    | inr e₁ ↦ elim (Bool-cases (sender == "")) [
      | inl e ↦ inl (rw (e₁, e), rw (e₁, e))
      | inr e₂ ↦ elim (Bool-cases (group_exists db tables id d)) [
        | inr e ↦ inl (rw (e₁, e₂, e), rw (e₁, e₂, e))
        | inl e₃ ↦ elim (Bool-cases (is_empty (list_members db tables profile_of id sender d))) [
          | inl e ↦ inl (rw (e₁, e₂, e₃, e), rw (e₁, e₂, e₃, e))
          | inr e₄ ↦
              let (seat, here, seated) = seat_of id sender d e₄ in
              elim (Option-cases (create_message (message_row id sender content now) d)) [
                | inl e ↦ inl (rw (e₁, e₂, e₃, e₄, e), rw (e₁, e₂, e₃, e₄, e))
                | inr ((k, t), e) ↦
                    let (grown, new) = stored (message_row id sender content now) d k t e in
                    rw (e₁, e₂, e₃, e₄, e)
                      (inr (record {
                        msg_id = k;
                        reply = refl;
                        signed = ne_of_test sender "" e₂;
                        seat = seat;
                        seated = (here, seated);
                        new = new;
                        after = grown;
                      }))
              ]
        ]
      ]
    ]
  ]

  -- Where the query succeeds, get_history returns what to_dto makes of a page of the group's messages
  -- before the given time, newest first, with as many rows as the limit says.
  pub get_history-IsPage :
      (id : ℕ) (before : ℤ) (n : ℕ) (d : Db)
      → limited_to chat sorter (in_group_before id before) descending (λ m. m.created_at) (pos n) d
        ≢ none
      → (page : List GroupMessage) × (get_history id before (pos n) d ≡ map to_dto page)
        × IsPage descending (λ m. m.created_at) (in_group_before id before) n (chat.rows d) page
  unfolding get_history find_by_group
  get_history-IsPage id before n d answers = (
    _,
    refl,
    limited_to-IsPage chat sorter descending (λ m. m.created_at) (in_group_before id before) n d
        answers,
  )
