-- ===== src/Group/Tests.antt =====
-- Groups at concrete inputs, over three tables in memory.
use my_chat.Prelude.{
  ℕ, ap, String, ◌≡◌, ◌≢◌, ◌↔◌, has_value, ◌⊎◌, refl, sym, Bool, true, false, Option, some, List,
  [], ◌∷◌, select, string_comparable, nat_comparable, ok, failed, if◌then◌else◌,
}
use my_chat.Prelude.Int.{pos}
use my_chat.Storage.{Database, Table, Sorter, persisted, loaded, fetched, erased}
use my_chat.Storage.Memory.{memory, table, eraser, insert, insert_state, fresh, clashes, find}
use my_chat.Storage.Sorting.{sorter}
use my_chat.User.{UserProfile, unknown}
use my_chat.Group.{
  Group, GroupMember, GroupTables, CreateGroupRequest, group_schema, member_schema, owner, member,
  created, joined, left, create, join_group, leave_group, leave_as, create_group_with_owner,
  find_group_by_id, list_members, find_member, add_member, remove_member,
}
use my_chat.Group.Operations.{
  member_row, Refused, Joins, Creates, Leaves, create-Creates, leave_group-Leaves,
}
use my_chat.Group.Invariant.{Call, creates, joins, leaves, Sound, IsSound, run, run-Sound}
use my_chat.Group.Admission.{join_group_lem, send_message_lem}
use my_chat.Group.Messages.{
  is_empty, message_row, create_message, GroupMessage, group_message_schema, Posts, send_message,
}

record State : Type 0 where
  pub group_rows : List Group
  pub member_rows : List GroupMember
  pub message_rows : List GroupMessage

abbrev store : Database
store = memory State

group_rows-put : (xs : List Group) (d : State) → (record d { group_rows = xs }).group_rows ≡ xs
group_rows-put xs d = refl

member_rows-put :
    (xs : List GroupMember) (d : State) → (record d { member_rows = xs }).member_rows ≡ xs
member_rows-put xs d = refl

message_rows-put :
    (xs : List GroupMessage) (d : State) → (record d { message_rows = xs }).message_rows ≡ xs
message_rows-put xs d = refl

abbrev group_table : Table group_schema store
group_table =
    table group_schema (fresh (λ (g : Group). g.group_id)) (λ d. d.group_rows)
      (λ xs d. record d { group_rows = xs }) group_rows-put

abbrev member_table : Table member_schema store
member_table =
    table member_schema (fresh (λ (m : GroupMember). m.id)) (λ d. d.member_rows)
      (λ xs d. record d { member_rows = xs }) member_rows-put

abbrev chat : Table group_message_schema store
chat =
    table group_message_schema (fresh (λ (m : GroupMessage). m.id)) (λ d. d.message_rows)
      (λ xs d. record d { message_rows = xs }) message_rows-put

abbrev chat_sorter : Sorter group_message_schema chat
chat_sorter =
    sorter group_message_schema (fresh (λ (m : GroupMessage). m.id)) (λ d. d.message_rows)
      (λ xs d. record d { message_rows = xs }) message_rows-put

group_frame :
    (g : Group) (d : State) (k : ℕ) (t : State)
    → group_table.persist g d ≡ some (k, t)
    → t.member_rows ≡ d.member_rows
group_frame g d k t e =
    ap (λ (s : State). s.member_rows)
      (insert_state group_schema (fresh (λ (g : Group). g.group_id)) (λ d. d.group_rows)
        (λ xs d. record d { group_rows = xs }) group_rows-put g d k t e)

member_frame :
    (m : GroupMember) (d : State) (k : ℕ) (t : State)
    → member_table.persist m d ≡ some (k, t)
    → t.group_rows ≡ d.group_rows
member_frame m d k t e =
    ap (λ (s : State). s.group_rows)
      (insert_state member_schema (fresh (λ (m : GroupMember). m.id)) (λ d. d.member_rows)
        (λ xs d. record d { member_rows = xs }) member_rows-put m d k t e)

erase_frame :
    (p : GroupMember → Bool) (d t : State)
    → some (record d { member_rows = select (λ m. if p m then false else true) d.member_rows })
      ≡ some t
    → t.group_rows ≡ d.group_rows
erase_frame p d t e =
    let same : record d { member_rows = select (λ m. if p m then false else true) d.member_rows }
        ≡ t =
      cc in
    ap (λ (s : State). s.group_rows) (sym same)

abbrev tables : GroupTables store
tables = record {
  groups = group_table;
  members = member_table;
  eraser =
      eraser member_schema (fresh (λ (m : GroupMember). m.id)) (λ d. d.member_rows)
        (λ xs d. record d { member_rows = xs }) member_rows-put;
  group_frame = group_frame;
  member_frame = member_frame;
  erase_frame = erase_frame;
}

abbrev profile_of : String → Option UserProfile
profile_of uid = some (record {
  uid = uid;
  account = uid;
  nickname = uid;
  avatar = "";
  gender = unknown;
  signature = "";
  create_time = pos 0;
  last_login = pos 0;
  online = false;
})

abbrev request : CreateGroupRequest
request = record { name = "team"; creator_uid = "ann"; now_ms = pos 5 }

abbrev team : Group
team = record { group_id = 1; name = "team"; creator_uid = "ann"; created_at = pos 5 }

abbrev ann : GroupMember
ann = record { id = 1; group_id = 1; user_uid = "ann"; role = owner; joined_at = pos 5 }

abbrev bob : GroupMember
bob = record { id = 2; group_id = 1; user_uid = "bob"; role = member; joined_at = pos 6 }

abbrev nothing : State
nothing = record { group_rows = []; member_rows = []; message_rows = [] }

abbrev founded : State
founded = record { group_rows = team ∷ []; member_rows = ann ∷ []; message_rows = [] }

abbrev both : State
both = record founded { member_rows = ann ∷ bob ∷ [] }

create_adds : create store tables profile_of request (pos 0) nothing ≡ (ok (created 1), founded)
unfolding create create_group_with_owner insert fresh clashes find
create_adds = refl

join_adds : join_group store tables profile_of 1 "bob" (pos 6) (pos 0) founded ≡ (ok joined, both)
unfolding join_group find_group_by_id add_member persisted loaded find_member fetched insert fresh
    clashes find select
join_adds = refl

leave_removes : leave_group store tables profile_of 1 "bob" both ≡ (ok left, founded)
unfolding leave_group leave_as remove_member erased find_group_by_id loaded find_member fetched find
    select
leave_removes = refl

nothing-Sound : IsSound [] []
nothing-Sound = record {
  ids = tt;
  seats = tt;
  sole = tt;
  owned = λ g m. absurd m;
  housed = λ x m. absurd m;
}

abbrev calls : List Call
calls = creates request (pos 0) ∷ joins 1 "bob" (pos 6) (pos 0) ∷ leaves 1 "ann" ∷ []

run-Sound_example : Sound store tables profile_of (run store tables profile_of calls nothing)
run-Sound_example = run-Sound store tables profile_of calls nothing nothing-Sound

abbrev talk : State
talk = record both {
  message_rows =
      record { id = 1; group_id = 1; sender_uid = "bob"; content = "hi"; created_at = pos 7 } ∷ [];
}

join_group_lem_example :
    let bob : String = "bob" in
    (Refused store tables founded
        (join_group store tables profile_of 1 "bob" (pos 6) (pos 0) founded)
      ⊎ Joins store tables profile_of 1 "bob"
          (pos 6)
          founded
          (join_group store tables profile_of 1 "bob" (pos 6) (pos 0) founded))
    × ((failed (join_group store tables profile_of 1 "bob" (pos 6) (pos 0) founded).0 ≡ false) ↔ (
        (has_value (find_group_by_id store tables 1 founded) ≡ true)
        × (bob ≢ "")
        × (has_value (profile_of "bob") ≡ true)
        × (has_value (find_member store tables 1 "bob" founded) ≡ false)
        × ((add_member store tables (member_row 1 "bob" (pos 6)) founded).0 ≡ true)))
join_group_lem_example = join_group_lem store tables profile_of 1 "bob" (pos 6) (pos 0) founded

send_message_lem_example :
    let bob : String = "bob" in
    let id : ℕ = 1 in
    (((failed (send_message store tables chat chat_sorter profile_of 1 "bob" "hi" (pos 7) both).0
          ≡ true)
        × ((send_message store tables chat chat_sorter profile_of 1 "bob" "hi" (pos 7) both).1
            ≡ both))
      ⊎ Posts store tables chat chat_sorter profile_of 1 "bob" "hi"
          (pos 7)
          both
          (send_message store tables chat chat_sorter profile_of 1 "bob" "hi" (pos 7) both))
    × ((failed (send_message store tables chat chat_sorter profile_of 1 "bob" "hi" (pos 7) both).0
          ≡ false)
        ↔ ((id ≢ 0)
            × (bob ≢ "")
            × (has_value (find_group_by_id store tables 1 both) ≡ true)
            × (is_empty (list_members store tables profile_of 1 "bob" both) ≡ false)
            × (has_value (
                  create_message store tables chat chat_sorter profile_of
                    (message_row 1 "bob" "hi" (pos 7))
                    both)
                ≡ true)))
send_message_lem_example =
    send_message_lem store tables profile_of chat chat_sorter 1 "bob" "hi" (pos 7) both

create-Creates_example :
    Refused store tables nothing (create store tables profile_of request (pos 0) nothing)
    ⊎ Creates store tables profile_of request
        (pos 0)
        nothing
        (create store tables profile_of request (pos 0) nothing)
create-Creates_example = create-Creates store tables profile_of request (pos 0) nothing

leave_group-Leaves_example :
    Refused store tables both (leave_group store tables profile_of 1 "bob" both)
    ⊎ Leaves store tables profile_of 1 "bob" both (leave_group store tables profile_of 1 "bob" both)
leave_group-Leaves_example = leave_group-Leaves store tables profile_of 1 "bob" both
