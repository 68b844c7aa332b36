-- ===== src/Group/Admission.antt =====
-- Exactly when the group services accept a call.
use my_chat.Prelude.{
  ◌⊎◌, ℕ, String, ◌≡◌, ◌≢◌, ◌↔◌, true, false, Option, arith, nat_comparable, string_comparable,
  ==_iff, has_value, failed,
}
use my_chat.Prelude.Int.{ℤ, positive_or}
use my_chat.Storage.{Database, Table, Sorter}
use my_chat.User.{UserProfile}
use my_chat.Group.{
  GroupTables, find_group_by_id, find_member, add_member, join_group, list_members, group_exists,
}
use my_chat.Group.Operations.{member_row, Refused, Joins, join_group-Joins}
use my_chat.Group.Messages.{
  Posts, send_message-Posts, group_message_schema, message_row, create_message, send_message,
  is_empty,
}

module _ (db : Database) (tables : GroupTables db) (profile_of : String → Option UserProfile) where
  open db use {Db}

  -- join_group refuses and changes nothing, or gives the user one new seat; it succeeds exactly if the group is found, the uid is not empty and that of a known user,
  -- no seat of the user is found, and the new seat can be stored.
  pub join_group_lem :
      (group_id : ℕ) (uid : String) (t clock : ℤ) (d : Db)
      → (Refused db tables d (join_group db tables profile_of group_id uid t clock d)
          ⊎ Joins db tables profile_of group_id uid
              (positive_or t clock)
              d
              (join_group db tables profile_of group_id uid t clock d))
        × ((failed (join_group db tables profile_of group_id uid t clock d).0 ≡ false) ↔ (
            (has_value (find_group_by_id db tables group_id d) ≡ true)
            × (uid ≢ "")
            × (has_value (profile_of uid) ≡ true)
            × (has_value (find_member db tables group_id uid d) ≡ false)
            × ((add_member db tables (member_row group_id uid (positive_or t clock)) d).0 ≡ true)))
  unfolding join_group
  join_group_lem group_id uid t clock d =
      (join_group-Joins db tables profile_of group_id uid t clock d, ground (arith, ==_iff uid ""))

  module _ (chat : Table group_message_schema db) (sorter : Sorter group_message_schema chat) where
    -- send_message refuses and changes nothing, or adds one message of a sender with a seat in the
    -- group; it succeeds exactly if the group number is not 0, the sender is not empty, the group is
    -- found, list_members shows the sender any members, and the message can be stored.
    pub send_message_lem :
        (id : ℕ) (sender content : String) (now : ℤ) (d : Db)
        → (((failed (send_message db tables chat sorter profile_of id sender content now d).0
                ≡ true)
              × ((send_message db tables chat sorter profile_of id sender content now d).1 ≡ d))
            ⊎ Posts db tables chat sorter profile_of id sender content now d
                (send_message db tables chat sorter profile_of id sender content now d))
          × ((failed (send_message db tables chat sorter profile_of id sender content now d).0
                ≡ false)
              ↔ ((id ≢ 0)
                  × (sender ≢ "")
                  × (has_value (find_group_by_id db tables id d) ≡ true)
                  × (is_empty (list_members db tables profile_of id sender d) ≡ false)
                  × (has_value (
                        create_message db tables chat sorter profile_of
                          (message_row id sender content now)
                          d)
                      ≡ true)))
    unfolding send_message group_exists
    send_message_lem id sender content now d = (
      send_message-Posts db tables chat sorter profile_of id sender content now d,
      ground (arith, ==_iff id 0, ==_iff sender ""),
    )
