-- ===== src/Group.antt =====
-- services/group/group_service.cpp, its repository and services/odb/group.hpp: groups and members.
pub mod Tables
pub mod Operations
pub mod Invariant
pub mod Membership
pub mod Messages
pub mod Admission
mod Tests
use mathlib.Core.Option
use my_chat.Prelude.{
  ℕ, String, ◌≡◌, refl, Bool, true, false, not, ◌&&◌, Option, none, some, List, [], ◌∷◌, map, ◌==◌,
  string_comparable, nat_comparable, if◌then◌else◌, ◌>>=◌, has_value, first, or_empty, Outcome, ok,
  err, length,
}
use my_chat.Prelude.Int.{ℤ, pos, positive_or}
use my_chat.Storage.{
  Database, Schema, Table, Eraser, attempt, persisted, loaded, fetched, queried, erased,
}
use my_chat.User.{UserProfile}

pub data GroupRole : Type 0 where
  owner admin member : GroupRole

abbrev pub is_owner : GroupRole → Bool
is_owner owner = true
is_owner _ = false

pub record Group : Type 0 where
  pub group_id : ℕ
  pub name : String
  pub creator_uid : String
  pub created_at : ℤ

pub record GroupMember : Type 0 where
  pub id : ℕ
  pub group_id : ℕ
  pub user_uid : String
  pub role : GroupRole
  pub joined_at : ℤ

pub group_key-assign : (k : ℕ) (g : Group) → (record g { group_id = k }).group_id ≡ k
group_key-assign k g = refl

abbrev pub group_schema : Schema ℕ Group
group_schema = record {
  key = λ g. g.group_id;
  assign = λ k g. record g { group_id = k };
  conflicts = λ g h. false;
  key-assign = group_key-assign;
}

-- The unique index over (group_id, user_uid).
abbrev pub same_seat : GroupMember → GroupMember → Bool
same_seat m n = (m.group_id == n.group_id) && (m.user_uid == n.user_uid)

pub member_key-assign : (k : ℕ) (m : GroupMember) → (record m { id = k }).id ≡ k
member_key-assign k m = refl

abbrev pub member_schema : Schema ℕ GroupMember
member_schema = record {
  key = λ m. m.id;
  assign = λ k m. record m { id = k };
  conflicts = same_seat;
  key-assign = member_key-assign;
}

-- The two tables in one database: a write to one leaves the other as it was.
pub record GroupTables (db : Database) : Type 1 where
  pub groups : Table group_schema db
  pub members : Table member_schema db
  pub eraser : Eraser member_schema members
  pub group_frame :
      (g : Group) (d : db.Db) (k : ℕ) (t : db.Db)
      → groups.persist g d ≡ some (k, t)
      → members.rows t ≡ members.rows d
  pub member_frame :
      (m : GroupMember) (d : db.Db) (k : ℕ) (t : db.Db)
      → members.persist m d ≡ some (k, t)
      → groups.rows t ≡ groups.rows d
  pub erase_frame :
      (p : GroupMember → Bool) (d t : db.Db)
      → eraser.erase p d ≡ some t
      → groups.rows t ≡ groups.rows d

pub data GroupError : Type 0 where
  empty_name empty_creator creator_not_found persist_failed group_not_found : GroupError
  empty_uid user_not_found already_member not_member owner_cannot_leave remove_failed : GroupError

-- What a successful GroupResult says; `created` carries its group_id.
pub data GroupReply : Type 0 where
  created : ℕ → GroupReply
  joined left : GroupReply

abbrev pub GroupResult : Type 0
GroupResult = Outcome GroupError GroupReply

pub record CreateGroupRequest : Type 0 where
  pub name : String
  pub creator_uid : String
  pub now_ms : ℤ

pub record GroupInfo : Type 0 where
  pub group_id : ℕ
  pub name : String
  pub creator_uid : String
  pub created_at : ℤ
  pub member_count : ℕ

pub record MemberInfo : Type 0 where
  pub id : ℕ
  pub user_uid : String
  pub nickname : String
  pub role : GroupRole
  pub joined_at : ℤ

-- The queries of the repository.
abbrev pub in_group : ℕ → GroupMember → Bool
in_group id m = m.group_id == id

abbrev pub in_seat : ℕ → String → GroupMember → Bool
in_seat id uid m = (m.group_id == id) && (m.user_uid == uid)

abbrev pub is_user : String → GroupMember → Bool
is_user uid m = m.user_uid == uid

module _ (db : Database) (tables : GroupTables db) where
  open db use {Db, begin, commit}
  open tables use {groups, members, eraser}

  unfoldable pub create_group : Group → Db → Option (ℕ × Db)
  create_group g d = persisted groups g d

  -- One transaction for both rows; the owner's row takes the id that the group has been given.
  unfoldable pub create_group_with_owner : Group → GroupMember → Db → Option (ℕ × Db)
  create_group_with_owner g m d = do
    t ← begin d
    (group_id, t') ← groups.persist g t
    (_, t'') ← members.persist (record m { group_id = group_id }) t'
    t''' ← commit t''
    some (group_id, t''')

  unfoldable pub find_group_by_id : ℕ → Db → Option Group
  find_group_by_id id d = loaded groups id d

  unfoldable pub add_member : GroupMember → Db → Bool × Db
  add_member m d = attempt d (Option.map (λ s. s.1) (persisted members m d))

  unfoldable pub remove_member : ℕ → String → Db → Bool × Db
  remove_member id uid d = attempt d (erased members eraser (in_seat id uid) d)

  unfoldable pub find_members : ℕ → Db → List GroupMember
  find_members id d = or_empty (queried members (in_group id) d)

  unfoldable pub find_member : ℕ → String → Db → Option GroupMember
  find_member id uid d = do rows ← fetched members (in_seat id uid) d; first rows

  -- The groups of a list of seats, without those that cannot be loaded.
  unfoldable pub groups_of : List GroupMember → Db → List Group
  groups_of [] d = []
  groups_of (m ∷ ms) d =
      let rest = groups_of ms d in
      elim (find_group_by_id m.group_id d) [ none ↦ rest | some g ↦ g ∷ rest ]

  unfoldable pub update_member_role : ℕ → String → GroupRole → Db → Bool × Db
  update_member_role id uid role d = attempt d (do
    t ← begin d
    rows ← members.query (in_seat id uid) t
    m ← first rows
    t' ← members.update (record m { role = role }) t
    commit t')

  unfoldable pub find_groups_by_user : String → Db → List Group
  find_groups_by_user uid d = groups_of (or_empty (fetched members (is_user uid) d)) d

  unfoldable pub to_group_info : Db → Group → GroupInfo
  to_group_info d g = record {
    group_id = g.group_id;
    name = g.name;
    creator_uid = g.creator_uid;
    created_at = g.created_at;
    member_count = length (find_members g.group_id d);
  }

  unfoldable pub list_my_groups : String → Db → List GroupInfo
  list_my_groups uid d = map (to_group_info d) (find_groups_by_user uid d)

  unfoldable pub get_group_info : ℕ → Db → Option GroupInfo
  get_group_info id d = Option.map (to_group_info d) (find_group_by_id id d)

  unfoldable pub group_exists : ℕ → Db → Bool
  group_exists id d = has_value (find_group_by_id id d)

  -- user_service_->get_profile_by_uid
  module _ (profile_of : String → Option UserProfile) where
    unfoldable pub create : CreateGroupRequest → ℤ → Db → GroupResult × Db
    create request clock d =
        let t = positive_or request.now_ms clock in
        let g : Group = record {
          group_id = 0;
          name = request.name;
          creator_uid = request.creator_uid;
          created_at = t;
        } in
        let m : GroupMember = record {
          id = 0;
          group_id = 0;
          user_uid = request.creator_uid;
          role = owner;
          joined_at = t;
        } in
        if request.name == ""
        then (err empty_name, d)
        else if request.creator_uid == ""
        then (err empty_creator, d)
        else if not (has_value (profile_of request.creator_uid))
        then (err creator_not_found, d)
        else elim (create_group_with_owner g m d) [
          | none ↦ (err persist_failed, d)
          | some (id, d') ↦ (ok (created id), d')
        ]

    unfoldable pub join_group : ℕ → String → ℤ → ℤ → Db → GroupResult × Db
    join_group group_id user_uid t clock d =
        let m : GroupMember = record {
          id = 0;
          group_id = group_id;
          user_uid = user_uid;
          role = member;
          joined_at = positive_or t clock;
        } in
        let (done, d') = add_member m d in
        if not (has_value (find_group_by_id group_id d))
        then (err group_not_found, d)
        else if user_uid == ""
        then (err empty_uid, d)
        else if not (has_value (profile_of user_uid))
        then (err user_not_found, d)
        else if has_value (find_member group_id user_uid d)
        then (err already_member, d)
        else if not done
        then (err persist_failed, d')
        else (ok joined, d')

    -- The tail of leave_group, once the member has been found.
    unfoldable pub leave_as : GroupMember → ℕ → String → Db → GroupResult × Db
    leave_as m group_id user_uid d =
        let (done, d') = remove_member group_id user_uid d in
        if is_owner m.role
        then (err owner_cannot_leave, d)
        else if not done
        then (err remove_failed, d')
        else (ok left, d')

    unfoldable pub leave_group : ℕ → String → Db → GroupResult × Db
    leave_group group_id user_uid d =
        if not (has_value (find_group_by_id group_id d))
        then (err group_not_found, d)
        else elim (find_member group_id user_uid d) [
          | none ↦ (err not_member, d)
          | some m ↦ leave_as m group_id user_uid d
        ]

    unfoldable pub resolve_nickname : String → String
    resolve_nickname uid = elim (profile_of uid) [ none ↦ uid | some profile ↦ profile.nickname ]

    unfoldable pub to_member_info : GroupMember → MemberInfo
    to_member_info m = record {
      id = m.id;
      user_uid = m.user_uid;
      nickname = resolve_nickname m.user_uid;
      role = m.role;
      joined_at = m.joined_at;
    }

    unfoldable pub list_members : ℕ → String → Db → List MemberInfo
    list_members group_id caller_uid d =
        if not (has_value (find_group_by_id group_id d))
        then []
        else if not (has_value (find_member group_id caller_uid d))
        then []
        else map to_member_info (find_members group_id d)
