-- ===== src/Group/Operations.antt =====
-- What creating, joining and leaving a group does (services/group/group_service.cpp), on every
-- branch: a refusal with the database untouched, or one change of the tables.
use mathlib.Core.Bool.{false≢true}
use my_chat.Prelude.{
  ne_of_test, ℕ, String, ◌≡◌, ◌≢◌, ◌⊎◌, inl, inr, true, false, Option, none, some, List, [], ◌∷◌,
  ◌++◌, IsIn, nat_comparable, string_comparable, ◌==◌, select, if◌then◌else◌, Option-cases,
  Bool-cases, has_value, first, ok, failed, >>=-eq-some,
}
use my_chat.Prelude.Int.{ℤ, positive_or}
use my_chat.Storage.{Database, fetched}
use my_chat.Storage.Laws.{loaded_row, fetched-IsIn}
use my_chat.User.{UserProfile}
use my_chat.Group.{
  Group, GroupMember, GroupTables, GroupResult, CreateGroupRequest, owner, member, is_owner,
  in_seat, same_seat, created, joined, left, create_group_with_owner, find_group_by_id, find_member,
  create, join_group, leave_as, leave_group,
}
use my_chat.Group.Tables.{Founded, create-Founded, add_member_cases, remove_member_cases}

first-IsIn : (x : GroupMember) (xs : List GroupMember) → first xs ≡ some x → IsIn x xs
first-IsIn x [] e = cc
first-IsIn x (y ∷ xs) e = inl (cc)

-- The rows that the service writes.
abbrev pub group_row : CreateGroupRequest → ℤ → Group
group_row request clock = record {
  group_id = 0;
  name = request.name;
  creator_uid = request.creator_uid;
  created_at = positive_or request.now_ms clock;
}

abbrev pub owner_row : CreateGroupRequest → ℤ → GroupMember
owner_row request clock = record {
  id = 0;
  group_id = 0;
  user_uid = request.creator_uid;
  role = owner;
  joined_at = positive_or request.now_ms clock;
}

abbrev pub member_row : ℕ → String → ℤ → GroupMember
member_row group_id uid joined_at = record {
  id = 0;
  group_id = group_id;
  user_uid = uid;
  role = member;
  joined_at = joined_at;
}

module _ (db : Database) (tables : GroupTables db) where
  open db use {Db}
  open tables use {groups, members}

  pub find_member_row :
      (id : ℕ) (uid : String) (d : Db) (m : GroupMember)
      → find_member db tables id uid d ≡ some m
      → IsIn m (members.rows d) × (in_seat id uid m ≡ true)
  unfolding find_member
  find_member_row id uid d m h =
      let (rows, p, e) = >>=-eq-some (fetched members (in_seat id uid) d) _ h in
      fetched-IsIn members (in_seat id uid) d rows p m (first-IsIn m rows e)

  pub find_group_row :
      (id : ℕ) (d : Db) (g : Group)
      → find_group_by_id db tables id d ≡ some g
      → IsIn g (groups.rows d) × (g.group_id ≡ id)
  unfolding find_group_by_id
  find_group_row id d g h = loaded_row groups id d g h

  -- A refusal leaves the database as it was.
  abbrev pub Refused : Db → GroupResult × Db → Type 0
  Refused d r = (failed r.0 ≡ true) × (r.1 ≡ d)

  module _ (profile_of : String → Option UserProfile) where
    abbrev pub Creates : CreateGroupRequest → ℤ → Db → GroupResult × Db → Type 0
    Creates request clock d r =
        (k : ℕ) × (r.0 ≡ ok (created k))
        × (request.name ≢ "")
        × (request.creator_uid ≢ "")
        × (has_value (profile_of request.creator_uid) ≡ true)
        × Founded db tables (group_row request clock) (owner_row request clock) d k r.1

    create_found :
        (request : CreateGroupRequest) (clock : ℤ) (d : Db)
        → (create_group_with_owner db tables (group_row request clock) (owner_row request clock) d
            ≡ none)
          ⊎ ((k : ℕ) × (t : Db) × (create_group_with_owner db tables
                  (group_row request clock)
                  (owner_row request clock)
                  d
                ≡ some (k, t))
              × Founded db tables (group_row request clock) (owner_row request clock) d k t)
    create_found request clock d =
        elim (Option-cases (
          create_group_with_owner db tables (group_row request clock) (owner_row request clock)
            d)) [
              | inl e ↦ inl e
              | inr ((k, t), e) ↦ inr (k, t, e, create-Founded db tables _ _ d k t e)
            ]

    -- A group is created only with a name, for a user who exists, and together with its owner.
    pub create-Creates :
        (request : CreateGroupRequest) (clock : ℤ) (d : Db)
        → Refused d (create db tables profile_of request clock d)
          ⊎ Creates request clock d (create db tables profile_of request clock d)
    unfolding create
    create-Creates request clock d = elim (Bool-cases (request.name == "")) [
      | inl blank ↦ inl (rw blank, rw blank)
      | inr named ↦ elim (Bool-cases (request.creator_uid == "")) [
        | inl blank ↦ inl (rw (named, blank), rw (named, blank))
        | inr signed ↦ elim (Bool-cases (has_value (profile_of request.creator_uid))) [
          | inr unknown ↦ inl (rw (named, signed, unknown), rw (named, signed, unknown))
          | inl known ↦ elim (create_found request clock d) [
            | inl e ↦ inl (rw (named, signed, known, e), rw (named, signed, known, e))
            | inr (k, t, e, founded) ↦ inr (
              k,
              rw (named, signed, known, e),
              ne_of_test request.name "" named,
              ne_of_test request.creator_uid "" signed,
              known,
              rw (named, signed, known, e) founded,
            )
          ]
        ]
      ]
    ]

    abbrev pub Joins : ℕ → String → ℤ → Db → GroupResult × Db → Type 0
    Joins group_id uid joined_at d r =
        (r.0 ≡ ok joined)
        × (uid ≢ "")
        × (has_value (profile_of uid) ≡ true)
        × ((g : Group) × IsIn g (groups.rows d) × (g.group_id ≡ group_id))
        × (groups.rows r.1 ≡ groups.rows d)
        × ((k : ℕ) × (members.rows r.1
              ≡ members.rows d ++ record (member_row group_id uid joined_at) { id = k } ∷ [])
            × ((x : GroupMember)
                → IsIn x (members.rows d)
                → ((x.id == k) ≡ false)
                  × (same_seat x (member_row group_id uid joined_at) ≡ false)))

    group_known :
        (id : ℕ) (d : Db)
        → has_value (find_group_by_id db tables id d) ≡ true
        → (g : Group) × IsIn g (groups.rows d) × (g.group_id ≡ id)
    group_known id d h = elim (Option-cases (find_group_by_id db tables id d)) [
      | inl e ↦ absurd (false≢true (cc (e, h)))
      | inr (g, e) ↦ let (n, key) = find_group_row id d g e in (g, n, key)
    ]

    -- A user who exists joins a group that exists by one new seat, which was free.
    pub join_group-Joins :
        (group_id : ℕ) (uid : String) (t clock : ℤ) (d : Db)
        → Refused d (join_group db tables profile_of group_id uid t clock d)
          ⊎ Joins group_id uid
              (positive_or t clock)
              d
              (join_group db tables profile_of group_id uid t clock d)
    unfolding join_group
    join_group-Joins group_id uid t clock d =
        elim (Bool-cases (has_value (find_group_by_id db tables group_id d))) [
          | inr lost ↦ inl (rw lost, rw lost)
          | inl there ↦ elim (Bool-cases (uid == "")) [
            | inl blank ↦ inl (rw (there, blank), rw (there, blank))
            | inr named ↦ elim (Bool-cases (has_value (profile_of uid))) [
              | inr unknown ↦ inl (rw (there, named, unknown), rw (there, named, unknown))
              | inl known ↦ elim (Bool-cases (has_value (find_member db tables group_id uid d))) [
                | inl seated ↦
                    inl (rw (there, named, known, seated), rw (there, named, known, seated))
                | inr free ↦
                    elim (add_member_cases db tables (member_row group_id uid (positive_or t clock))
                      d) [
                        | inl e ↦
                            inl
                              (rw (there, named, known, free, e), rw (there, named, known, free, e))
                        | inr (k, t', e, same, after, new) ↦ inr (
                          rw (there, named, known, free, e),
                          ne_of_test uid "" named,
                          known,
                          group_known group_id d there,
                          rw (there, named, known, free, e) same,
                          (k, rw (there, named, known, free, e) after, new),
                        )
                      ]
              ]
            ]
          ]
        ]

    abbrev pub Leaves : ℕ → String → Db → GroupResult × Db → Type 0
    Leaves group_id uid d r =
        (r.0 ≡ ok left)
        × ((m : GroupMember) × IsIn m (members.rows d)
            × (in_seat group_id uid m ≡ true)
            × (is_owner m.role ≡ false))
        × (groups.rows r.1 ≡ groups.rows d)
        × (members.rows r.1
            ≡ select (λ m. if in_seat group_id uid m then false else true) (members.rows d))

    leave_as-Leaves :
        (m : GroupMember) (group_id : ℕ) (uid : String) (d : Db)
        → IsIn m (members.rows d)
        → in_seat group_id uid m ≡ true
        → Refused d (leave_as db tables profile_of m group_id uid d)
          ⊎ Leaves group_id uid d (leave_as db tables profile_of m group_id uid d)
    unfolding leave_as
    leave_as-Leaves m group_id uid d n seat = elim (Bool-cases (is_owner m.role)) [
      | inl owns ↦ inl (rw owns, rw owns)
      | inr plain ↦ elim (remove_member_cases db tables group_id uid d) [
        | inl e ↦ inl (rw (plain, e), rw (plain, e))
        | inr (t, e, same, after) ↦
            inr (rw (plain, e), (m, n, seat, plain), rw (plain, e) same, rw (plain, e) after)
      ]
    ]

    -- A member who is not the owner leaves, and only that seat is removed.
    pub leave_group-Leaves :
        (group_id : ℕ) (uid : String) (d : Db)
        → Refused d (leave_group db tables profile_of group_id uid d)
          ⊎ Leaves group_id uid d (leave_group db tables profile_of group_id uid d)
    unfolding leave_group
    leave_group-Leaves group_id uid d =
        elim (Bool-cases (has_value (find_group_by_id db tables group_id d))) [
          | inr lost ↦ inl (rw lost, rw lost)
          | inl there ↦ elim (Option-cases (find_member db tables group_id uid d)) [
            | inl e ↦ inl (rw (there, e, leave_group), rw (there, e, leave_group))
            | inr (m, e) ↦
                let (n, seat) = find_member_row group_id uid d m e in
                rw (there, e, leave_group) (leave_as-Leaves m group_id uid d n seat)
          ]
        ]
