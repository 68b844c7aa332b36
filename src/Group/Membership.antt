-- ===== src/Group/Membership.antt =====
-- Membership as the group service reports it, after a user has joined or left.
use mathlib.Core.Bool.{false≢true}
use my_chat.Prelude.{
  ◌&&◌, ℕ, String, ◌≡◌, ◌≢◌, ◌∙◌, refl, sym, ap, subst, inl, inr, true, false, Option, none, some,
  List, [], ◌∷◌, IsIn, IsIn-append_right, IsIn-select, nat_comparable, string_comparable, ◌==◌,
  ==_iff, if◌then◌else◌, Option-cases, Bool-cases, first, ok, failed,
}
use my_chat.Prelude.Int.{ℤ, positive_or}
use my_chat.Storage.{Database, fetched}
use my_chat.Storage.Laws.{IsIn-fetched}
use my_chat.User.{UserProfile}
use my_chat.Group.{
  GroupMember, GroupTables, joined, left, in_seat, find_member, join_group, leave_group,
}
use my_chat.Group.Operations.{find_member_row, member_row, join_group-Joins, leave_group-Leaves}

vacated :
    (id : ℕ) (uid : String) (m : GroupMember)
    → (if in_seat id uid m then false else true) ≡ true
    → in_seat id uid m ≡ false
vacated id uid m h = elim (Bool-cases (in_seat id uid m)) [
  | inl seat ↦ absurd (false≢true (rw seat at h))
  | inr free ↦ free
]

own_seat : (id : ℕ) (uid : String) → ((id == id) && (uid == uid)) ≡ true
own_seat id uid = rw ((==_iff id id).1 refl, (==_iff uid uid).1 refl) refl

module _ (db : Database) (tables : GroupTables db) where
  open db use {Db}
  open tables use {members}

  no_seat :
      (id : ℕ) (uid : String) (d : Db)
      → ((m : GroupMember) → IsIn m (members.rows d) → in_seat id uid m ≡ false)
      → find_member db tables id uid d ≡ none
  no_seat id uid d free = elim (Option-cases (find_member db tables id uid d)) [
    | inl e ↦ e
    | inr (m, e) ↦
        let (here, seat) = find_member_row db tables id uid d m e in cc (seat, free m here)
  ]

  seat_found :
      (id : ℕ) (uid : String) (d : Db) (m : GroupMember)
      → fetched members (in_seat id uid) d ≢ none
      → IsIn m (members.rows d)
      → in_seat id uid m ≡ true
      → (x : GroupMember) × (find_member db tables id uid d ≡ some x)
  unfolding find_member
  seat_found id uid d m answers here seat =
      elim (Option-cases (fetched members (in_seat id uid) d)) [
        | inl e ↦ absurd (answers e)
        | inr (rs, e) ↦
            let (x, first_x) =
              some_first rs (IsIn-fetched members (in_seat id uid) d rs e m here seat) in
            (x, rw e first_x)
      ]
    where
      some_first : (rs : List GroupMember) → IsIn m rs → (x : GroupMember) × (first rs ≡ some x)
      some_first [] h = absurd h
      some_first (x ∷ rs) h = (x, refl)

  module _ (profile_of : String → Option UserProfile) where
    -- After a user has left a group, the group has no seat of that user, and find_member finds none.
    pub leave_group-find_member :
        (id : ℕ) (uid : String) (d : Db)
        → (leave_group db tables profile_of id uid d).0 ≡ ok left
        → find_member db tables id uid (leave_group db tables profile_of id uid d).1 ≡ none
    leave_group-find_member id uid d done =
        elim (leave_group-Leaves db tables profile_of id uid d) [
          | inl (refused, _) ↦ absurd (false≢true (sym (ap failed done) ∙ refused))
          | inr (_, _, _, after) ↦
              no_seat id uid (leave_group db tables profile_of id uid d).1 (λ m here.
                vacated id uid m (IsIn-select _ m (members.rows d) (subst (IsIn m) after here)).1)
        ]

    -- After a user has joined a group, find_member finds a seat of that user there, if the query
    -- succeeds.
    pub join_group-find_member :
        (id : ℕ) (uid : String) (t clock : ℤ) (d : Db)
        → (join_group db tables profile_of id uid t clock d).0 ≡ ok joined
        → fetched members (in_seat id uid) (join_group db tables profile_of id uid t clock d).1
          ≢ none
        → (m : GroupMember) × (find_member db tables id uid
              (join_group db tables profile_of id uid t clock d).1
            ≡ some m)
          × (in_seat id uid m ≡ true)
    join_group-find_member id uid t clock d done answers =
        elim (join_group-Joins db tables profile_of id uid t clock d) [
          | inl (refused, _) ↦ absurd (false≢true (sym (ap failed done) ∙ refused))
          | inr (_, _, _, _, _, (k, after, _)) ↦
              let row : GroupMember = record (member_row id uid (positive_or t clock)) { id = k } in
              let here : IsIn row
                  (members.rows (join_group db tables profile_of id uid t clock d).1) =
                subst (IsIn row) (sym after)
                  (IsIn-append_right row (members.rows d) (row ∷ []) (inl refl)) in
              let seat : in_seat id uid row ≡ true = own_seat id uid in
              let (m, found) = seat_found id uid _ row answers here seat in
              (m, found, (find_member_row db tables id uid _ m found).1)
        ]
