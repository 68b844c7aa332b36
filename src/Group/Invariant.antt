-- ===== src/Group/Invariant.antt =====
-- What the tables of groups and members keep: one seat for each user of a group, and exactly one
-- owner, the creator, in each group.
use mathlib.Core.Bool.{false≢true}
use my_chat.Prelude.{
  ℕ, String, ◌≡◌, ◌∙◌, refl, sym, ap, subst, inl, inr, Bool, true, false, ◌&&◌, Option, List, [],
  ◌∷◌, ◌++◌, arith, IsIn, IsIn-append_left, IsIn-append_right, IsIn-append_cases, IsIn-select,
  IsIn-select_of, Apart, Apart-append_one, Apart-select, Apart-eq, nat_comparable,
  string_comparable, ◌==◌, ==_iff, select, if◌then◌else◌, Bool-cases,
}
use my_chat.Prelude.Int.{ℤ}
use my_chat.Storage.{Database}
use my_chat.User.{UserProfile}
use my_chat.Group.{
  Group, GroupMember, GroupTables, CreateGroupRequest, is_owner, in_seat, same_seat, create,
  join_group, leave_group,
}
use my_chat.Group.Operations.{create-Creates, join_group-Joins, leave_group-Leaves, group_row}

abbrev pub OtherGroup : Group → Group → Type 0
OtherGroup g h = (g.group_id == h.group_id) ≡ false

abbrev pub OtherSeat : GroupMember → GroupMember → Type 0
OtherSeat m n = same_seat m n ≡ false

-- Not both are owners of one group.
abbrev pub SoleOwner : GroupMember → GroupMember → Type 0
SoleOwner m n = ((is_owner m.role && is_owner n.role) && (m.group_id == n.group_id)) ≡ false

abbrev pub Owns : GroupMember → Group → Type 0
Owns m g = (m.group_id ≡ g.group_id) × (m.user_uid ≡ g.creator_uid) × (is_owner m.role ≡ true)

pub record IsSound (gs : List Group) (ms : List GroupMember) : Type 0 where
  pub ids : Apart OtherGroup gs
  pub seats : Apart OtherSeat ms
  pub sole : Apart SoleOwner ms
  pub owned : (g : Group) → IsIn g gs → (m : GroupMember) × IsIn m ms × Owns m g
  pub housed : (m : GroupMember) → IsIn m ms → (g : Group) × IsIn g gs × (g.group_id ≡ m.group_id)

-- No seat belongs to a group that is new.
elsewhere :
    (gs : List Group) (ms : List GroupMember) (g : Group) (m x : GroupMember)
    → IsSound gs ms
    → ((h : Group) → IsIn h gs → OtherGroup h g)
    → m.group_id ≡ g.group_id
    → IsIn x ms
    → (x.group_id == m.group_id) ≡ false
elsewhere gs ms g m x v new key n = let (h, mh, p) = v.housed x n in ground (arith, new h mh)

-- A new group with its owner.
found-IsSound :
    (gs : List Group) (ms : List GroupMember) (g : Group) (m : GroupMember)
    → IsSound gs ms
    → ((x : Group) → IsIn x gs → OtherGroup x g)
    → Owns m g
    → IsSound (gs ++ g ∷ []) (ms ++ m ∷ [])
found-IsSound gs ms g m v new owns = record {
  ids = Apart-append_one OtherGroup gs g v.ids new;
  seats =
      Apart-append_one OtherSeat ms m v.seats
        (λ x n. ground (arith, elsewhere gs ms g m x v new owns.0 n));
  sole =
      Apart-append_one SoleOwner ms m v.sole
        (λ x n. ground (arith, elsewhere gs ms g m x v new owns.0 n));
  owned = λ h n. elim (IsIn-append_cases h gs (g ∷ []) n) [
    | inl old ↦ let (o, mo, p) = v.owned h old in (o, IsIn-append_left o ms (m ∷ []) mo, p)
    | inr (inl e) ↦ (m, IsIn-append_right m ms (m ∷ []) (inl refl), subst (Owns m) (sym e) owns)
    | inr (inr never) ↦ absurd never
  ];
  housed = λ x n. elim (IsIn-append_cases x ms (m ∷ []) n) [
    | inl old ↦ let (h, mh, p) = v.housed x old in (h, IsIn-append_left h gs (g ∷ []) mh, p)
    | inr (inl e) ↦ (
      g,
      IsIn-append_right g gs (g ∷ []) (inl refl),
      sym owns.0 ∙ ap (λ (t : GroupMember). t.group_id) (sym e),
    )
    | inr (inr never) ↦ absurd never
  ];
}

-- A new member who is not an owner, in a group that exists.
seat-IsSound :
    (gs : List Group) (ms : List GroupMember) (g : Group) (m : GroupMember)
    → IsSound gs ms
    → IsIn g gs
    → g.group_id ≡ m.group_id
    → is_owner m.role ≡ false
    → ((x : GroupMember) → IsIn x ms → OtherSeat x m)
    → IsSound gs (ms ++ m ∷ [])
seat-IsSound gs ms g m v there key plain free = record {
  ids = v.ids;
  seats = Apart-append_one OtherSeat ms m v.seats free;
  sole = Apart-append_one SoleOwner ms m v.sole (λ x n. ground arith);
  owned = λ h n. let (o, mo, p) = v.owned h n in (o, IsIn-append_left o ms (m ∷ []) mo, p);
  housed = λ x n. elim (IsIn-append_cases x ms (m ∷ []) n) [
    | inl old ↦ v.housed x old
    | inr (inl e) ↦ (g, there, key ∙ ap (λ (t : GroupMember). t.group_id) (sym e))
    | inr (inr never) ↦ absurd never
  ];
}

same_seat-in_seat :
    (id : ℕ) (uid : String) (m n : GroupMember)
    → in_seat id uid m ≡ true
    → in_seat id uid n ≡ true
    → same_seat m n ≡ true
same_seat-in_seat id uid m n hm hn =
    ground (arith, ==_iff m.user_uid uid, ==_iff n.user_uid uid, ==_iff m.user_uid n.user_uid)

-- Freeing the seat of a member who is not an owner.
free-IsSound :
    (gs : List Group) (ms : List GroupMember) (id : ℕ) (uid : String) (m : GroupMember)
    → IsSound gs ms
    → IsIn m ms
    → in_seat id uid m ≡ true
    → is_owner m.role ≡ false
    → IsSound gs (select (λ x. if in_seat id uid x then false else true) ms)
free-IsSound gs ms id uid m v n seat plain = record {
  ids = v.ids;
  seats = Apart-select OtherSeat keeps ms v.seats;
  sole = Apart-select SoleOwner keeps ms v.sole;
  owned =
      λ g h. let (o, mo, p) = v.owned g h in (o, IsIn-select_of keeps o ms mo (kept o mo p.2), p);
  housed = λ x h. v.housed x (IsIn-select keeps x ms h).0;
}
  where
    keeps : GroupMember → Bool
    keeps x = if in_seat id uid x then false else true

    one : (o : GroupMember) → IsIn o ms → in_seat id uid o ≡ true → o ≡ m
    one o mo same =
        Apart-eq OtherSeat ms o m v.seats mo n
          (λ other. false≢true (cc (other, same_seat-in_seat id uid o m same seat)))
          (λ other. false≢true (cc (other, same_seat-in_seat id uid m o seat same)))

    kept : (o : GroupMember) → IsIn o ms → is_owner o.role ≡ true → keeps o ≡ true
    kept o mo owns = elim (Bool-cases (in_seat id uid o)) [
      | inr other ↦ rw other
      | inl same ↦ absurd (
          false≢true
            (sym plain ∙ ap (λ (t : GroupMember). is_owner t.role) (sym (one o mo same)) ∙ owns))
    ]

pub data Call : Type 0 where
  creates : CreateGroupRequest → ℤ → Call
  joins : ℕ → String → ℤ → ℤ → Call
  leaves : ℕ → String → Call

module _ (db : Database) (tables : GroupTables db) (profile_of : String → Option UserProfile) where
  open db use {Db}
  open tables use {groups, members}

  pub step : Call → Db → Db
  step (creates request clock) d = (create db tables profile_of request clock d).1
  step (joins id uid t clock) d = (join_group db tables profile_of id uid t clock d).1
  step (leaves id uid) d = (leave_group db tables profile_of id uid d).1

  pub run : List Call → Db → Db
  run [] d = d
  run (c ∷ cs) d = run cs (step c d)

  abbrev pub Sound : Db → Type 0
  Sound d = IsSound (groups.rows d) (members.rows d)

  step-Sound : (c : Call) (d : Db) → Sound d → Sound (step c d)
  unfolding step
  step-Sound (creates request clock) d v =
      elim (create-Creates db tables profile_of request clock d) [
        | inl (_, same) ↦ subst Sound (sym same) v
        | inr (k, _, _, _, _, founded) ↦
            subst (λ gs. IsSound gs (members.rows (step (creates request clock) d)))
              (sym founded.groups_after)
              (subst
                (λ ms.
                  IsSound (groups.rows d ++ record (group_row request clock) { group_id = k } ∷ [])
                    ms)
                (sym founded.members_after)
                (found-IsSound (groups.rows d) (members.rows d) _ _ v founded.new_group
                  (refl, refl, refl)))
      ]
  step-Sound (joins id uid t clock) d v =
      elim (join_group-Joins db tables profile_of id uid t clock d) [
        | inl (_, same) ↦ subst Sound (sym same) v
        | inr (_, _, _, (g, there, key), same, (k, after, free)) ↦
            let d' = step (joins id uid t clock) d in
            subst (λ gs. IsSound gs (members.rows d')) (sym same)
              (subst (IsSound (groups.rows d)) (sym after) (
                seat-IsSound (groups.rows d) (members.rows d) g _ v there key refl
                  (λ x n. (free x n).1)))
      ]
  step-Sound (leaves id uid) d v = elim (leave_group-Leaves db tables profile_of id uid d) [
    | inl (_, same) ↦ subst Sound (sym same) v
    | inr (_, (m, n, seat, plain), same, after) ↦
        let d' = step (leaves id uid) d in
        subst (λ gs. IsSound gs (members.rows d')) (sym same)
          (subst (IsSound (groups.rows d)) (sym after)
            (free-IsSound (groups.rows d) (members.rows d) id uid m v n seat plain))
  ]

  -- Whatever groups are created, joined and left, every group has exactly one owner, its creator,
  -- no user has two seats in a group, and no seat is in a group that does not exist.
  pub run-Sound : (cs : List Call) (d : Db) → Sound d → Sound (run cs d)
  unfolding run
  run-Sound [] d v = v
  run-Sound (c ∷ cs) d v = run-Sound cs (step c d) (step-Sound c d v)
