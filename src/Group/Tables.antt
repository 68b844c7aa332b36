-- ===== src/Group/Tables.antt =====
-- What the transactions of services/group/group_repository.cpp do to the two tables.
use my_chat.Prelude.{
  ℕ, String, ◌≡◌, ◌∙◌, sym, ap, subst, true, false, some, [], ◌∷◌, ◌++◌, IsIn, nat_comparable, ◌==◌,
  >>=-eq-some, select, if◌then◌else◌, ◌⊎◌, inl, inr, Option-cases,
}
use my_chat.Storage.{Database, persisted, erased}
use my_chat.Storage.Laws.{persisted_steps, erased_steps, rows-persisted, rows-erased}
use my_chat.Group.{
  Group, GroupMember, GroupTables, same_seat, in_seat, create_group_with_owner, add_member,
  remove_member,
}

module _ (db : Database) (tables : GroupTables db) where
  open db use {Db, begin, commit}
  open tables use {groups, members, eraser}

  -- A group and its owner are added together.
  pub record Founded (g : Group) (m : GroupMember) (d : Db) (k : ℕ) (t : Db) : Type 0 where
    pub seat : ℕ
    pub groups_after : groups.rows t ≡ groups.rows d ++ record g { group_id = k } ∷ []
    pub members_after : members.rows t ≡ members.rows d ++ record m { id = seat; group_id = k } ∷ []
    pub new_group : (x : Group) → IsIn x (groups.rows d) → (x.group_id == k) ≡ false
    pub new_seat : (x : GroupMember) → IsIn x (members.rows d) → (x.id == seat) ≡ false

  pub create-Founded :
      (g : Group) (m : GroupMember) (d : Db) (k : ℕ) (t : Db)
      → create_group_with_owner db tables g m d ≡ some (k, t)
      → Founded g m d k t
  unfolding create_group_with_owner
  create-Founded g m d k t h =
      let (t₁, p, h₁) = >>=-eq-some (begin d) _ h in
      let ((k', t₂), q, h₂) = >>=-eq-some (groups.persist g t₁) _ h₁ in
      let ((j, t₃), r, h₃) = >>=-eq-some (members.persist (record m { group_id = k' }) t₂) _ h₂ in
      let (t₄, u, h₄) = >>=-eq-some (commit t₃) _ h₃ in
      let key : k' ≡ k = cc in
      let last : t₄ ≡ t = cc in
      let same_groups : groups.rows t₁ ≡ groups.rows d = groups.rows-begin d t₁ p in
      let same_members : members.rows t₂ ≡ members.rows d =
        tables.group_frame g t₁ k' t₂ q ∙ members.rows-begin d t₁ p in
      record {
        seat = j;
        groups_after =
            ap groups.rows (sym last)
            ∙ groups.rows-commit t₃ t₄ u
            ∙ tables.member_frame (record m { group_id = k' }) t₂ j t₃ r
            ∙ groups.rows-persist g t₁ k' t₂ q
            ∙ ap (λ xs. xs ++ record g { group_id = k' } ∷ []) same_groups
            ∙ ap (λ (i : ℕ). groups.rows d ++ record g { group_id = i } ∷ []) key;
        members_after =
            ap members.rows (sym last)
            ∙ members.rows-commit t₃ t₄ u
            ∙ members.rows-persist (record m { group_id = k' }) t₂ j t₃ r
            ∙ ap (λ xs. xs ++ record m { id = j; group_id = k' } ∷ []) same_members
            ∙ ap (λ (i : ℕ). members.rows d ++ record m { id = j; group_id = i } ∷ []) key;
        new_group = λ x n.
            subst (λ (i : ℕ). (x.group_id == i) ≡ false) key
              (groups.persist_key g t₁ k' t₂ q x (subst (IsIn x) (sym same_groups) n));
        new_seat = λ x n.
            members.persist_key (record m { group_id = k' }) t₂ j t₃ r x
              (subst (IsIn x) (sym same_members) n);
      }

  -- `add_member` changes nothing, or adds one seat that was free.
  pub add_member_cases :
      (m : GroupMember) (d : Db)
      → (add_member db tables m d ≡ (false, d))
        ⊎ ((k : ℕ) × (t : Db) × (add_member db tables m d ≡ (true, t))
            × (groups.rows t ≡ groups.rows d)
            × (members.rows t ≡ members.rows d ++ record m { id = k } ∷ [])
            × ((x : GroupMember)
                → IsIn x (members.rows d)
                → ((x.id == k) ≡ false) × (same_seat x m ≡ false)))
  unfolding add_member
  add_member_cases m d = elim (Option-cases (persisted members m d)) [
    | inl e ↦ inl (rw e)
    | inr (s, e) ↦
        let (after, new) = rows-persisted members m d s.0 s.1 e in
        let (t₁, t₂, p, q, u) = persisted_steps members m d s.0 s.1 e in
        inr (
          s.0,
          s.1,
          rw e,
          groups.rows-commit t₂ s.1 u
              ∙ tables.member_frame m t₁ s.0 t₂ q
              ∙ groups.rows-begin d t₁ p,
          after,
          new,
        )
  ]

  -- `remove_member` changes nothing, or removes the rows of the seat and no other.
  pub remove_member_cases :
      (id : ℕ) (uid : String) (d : Db)
      → (remove_member db tables id uid d ≡ (false, d))
        ⊎ ((t : Db) × (remove_member db tables id uid d ≡ (true, t))
            × (groups.rows t ≡ groups.rows d)
            × (members.rows t
                ≡ select (λ m. if in_seat id uid m then false else true) (members.rows d)))
  unfolding remove_member
  remove_member_cases id uid d = elim (Option-cases (erased members eraser (in_seat id uid) d)) [
    | inl e ↦ inl (rw e)
    | inr (t, e) ↦
        let (t₁, t₂, p, q, u) = erased_steps members eraser (in_seat id uid) d t e in
        inr (
          t,
          rw e,
          groups.rows-commit t₂ t u
              ∙ tables.erase_frame (in_seat id uid) t₁ t₂ q
              ∙ groups.rows-begin d t₁ p,
          rows-erased members eraser (in_seat id uid) d t e,
        )
  ]
