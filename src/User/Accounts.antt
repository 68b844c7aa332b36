-- ===== src/User/Accounts.antt =====
-- Registration (UserService::register_user), and the accounts under any sequence of calls.
use my_chat.Prelude.{
  String, ◌≡◌, ◌∙◌, refl, sym, ap, subst, ◌⊎◌, inl, inr, true, false, none, some, List, [], ◌∷◌,
  ◌++◌, IsIn, IsIn-append_left, Apart, Apart-append_one, Apart-eq, string_comparable, ◌==◌, ==_iff,
  Bool-cases, Option-cases, ne_of_test,
}
use my_chat.Storage.{Database, persisted, updated, replace}
use my_chat.Storage.Laws.{persisted_steps, rows-persisted, rows-updated}
use my_chat.Storage.Replace.{replace-IsIn, new-IsIn-replace, Apart-replace}
use my_chat.User.{User, UserTable, user_schema, create}

abbrev pub OtherUid : User → User → Type 0
OtherUid u v = (u.uid == v.uid) ≡ false

abbrev pub OtherAccount : User → User → Type 0
OtherAccount u v = (u.account == v.account) ≡ false

pub record IsSound (rows : List User) : Type 0 where
  pub uids : Apart OtherUid rows
  pub accounts : Apart OtherAccount rows

-- What no call changes in a user.
pub record IsSame (u v : User) : Type 0 where
  pub uid : u.uid ≡ v.uid
  pub account : u.account ≡ v.account
  pub password_hash : u.password_hash ≡ v.password_hash
  pub create_time : u.create_time ≡ v.create_time

pub IsSame-refl : (u : User) → IsSame u u
IsSame-refl u = record { uid = refl; account = refl; password_hash = refl; create_time = refl }

pub IsSame-trans : (u v w : User) → IsSame u v → IsSame v w → IsSame u w
IsSame-trans u v w h k = record {
  uid = h.uid ∙ k.uid;
  account = h.account ∙ k.account;
  password_hash = h.password_hash ∙ k.password_hash;
  create_time = h.create_time ∙ k.create_time;
}

pub one_row :
    (rows : List User) (x y : User)
    → Apart OtherUid rows
    → IsIn x rows
    → IsIn y rows
    → x.uid ≡ y.uid
    → x ≡ y
one_row rows x y uids mx my same =
    Apart-eq OtherUid rows x y uids mx my (λ differ. ne_of_test x.uid y.uid differ same)
      (λ differ. ne_of_test y.uid x.uid differ (sym same))

-- The rows after a call, by the rows before: sound if they were, and every user kept.
pub record IsStep (rows after : List User) : Type 0 where
  pub sound : IsSound rows → IsSound after
  pub kept : (x : User) → IsIn x rows → IsSound rows → (y : User) × IsIn y after × IsSame x y

pub still : (rows : List User) → IsStep rows rows
still rows = record { sound = λ s. s; kept = λ x m s. (x, m, IsSame-refl x) }

pub added-IsStep :
    (u : User) (rows : List User)
    → ((x : User) → IsIn x rows → OtherUid x u)
    → ((x : User) → IsIn x rows → OtherAccount x u)
    → IsStep rows (rows ++ u ∷ [])
added-IsStep u rows new free = record {
  sound = λ s. record {
    uids = Apart-append_one OtherUid rows u s.uids new;
    accounts = Apart-append_one OtherAccount rows u s.accounts free;
  };
  kept = λ x m s. (x, IsIn-append_left x rows (u ∷ []) m, IsSame-refl x);
}

changed-IsStep :
    (change : User → User) (old : User) (rows : List User)
    → ((u : User) → IsSame u (change u))
    → IsIn old rows
    → IsStep rows (replace user_schema (change old) rows)
changed-IsStep change old rows same here = record {
  sound = λ s. record {
    uids =
        Apart-replace user_schema OtherUid old (change old) rows (unique s)
          (λ x. subst (λ k. (x.uid == k) ≡ false) (same old).uid)
          (λ x. subst (λ k. (k == x.uid) ≡ false) (same old).uid) s.uids;
    accounts =
        Apart-replace user_schema OtherAccount old (change old) rows (unique s)
          (λ x. subst (λ k. (x.account == k) ≡ false) (same old).account)
          (λ x. subst (λ k. (k == x.account) ≡ false) (same old).account) s.accounts;
  };
  kept = λ x m s. elim (Bool-cases (x.uid == (change old).uid)) [
    | inl hit ↦
        let one : x ≡ old = unique s x m ((==_iff x.uid (change old).uid).0 hit) in
        (
          change old,
          new-IsIn-replace user_schema old (change old) rows here (same old).uid,
          subst (λ (z : User). IsSame z (change old)) (sym one) (same old),
        )
    | inr miss ↦ (x, rw miss at (replace-IsIn user_schema (change old) rows x m), IsSame-refl x)
  ];
}
  where
    unique : IsSound rows → (x : User) → IsIn x rows → x.uid ≡ (change old).uid → x ≡ old
    unique s x m e = one_row rows x old s.uids m here (e ∙ sym (same old).uid)

module _ (db : Database) (table : UserTable db) where
  open db use {Db}
  open table use {users, persist_uid}

  pub create_cases :
      (u : User) (d : Db)
      → (create db table u d ≡ (false, d))
        ⊎ ((t : Db) × (create db table u d ≡ (true, t))
            × (users.rows t ≡ users.rows d ++ u ∷ [])
            × ((x : User) → IsIn x (users.rows d) → OtherUid x u)
            × ((x : User) → IsIn x (users.rows d) → OtherAccount x u))
  unfolding create
  create_cases u d = elim (Option-cases (persisted users u d)) [
    | inl e ↦ inl (rw e refl)
    | inr ((k, t), e) ↦
        let (after, new) = rows-persisted users u d k t e in
        let (t₁, t₂, p, q, c) = persisted_steps users u d k t e in
        let key : k ≡ u.uid = persist_uid u t₁ k t₂ q in
        inr (
          t,
          rw e refl,
          after ∙ ap (λ (i : String). users.rows d ++ record u { uid = i } ∷ []) key,
          λ x m. subst (λ i. (x.uid == i) ≡ false) key (new x m).0,
          λ x m. (new x m).1,
        )
  ]

  -- The rows of a transaction that changes one user, or fails.
  pub updated_cases :
      (uid : String) (change : User → User) (d : Db)
      → ((u : User) → IsSame u (change u))
      → (updated users uid change d ≡ none)
        ⊎ ((u : User) × (t : Db) × (updated users uid change d ≡ some (u, t))
            × IsStep (users.rows d) (users.rows t))
  updated_cases uid change d same = elim (Option-cases (updated users uid change d)) [
    | inl e ↦ inl e
    | inr ((u, t), e) ↦
        let (old, here, key, changed, after) = rows-updated users uid change d u t e in
        inr (
          u,
          t,
          e,
          subst (IsStep (users.rows d))
              (sym (after ∙ ap (λ r. replace user_schema r (users.rows d)) changed))
              (changed-IsStep change old (users.rows d) same here),
        )
  ]
