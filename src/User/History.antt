-- ===== src/User/History.antt =====
-- The accounts under any sequence of registrations, logins and profile updates.
use my_chat.Prelude.{
  String, refl, sym, subst, inl, inr, Option, none, some, List, [], ◌∷◌, IsIn, string_comparable,
  ◌==◌, Bool-cases, Option-cases,
}
use my_chat.Prelude.Int.{ℤ}
use my_chat.Prelude.{Option}
use my_chat.Password.{Bytes, verify}
use my_chat.Storage.{Database}
use my_chat.User.{
  User, UserTable, PasswordHasher, RegisterRequest, UpdateProfileRequest, reply_of, find_by_account,
  update_last_login, change_profile, update_profile, new_user, register_user, log_in,
  login_by_account,
}
use my_chat.User.Accounts.{
  IsSound, IsSame, IsSame-refl, IsSame-trans, IsStep, still, added-IsStep, updated_cases,
}
use my_chat.User.Registration.{register_user-Registers, fields_new}

pub data Call : Type 0 where
  registers : RegisterRequest → String → Option Bytes → Call
  logs_in : String → Bytes → ℤ → Call
  changes : UpdateProfileRequest → Call

module _ (db : Database) (table : UserTable db) (hasher : PasswordHasher) where
  open db use {Db}
  open table use {users}

  abbrev pub step : Call → Db → Db
  step (registers request uid salt) d = (register_user db table hasher request uid salt d).1
  step (logs_in account password now) d =
      (login_by_account db table hasher account password now d).1
  step (changes request) d = (update_profile db table request d).1

  abbrev pub run : List Call → Db → Db
  run [] d = d
  run (c ∷ cs) d = run cs (step c d)

  abbrev Follows : Db → Db → Type 0
  Follows d t = IsStep (users.rows d) (users.rows t)

  update_last_login-Follows :
      (uid : String) (time : ℤ) (d : Db) → Follows d (update_last_login db table uid time d).1
  unfolding update_last_login
  update_last_login-Follows uid time d =
      elim (updated_cases db table uid (λ u. record u { last_login = time }) d
        (λ u. record { uid = refl; account = refl; password_hash = refl; create_time = refl })) [
          | inl e ↦ rw e (still (users.rows d))
          | inr (u, t, e, follows) ↦ rw e follows
        ]

  change_profile-Follows :
      (request : UpdateProfileRequest) (d : Db) → Follows d (change_profile db table request d).1
  unfolding change_profile
  change_profile-Follows request d =
      elim (updated_cases db table request.uid
        (λ u. record u {
          nickname = request.nickname;
          avatar = request.avatar;
          gender = request.gender;
          signature = request.signature;
        })
        d (λ u. record { uid = refl; account = refl; password_hash = refl; create_time = refl })) [
          | inl e ↦ rw e (still (users.rows d))
          | inr (u, t, e, follows) ↦ rw e follows
        ]

  reply_of-Follows :
      (d : Db) (o : Option User) (t : Db) → Follows d t → Follows d (reply_of (o, t)).1
  reply_of-Follows d none t h = h
  reply_of-Follows d (some u) t h = h

  update_profile-Follows :
      (request : UpdateProfileRequest) (d : Db) → Follows d (update_profile db table request d).1
  unfolding update_profile
  update_profile-Follows request d = elim (Bool-cases (request.uid == "")) [
    | inl e ↦ rw e (still (users.rows d))
    | inr e₁ ↦ elim (Bool-cases (request.nickname == "")) [
      | inl e ↦ rw (e₁, e) (still (users.rows d))
      | inr e₂ ↦
          rw (e₁, e₂)
            (reply_of-Follows d (change_profile db table request d).0
              (change_profile db table request d).1 (change_profile-Follows request d))
    ]
  ]

  log_in-Follows :
      (u : User) (password : Bytes) (now : ℤ) (d : Db)
      → Follows d (log_in db table hasher u password now d).1
  unfolding log_in
  log_in-Follows u password now d =
      elim (Bool-cases (verify hasher.pbkdf2 password u.password_hash)) [
        | inr e ↦ rw e (still (users.rows d))
        | inl e₁ ↦ elim (Bool-cases (update_last_login db table u.uid now d).0) [
          | inl e ↦ rw (e₁, e) (update_last_login-Follows u.uid now d)
          | inr e ↦ rw (e₁, e) (update_last_login-Follows u.uid now d)
        ]
      ]

  login_by_account-Follows :
      (account : String) (password : Bytes) (now : ℤ) (d : Db)
      → Follows d (login_by_account db table hasher account password now d).1
  unfolding login_by_account
  login_by_account-Follows account password now d =
      elim (Option-cases (find_by_account db table account d)) [
        | inl e ↦ rw (login_by_account, e) (still (users.rows d))
        | inr (u, e) ↦ rw (login_by_account, e) (log_in-Follows u password now d)
      ]

  register_user-Follows :
      (request : RegisterRequest) (uid : String) (salt : Option Bytes) (d : Db)
      → Follows d (register_user db table hasher request uid salt d).1
  register_user-Follows request uid salt d =
      elim (register_user-Registers db table hasher request uid salt d) [
        | inl (_, same) ↦ subst (Follows d) (sym same) (still (users.rows d))
        | inr g ↦
            let (new, free) =
              fields_new db table hasher request uid g.password_hash d g.uid_new g.account_new in
            subst (IsStep (users.rows d)) (sym g.after) (
              added-IsStep (new_user db table hasher request uid g.password_hash) (users.rows d) new
                free)
      ]

  step-Follows : (c : Call) (d : Db) → Follows d (step c d)
  step-Follows (registers request uid salt) d = register_user-Follows request uid salt d
  step-Follows (logs_in account password now) d = login_by_account-Follows account password now d
  step-Follows (changes request) d = update_profile-Follows request d

  -- Every sequence of registrations, logins and profile updates, failed ones included, keeps the uids
  -- and the accounts of the users distinct.
  pub run_users-IsSound :
      (cs : List Call) (d : Db) → IsSound (users.rows d) → IsSound (users.rows (run cs d))
  run_users-IsSound [] d s = s
  run_users-IsSound (c ∷ cs) d s = run_users-IsSound cs (step c d) ((step-Follows c d).sound s)

  -- No such sequence loses a user or changes the uid, the account, the password hash or the time of
  -- registration.
  pub run_users-IsSame :
      (cs : List Call) (d : Db)
      → IsSound (users.rows d)
      → (x : User) → IsIn x (users.rows d)
      → (y : User) × IsIn y (users.rows (run cs d)) × IsSame x y
  run_users-IsSame [] d s x m = (x, m, IsSame-refl x)
  run_users-IsSame (c ∷ cs) d s x m =
      let next = step-Follows c d in
      let (y, my, e) = next.kept x m s in
      let (z, mz, f) = run_users-IsSame cs (step c d) (next.sound s) y my in
      (z, mz, IsSame-trans x y z e f)
