-- ===== src/User.antt =====
-- services/user/user_service.cpp, its repository and services/odb/user.hpp: accounts and profiles.
pub mod Accounts
pub mod Registration
pub mod History
mod Tests
use mathlib.Core.Option
use my_chat.Prelude.{
  ◌≡◌, refl, String, Bool, true, false, not, Option, none, some, ◌==◌, string_comparable,
  if◌then◌else◌, ◌>>=◌, ℕ, [], bytes_comparable, has_value, first, Outcome, ok, err,
}
use my_chat.Prelude.Int.{ℤ}
use my_chat.Password.{Bytes, Pbkdf2, hash, verify}
use my_chat.Storage.{Database, Schema, Table, attempt, persisted, loaded, fetched, updated}

pub data Gender : Type 0 where
  unknown male female other : Gender

pub record UserProfile : Type 0 where
  pub uid : String
  pub account : String
  pub nickname : String
  pub avatar : String
  pub gender : Gender
  pub signature : String
  pub create_time : ℤ
  pub last_login : ℤ
  pub online : Bool

pub record User : Type 0 where
  pub uid : String
  pub account : String
  pub password_hash : Bytes
  pub nickname : String
  pub avatar : String
  pub gender : Gender
  pub signature : String
  pub create_time : ℤ
  pub last_login : ℤ
  pub online : Bool

pub user_key-assign : (k : String) (u : User) → (record u { uid = k }).uid ≡ k
user_key-assign k u = refl

-- The account is unique.
abbrev pub user_schema : Schema String User
user_schema = record {
  key = λ u. u.uid;
  assign = λ k u. record u { uid = k };
  conflicts = λ u v. u.account == v.account;
  key-assign = user_key-assign;
}

-- The application gives the uid, and `persist` keeps it.
pub record UserTable (db : Database) : Type 1 where
  pub users : Table user_schema db
  pub persist_uid :
      (u : User) (d : db.Db) (k : String) (t : db.Db) → users.persist u d ≡ some (k, t) → k ≡ u.uid

-- A PasswordHasher, over OpenSSL: its methods are hash and verify of Password.
pub record PasswordHasher : Type 0 where
  pub pbkdf2 : Pbkdf2
  pub iterations_ : ℕ

-- `hash_throws` is the exception of PasswordHasher::hash, which register_user passes on.
pub data UserError : Type 0 where
  empty_account empty_password duplicate_account persist_failed : UserError
  hash_throws invalid_account wrong_password empty_uid empty_nickname user_not_found : UserError

-- RegisterResult, LoginResult and UpdateProfileResult.
abbrev pub UserResult : Type 0
UserResult = Outcome UserError UserProfile

pub record RegisterRequest : Type 0 where
  pub account : String
  pub password : Bytes
  pub nickname : String
  pub now_ms : ℤ

pub record UpdateProfileRequest : Type 0 where
  pub uid : String
  pub nickname : String
  pub avatar : String
  pub gender : Gender
  pub signature : String

unfoldable pub to_profile : User → UserProfile
to_profile u = record {
  uid = u.uid;
  account = u.account;
  nickname = u.nickname;
  avatar = u.avatar;
  gender = u.gender;
  signature = u.signature;
  create_time = u.create_time;
  last_login = u.last_login;
  online = u.online;
}

-- The tail of update_profile.
abbrev pub reply_of : {D : Type 0} → Option User × D → UserResult × D
reply_of (none, d) = (err user_not_found, d)
reply_of (some u, d) = (ok (to_profile u), d)

-- A repository method that writes and returns an optional row.
abbrev pub attempt_row : {D R : Type 0} → D → Option (R × D) → Option R × D
attempt_row d none = (none, d)
attempt_row d (some (r, t)) = (some r, t)

module _ (db : Database) (table : UserTable db) where
  open db use {Db}
  open table use {users}

  unfoldable pub create : User → Db → Bool × Db
  create u d = attempt d (Option.map (λ s. s.1) (persisted users u d))

  unfoldable pub find_by_uid : String → Db → Option User
  find_by_uid uid d = loaded users uid d

  unfoldable pub find_by_account : String → Db → Option User
  find_by_account account d = do rows ← fetched users (λ u. u.account == account) d; first rows

  unfoldable pub account_exists : String → Db → Bool
  account_exists account d = has_value (find_by_account account d)

  unfoldable pub update_last_login : String → ℤ → Db → Bool × Db
  update_last_login uid time d =
      attempt d (Option.map (λ s. s.1) (updated users uid (λ u. record u { last_login = time }) d))

  -- UserRepository::update_profile
  unfoldable pub change_profile : UpdateProfileRequest → Db → Option User × Db
  change_profile request d = attempt_row d (
      updated users request.uid
        (λ u. record u {
          nickname = request.nickname;
          avatar = request.avatar;
          gender = request.gender;
          signature = request.signature;
        })
        d)

  unfoldable pub get_profile_by_uid : String → Db → Option UserProfile
  get_profile_by_uid uid d = Option.map to_profile (find_by_uid uid d)

  unfoldable pub get_profile_by_account : String → Db → Option UserProfile
  get_profile_by_account account d = Option.map to_profile (find_by_account account d)

  unfoldable pub update_profile : UpdateProfileRequest → Db → UserResult × Db
  update_profile request d =
      if request.uid == ""
      then (err empty_uid, d)
      else if request.nickname == ""
      then (err empty_nickname, d)
      else reply_of (change_profile request d)

  module _ (hasher : PasswordHasher) where
    -- The user that register_user writes; the uid is random.
    unfoldable pub new_user : RegisterRequest → String → Bytes → User
    new_user request uid password_hash = record {
      uid = uid;
      account = request.account;
      password_hash = password_hash;
      nickname = if request.nickname == "" then request.account else request.nickname;
      avatar = "";
      gender = unknown;
      signature = "";
      create_time = request.now_ms;
      last_login = request.now_ms;
      online = false;
    }

    -- The end of register_user, with the hash of the password.
    unfoldable pub store_user : RegisterRequest → String → Bytes → Db → UserResult × Db
    store_user request uid password_hash d =
        let (done, d') = create (new_user request uid password_hash) d in
        if not done
        then (err persist_failed, d')
        else (ok (to_profile (new_user request uid password_hash)), d')

    -- `salt` is what RAND_bytes gives.
    unfoldable pub register_user : RegisterRequest → String → Option Bytes → Db → UserResult × Db
    register_user request uid salt d =
        if request.account == ""
        then (err empty_account, d)
        else if request.password == []
        then (err empty_password, d)
        else if account_exists request.account d
        then (err duplicate_account, d)
        else elim (hash hasher.pbkdf2 hasher.iterations_ salt request.password) [
          | none ↦ (err hash_throws, d)
          | some password_hash ↦ store_user request uid password_hash d
        ]

    -- The tail of login_by_account, once the user has been found.
    unfoldable pub log_in : User → Bytes → ℤ → Db → UserResult × Db
    log_in u password now_ms d =
        let (done, d') = update_last_login u.uid now_ms d in
        if not (verify hasher.pbkdf2 password u.password_hash)
        then (err wrong_password, d)
        else if not done
        then (ok (to_profile u), d')
        else (ok (to_profile (record u { last_login = now_ms })), d')

    unfoldable pub login_by_account : String → Bytes → ℤ → Db → UserResult × Db
    login_by_account account password now_ms d = elim (find_by_account account d) [
      | none ↦ (err invalid_account, d)
      | some u ↦ log_in u password now_ms d
    ]
