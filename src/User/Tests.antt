-- ===== src/User/Tests.antt =====
-- Accounts at concrete inputs, over the database in memory.
use my_chat.Prelude.{
  String, ◌≡◌, ◌⊎◌, refl, true, false, some, List, [], ◌∷◌, select, string_comparable, ok, failed,
  IsIn, inl, ℕ, zero, suc, length, ◌%◌, ◌<◌, ap, subst, All, arith,
}
use my_chat.Prelude.Int.{pos}
use my_chat.Password.{Bytes, stored_text, hash, derive}
use my_chat.Password.Verify.{AreBytes, DerivesKeys}
use my_chat.Storage.{Database, persisted, fetched}
use my_chat.Storage.Memory.{memory, table, insert, insert_steps, clashes, find}
use my_chat.User.{
  User, UserProfile, UserTable, PasswordHasher, RegisterRequest, male, unknown, user_schema,
  to_profile, create, find_by_account, account_exists, new_user, store_user, register_user,
  login_by_account,
}
use my_chat.User.Accounts.{IsSound, IsSame}
use my_chat.User.Registration.{Registers, register_user-Registers, register_user-login_by_account}
use my_chat.User.History.{run, run_users-IsSame, Call, registers, logs_in, changes}

abbrev store : Database
store = memory (List User)

put_back : (xs d : List User) → xs ≡ xs
put_back xs d = refl

abbrev own_uid : User → List User → String
own_uid u us = u.uid

persist_uid :
    (u : User) (d : List User) (k : String) (t : List User)
    → insert user_schema own_uid (λ d. d) (λ xs _. xs) put_back u d ≡ some (k, t)
    → k ≡ u.uid
persist_uid u d k t e =
    let (key, _, _, _) =
      insert_steps user_schema own_uid (λ d. d) (λ xs _. xs) put_back u d k t e in
    key

abbrev user_table : UserTable store
user_table = record {
  users = table user_schema own_uid (λ d. d) (λ xs _. xs) put_back;
  persist_uid = persist_uid;
}

abbrev repeated : ℕ → ℕ → Bytes
repeated zero b = []
repeated (suc n) b = b ∷ repeated n b

length-repeated : (n b : ℕ) → length (repeated n b) ≡ n
length-repeated zero b = refl
length-repeated (suc n) b = ap suc (length-repeated n b)

repeated-All : (n b : ℕ) → b < 256 → All (λ c. c < 256) (repeated n b)
repeated-All zero b h = tt
repeated-All (suc n) b h = (h, repeated-All n b h)

-- A hasher whose key repeats the size of the password.
abbrev hasher : PasswordHasher
hasher = record {
  pbkdf2 = λ password size salt iter. some (repeated 32 (length password % 256));
  iterations_ = 1000;
}

hasher-DerivesKeys : DerivesKeys hasher.pbkdf2
hasher-DerivesKeys password size salt iter key e =
    let b : ℕ = length password % 256 in
    let made : repeated 32 b ≡ key = ground (arith, e) in
    subst (AreBytes 32) made (length-repeated 32 b, repeated-All 32 b (omega arith))

abbrev salt : Bytes
salt = repeated 16 171

salt-AreBytes : AreBytes 16 salt
salt-AreBytes = (length-repeated 16 171, repeated-All 16 171 (omega arith))

abbrev secret : Bytes
secret = 112 ∷ 119 ∷ []

abbrev request : RegisterRequest
request = record { account = "ann"; password = secret; nickname = ""; now_ms = pos 4 }

abbrev ann : User
ann = record {
  uid = "u1";
  account = "ann";
  password_hash = stored_text 1000 salt (repeated 32 2);
  nickname = "ann";
  avatar = "";
  gender = unknown;
  signature = "";
  create_time = pos 4;
  last_login = pos 4;
  online = false;
}

abbrev empty : List User
empty = []

empty-IsSound : IsSound empty
empty-IsSound = record { uids = tt; accounts = tt }

ann-IsSound : IsSound (ann ∷ [])
ann-IsSound = record { uids = (λ y m. absurd m, tt); accounts = (λ y m. absurd m, tt) }

register_adds :
    register_user store user_table hasher request "u1" (some salt) empty
    ≡ (ok (to_profile ann), ann ∷ [])
unfolding register_user store_user hash derive create persisted insert clashes find new_user
    account_exists find_by_account fetched select
register_adds = refl

register_user-Registers_example :
    ((failed (register_user store user_table hasher request "u1" (some salt) empty).0 ≡ true)
      × ((register_user store user_table hasher request "u1" (some salt) empty).1 ≡ empty))
    ⊎ Registers store user_table hasher request "u1"
        (some salt)
        empty
        (register_user store user_table hasher request "u1" (some salt) empty)
register_user-Registers_example =
    register_user-Registers store user_table hasher request "u1" (some salt) empty

register_user-login_by_account_example :
    (p : UserProfile) × ((login_by_account store user_table hasher "ann" secret
        (pos 9)
        (ann ∷ [])).0
      ≡ ok p)
    × (p.uid ≡ "u1")
    × (p.account ≡ "ann")
unfolding register_user store_user hash derive create persisted insert clashes find new_user
    account_exists find_by_account fetched select
register_user-login_by_account_example =
    register_user-login_by_account store user_table hasher hasher-DerivesKeys (omega arith) request
      "u1" salt (pos 9) empty salt-AreBytes empty-IsSound refl (λ e. cc)

abbrev calls : List Call
calls =
    registers request "u2" (some salt)
    ∷ logs_in "ann" secret (pos 8)
    ∷ logs_in "ann" (110 ∷ []) (pos 8)
    ∷ changes (record { uid = "u1"; nickname = "Ann"; avatar = ""; gender = male; signature = "" })
    ∷ []

run_users-IsSame_example :
    (y : User) × IsIn y (run store user_table hasher calls (ann ∷ [])) × IsSame ann y
run_users-IsSame_example =
    run_users-IsSame store user_table hasher calls (ann ∷ []) ann-IsSound ann (inl refl)
