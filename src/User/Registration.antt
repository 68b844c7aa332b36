-- ===== src/User/Registration.antt =====
-- UserService::register_user on every branch, and the login that follows it.
use mathlib.Core.Bool.{false≢true}
use my_chat.Prelude.{
  String, ◌≡◌, ◌≢◌, ◌∙◌, refl, sym, ap, subst, ◌⊎◌, inl, inr, true, false, none, some, List, [],
  ◌∷◌, ◌++◌, IsIn, IsIn-append_right, Apart-eq, string_comparable, ◌==◌, ==_iff, Bool-cases,
  Option-cases, first, ok, failed, ne_of_test,
}
use my_chat.Prelude.Int.{ℤ}
use my_chat.Prelude.{Option, some, bytes_comparable, arith, ◌<◌, ◌^◌, []}
use my_chat.Password.{Bytes, hash, verify}
use my_chat.Password.Verify.{DerivesKeys, AreBytes, verify-hash}
use my_chat.Storage.{Database, fetched}
use my_chat.Storage.Laws.{IsIn-fetched, fetched-IsIn}
use my_chat.User.{
  User, UserProfile, UserTable, UserResult, PasswordHasher, RegisterRequest, to_profile, store_user,
  find_by_account, account_exists, update_last_login, new_user, register_user, log_in,
  login_by_account,
}
use my_chat.User.Accounts.{IsSound, OtherUid, OtherAccount, create_cases, added-IsStep}

first_sole :
    (u : User) (rs : List User) → IsIn u rs → ((x : User) → IsIn x rs → x ≡ u) → first rs ≡ some u
first_sole u [] m all = absurd m
first_sole u (x ∷ rs) m all = ap some (all x (inl refl))

same_account :
    (rows : List User) (x y : User)
    → IsSound rows
    → IsIn x rows
    → IsIn y rows
    → x.account ≡ y.account
    → x ≡ y
same_account rows x y s mx my same =
    Apart-eq OtherAccount rows x y s.accounts mx my
      (λ differ. ne_of_test x.account y.account differ same)
      (λ differ. ne_of_test y.account x.account differ (sym same))

module _ (db : Database) (table : UserTable db) (hasher : PasswordHasher) where
  open db use {Db}
  open table use {users}

  -- A registration that succeeds, by the rows before and after.
  pub record Registers (request : RegisterRequest) (uid : String) (salt : Option Bytes) (d : Db)
      (r : UserResult × Db) : Type 0 where
    pub password_hash : Bytes
    pub hashed : hash hasher.pbkdf2 hasher.iterations_ salt request.password ≡ some password_hash
    pub reply : r.0 ≡ ok (to_profile (new_user db table hasher request uid password_hash))
    pub account : request.account ≢ ""
    pub password : request.password ≢ []
    pub after :
        users.rows r.1 ≡ users.rows d ++ new_user db table hasher request uid password_hash ∷ []
    pub uid_new : (x : User) → IsIn x (users.rows d) → (x.uid == uid) ≡ false
    pub account_new : (x : User) → IsIn x (users.rows d) → (x.account == request.account) ≡ false

  fields_free :
      (request : RegisterRequest) (uid : String) (password_hash : Bytes) (d : Db)
      → ((x : User)
          → IsIn x (users.rows d)
          → OtherUid x (new_user db table hasher request uid password_hash))
      → ((x : User)
          → IsIn x (users.rows d)
          → OtherAccount x (new_user db table hasher request uid password_hash))
      → ((x : User) → IsIn x (users.rows d) → (x.uid == uid) ≡ false)
        × ((x : User) → IsIn x (users.rows d) → (x.account == request.account) ≡ false)
  unfolding new_user
  fields_free request uid password_hash d new free = (new, free)

  -- register_user either refuses and leaves the database as it was, or both the account and the
  -- password are given, neither the uid nor the account was in use, and the new user's row, with a
  -- hash of the password, is the only change.
  pub register_user-Registers :
      (request : RegisterRequest) (uid : String) (salt : Option Bytes) (d : Db)
      → ((failed (register_user db table hasher request uid salt d).0 ≡ true)
          × ((register_user db table hasher request uid salt d).1 ≡ d))
        ⊎ Registers request uid salt d (register_user db table hasher request uid salt d)
  unfolding register_user store_user
  register_user-Registers request uid salt d = elim (Bool-cases (request.account == "")) [
    | inl e ↦ inl (rw e, rw e)
    | inr e₁ ↦ elim (Bool-cases (request.password == [])) [
      | inl e ↦ inl (rw (e₁, e), rw (e₁, e))
      | inr e₂ ↦ elim (Bool-cases (account_exists db table request.account d)) [
        | inl e ↦ inl (rw (e₁, e₂, e), rw (e₁, e₂, e))
        | inr e₃ ↦
            elim (Option-cases (hash hasher.pbkdf2 hasher.iterations_ salt request.password)) [
              | inl e ↦ inl (rw (e₁, e₂, e₃, e), rw (e₁, e₂, e₃, e))
              | inr (password_hash, e₄) ↦
                  elim (create_cases db table (new_user db table hasher request uid password_hash)
                    d) [
                      | inl e ↦ inl (rw (e₁, e₂, e₃, e₄, e), rw (e₁, e₂, e₃, e₄, e))
                      | inr (t, e, after, new, free) ↦ inr (record {
                        password_hash = password_hash;
                        hashed = e₄;
                        reply = rw (e₁, e₂, e₃, e₄, e) refl;
                        account = ne_of_test request.account "" e₁;
                        password = λ q. ground (arith, e₂, q, ==_iff request.password []);
                        after = rw (e₁, e₂, e₃, e₄, e) after;
                        uid_new = (fields_free request uid password_hash d new free).0;
                        account_new = (fields_free request uid password_hash d new free).1;
                      })
                    ]
            ]
      ]
    ]
  ]

  -- A login with the right password succeeds, whether its time can be stored or not.
  log_in_right :
      (u : User) (password : Bytes) (now : ℤ) (d : Db)
      → verify hasher.pbkdf2 password u.password_hash ≡ true
      → (p : UserProfile) × ((log_in db table hasher u password now d).0 ≡ ok p)
        × (p.uid ≡ u.uid)
        × (p.account ≡ u.account)
  unfolding log_in to_profile
  log_in_right u password now d right =
      let (done, d') = update_last_login db table u.uid now d in
      elim (Bool-cases done) [
        | inl e ↦ (to_profile (record u { last_login = now }), rw (right, e) refl, refl, refl)
        | inr e ↦ (to_profile u, rw (right, e) refl, refl, refl)
      ]

  found_by_account :
      (account : String) (d : Db) (u : User)
      → IsSound (users.rows d)
      → fetched users (λ (x : User). x.account == account) d ≢ none
      → IsIn u (users.rows d)
      → u.account ≡ account
      → find_by_account db table account d ≡ some u
  unfolding find_by_account
  found_by_account account d u s answers here same =
      elim (Option-cases (fetched users (λ (x : User). x.account == account) d)) [
        | inl e ↦ absurd (answers e)
        | inr (rs, e) ↦ rw e (
            first_sole u rs
              (IsIn-fetched users (λ (x : User). x.account == account) d rs e u here
                ((==_iff u.account account).1 same))
              (λ x m.
                let (there, hit) =
                  fetched-IsIn users (λ (x : User). x.account == account) d rs e x m in
                same_account (users.rows d) x u s there here
                  ((==_iff x.account account).0 hit ∙ sym same)))
      ]

  logged_in :
      (request : RegisterRequest) (uid : String) (password_hash : Bytes) (now : ℤ) (d : Db)
      → verify hasher.pbkdf2 request.password password_hash ≡ true
      → IsSound (users.rows d)
      → IsIn (new_user db table hasher request uid password_hash) (users.rows d)
      → fetched users (λ (x : User). x.account == request.account) d ≢ none
      → (p : UserProfile) × ((login_by_account db table hasher request.account request.password now
            d).0
          ≡ ok p)
        × (p.uid ≡ uid)
        × (p.account ≡ request.account)
  unfolding login_by_account new_user
  logged_in request uid password_hash now d right s here answers =
      let u = new_user db table hasher request uid password_hash in
      let found = found_by_account request.account d u s answers here refl in
      let (p, reply, key, name) = log_in_right u request.password now d right in
      (p, rw (login_by_account, found) reply, key, name)

  pub fields_new :
      (request : RegisterRequest) (uid : String) (password_hash : Bytes) (d : Db)
      → ((x : User) → IsIn x (users.rows d) → (x.uid == uid) ≡ false)
      → ((x : User) → IsIn x (users.rows d) → (x.account == request.account) ≡ false)
      → ((x : User)
          → IsIn x (users.rows d)
          → OtherUid x (new_user db table hasher request uid password_hash))
        × ((x : User)
            → IsIn x (users.rows d)
            → OtherAccount x (new_user db table hasher request uid password_hash))
  unfolding new_user
  fields_new request uid password_hash d new free = (new, free)

  -- A user who has just registered can log in with that account and password, where the query for
  -- the account succeeds, and gets the profile of that very uid. PBKDF2 gives 32 bytes, the salt has
  -- 16, and the iterations fit into an int.
  pub register_user-login_by_account :
      DerivesKeys hasher.pbkdf2
      → hasher.iterations_ < 2 ^ 31
      → (request : RegisterRequest) (uid : String) (salt : Bytes) (now : ℤ) (d : Db)
      → AreBytes 16 salt
      → IsSound (users.rows d)
      → failed (register_user db table hasher request uid (some salt) d).0 ≡ false
      → fetched users
          (λ (x : User). x.account == request.account)
          (register_user db table hasher request uid (some salt) d).1
        ≢ none
      → (p : UserProfile) × ((login_by_account db table hasher request.account request.password now
            (register_user db table hasher request uid (some salt) d).1).0
          ≡ ok p)
        × (p.uid ≡ uid)
        × (p.account ≡ request.account)
  register_user-login_by_account derives small request uid salt now d salted s done answers =
      elim (register_user-Registers request uid (some salt) d) [
        | inl (refusal, _) ↦ absurd (false≢true (sym done ∙ refusal))
        | inr g ↦
            let u = new_user db table hasher request uid g.password_hash in
            let (new, free) = fields_new request uid g.password_hash d g.uid_new g.account_new in
            let d' = (register_user db table hasher request uid (some salt) d).1 in
            let right : verify hasher.pbkdf2 request.password g.password_hash ≡ true =
              (verify-hash hasher.pbkdf2 derives hasher.iterations_ salt small salted
                  request.password g.password_hash g.hashed request.password).1
                refl in
            logged_in request uid g.password_hash now d' right
              (subst IsSound (sym g.after) ((added-IsStep u (users.rows d) new free).sound s))
              (subst (IsIn u) (sym g.after) (IsIn-append_right u (users.rows d) _ (inl refl)))
              answers
      ]
