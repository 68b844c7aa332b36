-- ===== src/Auth/Blacklist.antt =====
-- Revoked access tokens of multi_platform_auth.cpp, while Redis answers.
use my_chat.Prelude.{
  ℕ, ◌+◌, ◌*◌, ◌≤◌, ◌<◌, ◌≡◌, ◌≢◌, ◌∙◌, refl, sym, ap, Bool, true, false, not, ◌&&◌, Option, none,
  some, [], bytes_comparable, ◌==◌, ==_iff, if◌then◌else◌, ltb, leb, has_value, arith, subst,
  if_cases,
}
use my_chat.Json.{Bytes}
use my_chat.Redis.Texts.{Texts, Answers, second}
use my_chat.Connections.Keys.{codes}
use my_chat.Auth.Access.{
  Claims, Jwt, info_of, ttl_of, revoked_access_token_key, extract_jti, is_token_revoked,
  verify_access_token, list_token, revoke_token,
}

ltb-leb : (t m : ℕ) → ltb t m ≡ not (leb m t)
ltb-leb t m = ground arith

named : (jti : Bytes) → jti ≢ [] → (jti == []) ≡ false
named jti ne = ground (arith, ne, ==_iff jti [])

kept :
    (live : Bool) {o : Option Bytes} (v : Bytes)
    → o ≡ (if live then some v else none)
    → has_value o ≡ live
kept true v e = ap has_value e
kept false v e = ap has_value e

module _ (texts : Texts) (jwt : Jwt) (secret_key : Bytes) where
  open texts use {Db, text_at, set, expire, del, set_lem, expire_lem, del_lem, exists_lem}

  extract_jti-sign : (c : Claims) → extract_jti texts jwt secret_key (jwt.sign secret_key c) ≡ c.id
  unfolding extract_jti
  extract_jti-sign c = ground (arith, jwt.decode-sign secret_key c)

  module _ (up : Answers texts) where
    is_token_revoked-sign :
        (c : Claims) (t : ℕ) (d : Db)
        → c.id ≢ []
        → is_token_revoked texts jwt secret_key (jwt.sign secret_key c) t d
          ≡ has_value (text_at (revoked_access_token_key c.id) t d)
    unfolding is_token_revoked
    is_token_revoked-sign c t d ne =
        let (b, got) = up.exists_ok (revoked_access_token_key c.id) t d in
        let held = exists_lem (revoked_access_token_key c.id) t d b got in
        ground (arith, extract_jti-sign c, got, held, ne, ==_iff c.id [])

    -- A token that is in force is accepted exactly if it is not on the list.
    pub verify_access_token-sign :
        (c : Claims) (t : ℕ) (d : Db)
        → c.id ≢ []
        → c.issued_at * second ≤ t
        → t < c.expires_at * second
        → verify_access_token texts jwt secret_key (jwt.sign secret_key c) t d ≡ (
            if has_value (text_at (revoked_access_token_key c.id) t d)
            then none
            else some (info_of c))
    unfolding verify_access_token
    verify_access_token-sign c t d ne from until =
        let decoded = jwt.decode-sign secret_key c in
        let good = jwt.verifies-sign secret_key c t from until in
        let listed = is_token_revoked-sign c t d ne in ground (arith, decoded, good, listed)

    Listed : Bytes → ℕ → ℕ → ℕ → Bool × Db → Type 0
    Listed key ttl now t r =
        (r.0 ≡ true)
        × (has_value (text_at key t r.1) ≡ not (ltb 0 ttl && leb (now + ttl * second) t))

    expire-Listed :
        (key v : Bytes) (ttl now t : ℕ) (d : Db)
        → now ≤ t
        → text_at key now d ≡ some v
        → ltb 0 ttl ≡ true
        → Listed key ttl now t (expire key ttl now d)
    unfolding Listed
    expire-Listed key v ttl now t d le there some_left =
        let deadline = now + ttl * second in
        let e : text_at key t (expire key ttl now d).1 ≡ (if ltb t deadline then some v else none) =
          expire_lem key ttl now d (up.expire_ok key ttl now d) key t le
          ∙ ap
              (λ b.
                if b then (if ltb t deadline then text_at key now d else none) else text_at key t d)
              ((==_iff key key).1 refl)
          ∙ ap (λ o. if ltb t deadline then o else none) there in
        (
          up.expire_ok key ttl now d,
          kept (ltb t deadline) v e
              ∙ ltb-leb t deadline
              ∙ ap (λ b. not (b && leb deadline t)) (sym some_left),
        )

    revoke_token-list_token :
        (c : Claims) (now : ℕ) (d : Db)
        → c.id ≢ []
        → revoke_token texts jwt secret_key (jwt.sign secret_key c) now d
          ≡ list_token texts jwt secret_key c.id (ttl_of (c.expires_at * second) now) now d
    unfolding revoke_token
    revoke_token-list_token c now d ne =
        let token = jwt.sign secret_key c in
        let listed = λ (jti : Bytes) (decoded : Claims).
          list_token texts jwt secret_key jti (ttl_of (decoded.expires_at * second) now) now d in
        let refused : Bool × Db = (false, d) in
        ap
          (λ (jti : Bytes).
            if jti == [] then refused else elim (jwt.decode token) as (λ _. Bool × Db) [
              | none ↦ refused
              | some decoded ↦ listed jti decoded
            ])
          (extract_jti-sign c)
        ∙ ap
            (λ (b : Bool). if b then refused else elim (jwt.decode token) as (λ _. Bool × Db) [
              | none ↦ refused
              | some decoded ↦ listed c.id decoded
            ])
            (named c.id ne)
        ∙ ap
            (λ (o : Option Claims). elim o as (λ _. Bool × Db) [
              | none ↦ refused
              | some decoded ↦ listed c.id decoded
            ])
            (jwt.decode-sign secret_key c)

    revoke_token-Listed :
        (c : Claims) (now t : ℕ) (d : Db)
        → c.id ≢ []
        → now ≤ t
        → Listed
            (revoked_access_token_key c.id)
            (ttl_of (c.expires_at * second) now)
            now
            t
            (revoke_token texts jwt secret_key (jwt.sign secret_key c) now d)
    unfolding list_token Listed
    revoke_token-Listed c now t d ne le =
        let key = revoked_access_token_key c.id in
        let ttl = ttl_of (c.expires_at * second) now in
        let r₁ = set key (codes "1") now d in
        let put = λ (t' : ℕ) (le' : now ≤ t').
          set_lem key (codes "1") now d (up.set_ok key (codes "1") now d) key t' le'
          ∙ ap (λ b. if b then some (codes "1") else text_at key t' d) ((==_iff key key).1 refl) in
        let run : revoke_token texts jwt secret_key (jwt.sign secret_key c) now d
            ≡ (if ltb 0 ttl then expire key ttl now r₁.1 else (true, r₁.1)) =
          revoke_token-list_token c now d ne
          ∙ ap
              (λ b.
                if b
                then (if ltb 0 ttl then expire key ttl now r₁.1 else (true, r₁.1))
                else (false, r₁.1))
              (up.set_ok key (codes "1") now d) in
        subst (Listed key ttl now t) (sym run) (
          if_cases (Listed key ttl now t) (ltb 0 ttl)
            (λ e. expire-Listed key (codes "1") ttl now t r₁.1 le (put now (omega arith)) e)
            (λ e. (
              refl,
              ap has_value (put t le) ∙ ap (λ b. not (b && leb (now + ttl * second) t)) (sym e),
            )))

    -- An access token with an id that is revoked while it is in force is refused until the whole
    -- seconds that it had left have passed, and accepted again for the rest of its last second. If it
    -- had less than a second left it is refused to its end.
    pub revoke_token-verify_access_token :
        (c : Claims) (now t : ℕ) (d : Db)
        → c.id ≢ []
        → c.issued_at * second ≤ now
        → now ≤ t
        → t < c.expires_at * second
        → (let ttl = ttl_of (c.expires_at * second) now in
            let r = revoke_token texts jwt secret_key (jwt.sign secret_key c) now d in
            (r.0 ≡ true)
            × (verify_access_token texts jwt secret_key (jwt.sign secret_key c) t r.1
                ≡ (if ltb 0 ttl && leb (now + ttl * second) t then some (info_of c) else none)))
    unfolding Listed
    revoke_token-verify_access_token c now t d ne from le until =
        let ttl = ttl_of (c.expires_at * second) now in
        let r = revoke_token texts jwt secret_key (jwt.sign secret_key c) now d in
        let (done, listed) = revoke_token-Listed c now t d ne le in
        (
          done,
          verify_access_token-sign c t r.1 ne (omega (arith, from, le)) until
              ∙ ap (λ b. if b then none else some (info_of c)) listed
              ∙ swap (ltb 0 ttl && leb (now + ttl * second) t),
        )
      where
        swap :
            (b : Bool)
            → (if not b then none else some (info_of c)) ≡ (if b then some (info_of c) else none)
        swap true = refl
        swap false = refl
