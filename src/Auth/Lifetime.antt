-- ===== src/Auth/Lifetime.antt =====
-- The lifetime of a refresh token of multi_platform_auth.cpp, while Redis answers.
use my_chat.Prelude.{
  ℕ, ◌+◌, ◌*◌, ◌≤◌, ◌≡◌, ◌≢◌, ◌∙◌, refl, sym, ap, Bool, true, false, Option, none, some, [],
  bytes_comparable, ◌==◌, ==_iff, if◌then◌else◌, ltb, arith, if_cases, Bool-cases, inl, inr,
}
use my_chat.Prelude.Tables.{lookup}
use my_chat.Json.{Bytes, Object, Json}
use my_chat.Redis.Texts.{Texts, Answers, second}
use my_chat.Connections.Keys.{user_id_key, device_id_key, platform_key}
use my_chat.Auth.{
  UserTokenInfo, revoked_key, username_key, create_time_key, expire_time_key, refresh_token_key,
  tokens_key, as_text, as_boolean, user_info, refresh_meta, new_info, and_then,
  generate_refresh_token, verify_refresh_token,
}

same_token : (x token : Bytes) → (refresh_token_key x == refresh_token_key token) ≡ (x == token)
same_token x token = refl

other_key : (x user : Bytes) → (refresh_token_key x == tokens_key user) ≡ false
other_key x user = refl

pub user_info-refresh_meta :
    (info : UserTokenInfo) (token : Bytes) (o : Object)
    → ((key : Bytes) → lookup key o ≡ lookup key (refresh_meta info token))
    → (user_info o ≡ some info)
      × (as_boolean (lookup revoked_key o) ≡ some false)
      × (as_text (lookup device_id_key o) ≡ some info.device_id)
unfolding user_info refresh_meta lookup
user_info-refresh_meta info token o same = (
  ground (
    arith,
    same device_id_key,
    same platform_key,
    same user_id_key,
    same username_key,
    same create_time_key,
    same expire_time_key,
  ),
  ap as_boolean (same revoked_key),
  ap as_text (same device_id_key),
)

both :
    (same live : Bool) {a b : Option Bytes} (c v : Option Bytes)
    → a ≡ v
    → b ≡ (if same then v else c)
    → (if same then (if live then a else none) else b)
      ≡ (if same then (if live then v else none) else c)
both true true c v e q = e
both true false c v e q = refl
both false live c v e q = q

module _ (texts : Texts) (json : Json) where
  open texts use {Db, text_at, set, get, expire, sadd, set_lem, expire_lem, sadd_lem, get_lem}

  pub and_then_ok :
      (r : Bool × Db) (next : Db → Bool × Db) → r.0 ≡ true → and_then texts json r next ≡ next r.1
  and_then_ok r next e = ap (λ b. if b then next r.1 else r) e

  -- The seconds for which a token is made.
  abbrev pub lifetime : (Bytes → ℕ) → Bytes → ℕ → ℕ
  lifetime configured platform expire_seconds =
      if ltb 0 expire_seconds then expire_seconds else configured platform

  module _ (up : Answers texts) where
    pub generate_refresh_token-text_at :
        (configured : Bytes → ℕ) (user name device platform : Bytes) (seconds : ℕ) (token : Bytes)
        (now : ℕ) (d : Db)
        → (let made = lifetime configured platform seconds in
            let r =
              generate_refresh_token texts json configured user name device platform seconds token
                now d in
            (r.0 ≡ token)
            × ((x : Bytes) (t : ℕ)
                → now ≤ t
                → text_at (refresh_token_key x) t r.1 ≡ (
                    if x == token
                    then (if ltb t (now + made * second)
                        then some (
                            json.dump
                              (refresh_meta (new_info user name device platform made now) token))
                        else none)
                    else text_at (refresh_token_key x) t d)))
    unfolding generate_refresh_token
    generate_refresh_token-text_at configured user name device platform seconds token now d =
        let made = lifetime configured platform seconds in
        let key = refresh_token_key token in
        let v = json.dump (refresh_meta (new_info user name device platform made now) token) in
        let r₁ = set key v now d in
        let r₂ = expire key made now r₁.1 in
        let r₃ = sadd (tokens_key user) token now r₂.1 in
        let r₄ = expire (tokens_key user) made now r₃.1 in
        let k₃ = λ (d₃ : Db). expire (tokens_key user) made now d₃ in
        let k₂ = λ (d₂ : Db). and_then texts json (sadd (tokens_key user) token now d₂) k₃ in
        let k₁ = λ (d₁ : Db). and_then texts json (expire key made now d₁) k₂ in
        let run : and_then texts json r₁ k₁ ≡ r₄ =
          and_then_ok r₁ k₁ (up.set_ok key v now d)
          ∙ and_then_ok r₂ k₂ (up.expire_ok key made now r₁.1)
          ∙ and_then_ok r₃ k₃ (up.sadd_ok (tokens_key user) token now r₂.1) in
        let held : text_at key now r₁.1 ≡ some v =
          set_lem key v now d (up.set_ok key v now d) key now (omega arith)
          ∙ ground (arith, ==_iff token token) in
        (
          ap (λ (r : Bool × Db). if r.0 then token else []) run
              ∙ ap (λ b. if b then token else []) (up.expire_ok (tokens_key user) made now r₃.1),
          λ x t le.
              let e₁ = set_lem key v now d (up.set_ok key v now d) (refresh_token_key x) t le in
              let e₂ =
                expire_lem key made now r₁.1 (up.expire_ok key made now r₁.1) (refresh_token_key x)
                  t le in
              let e₃ =
                sadd_lem (tokens_key user) token now r₂.1 (up.sadd_ok _ _ _ _) (refresh_token_key x)
                  t le in
              let e₄ =
                expire_lem (tokens_key user) made now r₃.1 (up.expire_ok _ _ _ _)
                  (refresh_token_key x) t le in
              ap (λ (r : Bool × Db). text_at (refresh_token_key x) t r.1) run
              ∙ e₄
              ∙ e₃
              ∙ e₂
              ∙ both (x == token) (ltb t (now + made * second)) (text_at (refresh_token_key x) t d)
                  (some v) held e₁,
        )

    pub verify_refresh_token-none :
        (token device : Bytes) (t : ℕ) (d : Db)
        → text_at (refresh_token_key token) t d ≡ none
        → verify_refresh_token texts json token device t d ≡ ((false, none), d)
    unfolding verify_refresh_token
    verify_refresh_token-none token device t d e =
        let (o, got) = up.get_ok (refresh_token_key token) t d in
        let held : o ≡ none = get_lem (refresh_token_key token) t d o got ∙ e in
        if_cases (λ r. r ≡ ((false, none), d)) (token == []) (λ _. refl)
          (λ _. ground (arith, got, held))

    pub verify_refresh_token-some :
        (token device : Bytes) (t : ℕ) (d : Db) (meta : Bytes) (j : Object) (info : UserTokenInfo)
        → token ≢ []
        → text_at (refresh_token_key token) t d ≡ some meta
        → json.parse meta ≡ some j
        → user_info j ≡ some info
        → as_boolean (lookup revoked_key j) ≡ some false
        → as_text (lookup device_id_key j) ≡ some device
        → verify_refresh_token texts json token device t d ≡ ((true, some info), d)
    unfolding verify_refresh_token
    verify_refresh_token-some token device t d meta j info ne e parsed user_data live own =
        let (o, got) = up.get_ok (refresh_token_key token) t d in
        let held : o ≡ some meta = get_lem (refresh_token_key token) t d o got ∙ e in
        ground (
          arith,
          got,
          held,
          parsed,
          user_data,
          live,
          own,
          ne,
          ==_iff token [],
          ==_iff device device,
        )

    -- While it lives, a token that was made is accepted from its device with the data of its user, and
    -- afterwards it is not, if nothing is written in between.
    pub generate_refresh_token-verify_refresh_token :
        (configured : Bytes → ℕ) (user name device platform : Bytes) (seconds : ℕ) (token : Bytes)
        (now t : ℕ) (d : Db)
        → token ≢ []
        → now ≤ t
        → (let made = lifetime configured platform seconds in
            let r =
              generate_refresh_token texts json configured user name device platform seconds token
                now d in
            (r.0 ≡ token)
            × (verify_refresh_token texts json token device t r.1 ≡ (
              (if ltb t (now + made * second)
                  then (true, some (new_info user name device platform made now))
                  else (false, none)),
              r.1,
            )))
    unfolding verify_refresh_token
    generate_refresh_token-verify_refresh_token configured user name device platform seconds token
          now t d ne le =
        let made = lifetime configured platform seconds in
        let info = new_info user name device platform made now in
        let r =
          generate_refresh_token texts json configured user name device platform seconds token now
            d in
        let (same, stored) =
          generate_refresh_token-text_at configured user name device platform seconds token now d in
        let (j, parsed, entries) = json.parse-dump (refresh_meta info token) in
        let (user_data, live, own) = user_info-refresh_meta info token j entries in
        let held = stored token t le in
        let self = (==_iff token token).1 refl in
        (
          same,
          elim (Bool-cases (ltb t (now + made * second))) [
            | inl e ↦
                verify_refresh_token-some token device t r.1 (json.dump (refresh_meta info token)) j
                  info ne (ground (arith, held, self, e)) parsed user_data live own
                ∙ ap (λ (b : Bool). ((if b then (true, some info) else (false, none)), r.1)) (sym e)
            | inr e ↦
                verify_refresh_token-none token device t r.1 (ground (arith, held, self, e))
                ∙ ap (λ (b : Bool). ((if b then (true, some info) else (false, none)), r.1)) (sym e)
          ],
        )
