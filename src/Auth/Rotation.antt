-- ===== src/Auth/Rotation.antt =====
-- A refresh token of multi_platform_auth.cpp in the hands of another device, and after a refresh that
-- rotates it, while Redis answers.
use my_chat.Prelude.{
  ℕ, ◌+◌, ◌*◌, ◌≡◌, ◌≢◌, ◌∙◌, refl, sym, ap, Bool, true, false, Option, none, some, List, [],
  bytes_comparable, ==_iff, if◌then◌else◌, ltb, arith, subst, Bool-cases, inl, inr, All,
}
use my_chat.Prelude.Int.{ℤ, pos}
use my_chat.Prelude.Tables.{lookup}
use my_chat.Json.{Bytes, Json, Object}
use my_chat.Redis.Texts.{Texts, Answers, second}
use my_chat.Connections.Keys.{device_id_key, platform_key}
use my_chat.Auth.{
  UserTokenInfo, TokenResult, refresh_token_key, create_time_key, expire_time_key, new_info,
  refresh_meta, generate_refresh_token, revoke_refresh_token, as_text, as_number, is_device,
  verify_refresh_token, refresh_access_token, renew, should_rotate_refresh_token,
}
use my_chat.Auth.Lifetime.{
  lifetime, generate_refresh_token-text_at, verify_refresh_token-some, user_info-refresh_meta,
}
use my_chat.Auth.Revocation.{IsDead}
use my_chat.Auth.Steps.{revoke_refresh_token-IsDead, verify_refresh_token-IsDead}
use my_chat.Auth.History.{Call, Spares, end_time, call_all, IsDead-call_all}

times-refresh_meta :
    (info : UserTokenInfo) (token : Bytes) (o : Object)
    → ((key : Bytes) → lookup key o ≡ lookup key (refresh_meta info token))
    → (as_number (lookup create_time_key o) ≡ some info.create_time)
      × (as_number (lookup expire_time_key o) ≡ some info.expire_time)
      × (as_text (lookup platform_key o) ≡ some info.platform)
unfolding refresh_meta lookup
times-refresh_meta info token o same = (
  ap as_number (same create_time_key),
  ap as_number (same expire_time_key),
  ap as_text (same platform_key),
)

module _ (texts : Texts) (json : Json) (up : Answers texts) where
  open texts use {Db, text_at, get, get_lem}

  verify_refresh_token-other :
      (token device : Bytes) (t : ℕ) (d : Db) (meta : Bytes) (j : Object)
      → token ≢ []
      → text_at (refresh_token_key token) t d ≡ some meta
      → json.parse meta ≡ some j
      → is_device device (as_text (lookup device_id_key j)) ≡ false
      → (verify_refresh_token texts json token device t d).1
        ≡ (revoke_refresh_token texts json token t d).1
  unfolding verify_refresh_token
  verify_refresh_token-other token device t d meta j ne e parsed other =
      let (o, got) = up.get_ok (refresh_token_key token) t d in
      let held : o ≡ some meta = get_lem (refresh_token_key token) t d o got ∙ e in
      ground (arith, got, held, parsed, other, ne, ==_iff token [])

  should_rotate_refresh_token-some :
      (rotates : Bytes → ℤ → ℤ → ℕ → Bool) (token : Bytes) (t : ℕ) (d : Db) (info : UserTokenInfo)
      → text_at (refresh_token_key token) t d ≡ some (json.dump (refresh_meta info token))
      → should_rotate_refresh_token texts json rotates token t d
        ≡ rotates info.platform info.create_time info.expire_time t
  unfolding should_rotate_refresh_token
  should_rotate_refresh_token-some rotates token t d info e =
      let (o, got) = up.get_ok (refresh_token_key token) t d in
      let held : o ≡ some (json.dump (refresh_meta info token)) =
        get_lem (refresh_token_key token) t d o got ∙ e in
      let (j, parsed, same) = json.parse-dump (refresh_meta info token) in
      let (created, expires, platform) = times-refresh_meta info token j same in
      ground (arith, got, held, parsed, created, expires, platform)

  -- A token that another device than its own has presented is never accepted again, not even from its
  -- own device, whatever is called in between, if its revocation is not lifted and the random token
  -- is not drawn again.
  pub stolen-verify_refresh_token :
      (configured : Bytes → ℕ) (rotates : Bytes → ℤ → ℤ → ℕ → Bool)
      (user name device platform : Bytes) (seconds : ℕ) (token thief any : Bytes)
      (now wait delay : ℕ) (cs : List (ℕ × Call)) (d : Db)
      → token ≢ []
      → thief ≢ device
      → All (λ (c : ℕ × Call). Spares token c.1) cs
      → (let d₁ =
            (generate_refresh_token texts json configured user name device platform seconds token
              now d).1 in
          let d₂ = (verify_refresh_token texts json token thief (now + wait) d₁).1 in
          (verify_refresh_token texts json token any
            (end_time cs (now + wait) + delay)
            (call_all texts json configured rotates cs (now + wait) d₂)).0
          ≡ (false, none))
  stolen-verify_refresh_token configured rotates user name device platform seconds token thief any
        now wait delay cs d ne other all =
      let t = now + wait in
      let made = lifetime texts json configured platform seconds in
      let info = new_info user name device platform made now in
      let d₁ =
        (generate_refresh_token texts json configured user name device platform seconds token now
          d).1 in
      let stored =
        (generate_refresh_token-text_at texts json up configured user name device platform seconds
            token now d).1
          token t (omega arith) in
      let self = (==_iff token token).1 refl in
      let (j, parsed, same) = json.parse-dump (refresh_meta info token) in
      let (_, _, own) = user_info-refresh_meta info token j same in
      IsDead-call_all texts json configured rotates up token any cs t delay
        (verify_refresh_token texts json token thief t d₁).1 all
        (elim (Bool-cases (ltb t (now + made * second))) [
          | inl e ↦
              subst (IsDead texts json token t)
                (sym (
                  verify_refresh_token-other token thief t d₁ (json.dump (refresh_meta info token))
                    j ne (ground (arith, stored, self, e)) parsed
                    (ground (arith, own, other, ==_iff device thief))))
                (revoke_refresh_token-IsDead texts json up token t d₁)
          | inr e ↦
              let gone : text_at (refresh_token_key token) t d₁ ≡ none =
                ground (arith, stored, self, e) in
              verify_refresh_token-IsDead texts json up token token thief t d₁
                (λ meta i q. absurd (cc (gone, q)))
        ])

  refresh_access_token_rotates :
      (configured : Bytes → ℕ) (rotates : Bytes → ℤ → ℤ → ℕ → Bool)
      (token device new access : Bytes) (t : ℕ) (d : Db) (info : UserTokenInfo)
      → verify_refresh_token texts json token device t d ≡ ((true, some info), d)
      → should_rotate_refresh_token texts json rotates token t d ≡ true
      → (let next =
            generate_refresh_token texts json configured info.user_id info.username info.device_id
              info.platform 0 new t d in
          refresh_access_token texts json configured rotates token device new access t d ≡ (
            record { success = true; new_access_token = access; new_refresh_token = next.0 },
            next.1,
          ))
  unfolding refresh_access_token renew
  refresh_access_token_rotates configured rotates token device new access t d info accepted turn =
      let next =
        generate_refresh_token texts json configured info.user_id info.username info.device_id
          info.platform 0 new t d in
      ap
        (λ (v : (Bool × Option UserTokenInfo) × Db).
          renew texts json configured rotates token new access t v.0.1 v.1)
        accepted
      ∙ ap
          (λ (b : Bool).
            if b
            then (
              record { success = true; new_access_token = access; new_refresh_token = next.0 },
              next.1,
            )
            else (record { success = true; new_access_token = access; new_refresh_token = [] }, d))
          turn

  -- A refresh that rotates the refresh token gives a new one, and the old one stays valid as long as
  -- it would have been.
  pub refresh_access_token-verify_refresh_token :
      (configured : Bytes → ℕ) (rotates : Bytes → ℤ → ℤ → ℕ → Bool)
      (user name device platform : Bytes) (seconds : ℕ) (token new access : Bytes)
      (now wait later : ℕ) (d : Db)
      → token ≢ []
      → token ≢ new
      → ltb (now + wait + later) (now + lifetime texts json configured platform seconds * second)
        ≡ true
      → rotates platform
          (pos now)
          (pos (now + lifetime texts json configured platform seconds * second))
          (now + wait)
        ≡ true
      → (let info =
            new_info user name device platform
              (lifetime texts json configured platform seconds)
              now in
          let d₁ =
            (generate_refresh_token texts json configured user name device platform seconds token
              now d).1 in
          let r =
            refresh_access_token texts json configured rotates token device new access
              (now + wait)
              d₁ in
          (r.0 ≡ record { success = true; new_access_token = access; new_refresh_token = new })
          × (verify_refresh_token texts json token device (now + wait + later) r.1
              ≡ ((true, some info), r.1)))
  refresh_access_token-verify_refresh_token configured rotates user name device platform seconds
        token new access now wait later d ne fresh alive turn =
      let t = now + wait in
      let t' = now + wait + later in
      let made = lifetime texts json configured platform seconds in
      let info = new_info user name device platform made now in
      let d₁ =
        (generate_refresh_token texts json configured user name device platform seconds token now
          d).1 in
      let alive₁ : ltb t (now + made * second) ≡ true = ground (arith, alive) in
      let self = (==_iff token token).1 refl in
      let stored =
        (generate_refresh_token-text_at texts json up configured user name device platform seconds
          token now d).1 in
      let held : text_at (refresh_token_key token) t d₁
          ≡ some (json.dump (refresh_meta info token)) =
        ground (arith, stored token t (omega arith), self, alive₁) in
      let held' : text_at (refresh_token_key token) t' d₁
          ≡ some (json.dump (refresh_meta info token)) =
        ground (arith, stored token t' (omega arith), self, alive) in
      let (j, parsed, same) = json.parse-dump (refresh_meta info token) in
      let (user_data, live, own) = user_info-refresh_meta info token j same in
      let accepted =
        verify_refresh_token-some texts json up token device t d₁
          (json.dump (refresh_meta info token)) j info ne held parsed user_data live own in
      let rotated = should_rotate_refresh_token-some rotates token t d₁ info held ∙ turn in
      let next =
        generate_refresh_token texts json configured user name device platform 0 new t d₁ in
      let (named, kept) =
        generate_refresh_token-text_at texts json up configured user name device platform 0 new t
          d₁ in
      let result : refresh_access_token texts json configured rotates token device new access t d₁
          ≡ (
            record { success = true; new_access_token = access; new_refresh_token = next.0 },
            next.1,
          ) =
        refresh_access_token_rotates configured rotates token device new access t d₁ info accepted
          rotated in
      let still : text_at (refresh_token_key token) t' next.1
          ≡ some (json.dump (refresh_meta info token)) =
        kept token t' (omega arith) ∙ ground (arith, held', fresh, ==_iff token new) in
      subst Outcome (sym result) (
        ap (λ n. record { success = true; new_access_token = access; new_refresh_token = n }) named,
        verify_refresh_token-some texts json up token device t' next.1
            (json.dump (refresh_meta info token)) j info ne still parsed user_data live own,
      )
    where
      Outcome : TokenResult × Db → Type 0
      Outcome r =
          (r.0 ≡ record { success = true; new_access_token = access; new_refresh_token = new })
          × (verify_refresh_token texts json token device (now + wait + later) r.1 ≡ (
            (
              true,
              some (
                  new_info user name device platform
                    (lifetime texts json configured platform seconds) now),
            ),
            r.1,
          ))
