-- ===== src/Auth/Steps.antt =====
-- No operation of multi_platform_auth.cpp but unrevoke_refresh_token makes a revoked refresh token
-- valid again, while Redis answers.
use my_chat.Prelude.{
  ℕ, ◌≡◌, ◌≢◌, ◌∙◌, sym, Bool, true, false, Option, none, some, bytes_comparable, ◌==◌, ==_iff,
  arith, subst, Bool-cases, Option-cases, inl, inr, ◌⊎◌, if_cases,
}
use my_chat.Prelude.Int.{ℤ}
use my_chat.Prelude.Tables.{lookup}
use my_chat.Json.{Bytes, Json}
use my_chat.Redis.Texts.{Texts, Answers}
use my_chat.Connections.Keys.{user_id_key}
use my_chat.Auth.{
  UserTokenInfo, refresh_token_key, tokens_key, as_text, and_then, generate_refresh_token,
  set_revoked, revoke_refresh_token, verify_refresh_token, del_refresh_token, leave_tokens,
  refresh_access_token, renew, TokenResult, should_rotate_refresh_token,
}
use my_chat.Auth.Lifetime.{and_then_ok, generate_refresh_token-text_at}
use my_chat.Auth.Revocation.{Refused, IsDead, revoked-Refused, set_revoked_cases}

module _ (texts : Texts) (json : Json) (up : Answers texts) where
  open texts use {Db, text_at, get, del, srem, del_lem, srem_lem, get_lem}

  pub revoke_refresh_token-IsDead :
      (token : Bytes) (now : ℕ) (d : Db)
      → IsDead texts json token now (revoke_refresh_token texts json token now d).1
  revoke_refresh_token-IsDead token now d =
      elim (set_revoked_cases texts json up true token now d) [
        | inl (e, dead) ↦ subst (IsDead texts json token now) (sym e) dead
        | inr (meta, j, _, _, own, _) ↦
            subst (Refused texts json) (sym own) (revoked-Refused texts json j)
      ]

  pub set_revoked-IsDead :
      (token : Bytes) (revoked : Bool) (x : Bytes) (now : ℕ) (d : Db)
      → token ≢ x
      → IsDead texts json token now d
      → IsDead texts json token now (set_revoked texts json revoked x now d).1
  set_revoked-IsDead token revoked x now d ne dead =
      elim (set_revoked_cases texts json up revoked x now d) [
        | inl (e, _) ↦ subst (IsDead texts json token now) (sym e) dead
        | inr (_, _, _, _, _, others) ↦
            subst (Refused texts json) (sym (others token now (omega arith) ne)) dead
      ]

  -- A token of any name may be revoked.
  pub revoke-IsDead :
      (token x : Bytes) (now : ℕ) (d : Db)
      → IsDead texts json token now d
      → IsDead texts json token now (revoke_refresh_token texts json x now d).1
  revoke-IsDead token x now d dead = elim (Bool-cases (token == x)) [
    | inl e ↦
        subst (λ y. IsDead texts json token now (revoke_refresh_token texts json y now d).1)
          ((==_iff token x).0 e) (revoke_refresh_token-IsDead token now d)
    | inr e ↦ set_revoked-IsDead token true x now d (λ q. ground (arith, e, q, ==_iff token x)) dead
  ]

  verify_refresh_token_state :
      (x device : Bytes) (now : ℕ) (d : Db)
      → ((verify_refresh_token texts json x device now d).1 ≡ d)
        ⊎ ((verify_refresh_token texts json x device now d).1
            ≡ (revoke_refresh_token texts json x now d).1)
  unfolding verify_refresh_token
  verify_refresh_token_state x device now d = ground arith

  pub verify_refresh_token-IsDead :
      (token x device : Bytes) (now : ℕ) (d : Db)
      → IsDead texts json token now d
      → IsDead texts json token now (verify_refresh_token texts json x device now d).1
  verify_refresh_token-IsDead token x device now d dead =
      elim (verify_refresh_token_state x device now d) [
        | inl e ↦ subst (IsDead texts json token now) (sym e) dead
        | inr e ↦ subst (IsDead texts json token now) (sym e) (revoke-IsDead token x now d dead)
      ]

  pub IsDead-verify_refresh_token :
      (token device : Bytes) (now : ℕ) (d : Db)
      → IsDead texts json token now d
      → (verify_refresh_token texts json token device now d).0 ≡ (false, none)
  unfolding verify_refresh_token
  IsDead-verify_refresh_token token device now d dead =
      let (o, got) = up.get_ok (refresh_token_key token) now d in
      let held = get_lem (refresh_token_key token) now d o got in
      elim (Option-cases o) [
        | inl e ↦ ground (arith, got, e)
        | inr (meta, e) ↦ elim (Option-cases (json.parse meta)) [
          | inl q ↦ ground (arith, got, e, q)
          | inr (j, q) ↦ let no = dead meta j (sym held ∙ e) q in ground (arith, got, e, q, no)
        ]
      ]

  leave_tokens-IsDead :
      (token x : Bytes) (o : Option Bytes) (now : ℕ) (d : Db)
      → IsDead texts json token now d
      → IsDead texts json token now (leave_tokens texts json x o now d).1
  unfolding leave_tokens
  leave_tokens-IsDead token x none now d dead = dead
  leave_tokens-IsDead token x (some meta) now d dead =
      let left = leave_tokens texts json x (some meta) now d in
      elim (Option-cases (json.parse meta)) [
        | inl q ↦ let e : left ≡ (false, d) = ground (arith, q) in subst Dead (sym e) dead
        | inr (j, q) ↦ elim (Option-cases (as_text (lookup user_id_key j))) [
          | inl w ↦ let e : left ≡ (false, d) = ground (arith, q, w) in subst Dead (sym e) dead
          | inr (user, w) ↦
              let e : left ≡ srem (tokens_key user) x now d = ground (arith, q, w) in
              let kept =
                srem_lem (tokens_key user) x now d (up.srem_ok _ _ _ _) (refresh_token_key token)
                  now (omega arith) in
              subst Dead (sym e) (subst (Refused texts json) (sym kept) dead)
        ]
      ]
    where
      Dead : Bool × Db → Type 0
      Dead r = IsDead texts json token now r.1

  pub del_refresh_token-IsDead :
      (token x : Bytes) (now : ℕ) (d : Db)
      → IsDead texts json token now d
      → IsDead texts json token now (del_refresh_token texts json x now d).1
  unfolding del_refresh_token
  del_refresh_token-IsDead token x now d dead =
      let key = refresh_token_key x in
      let (o, got) = up.get_ok key now d in
      let d₁ = (del key now d).1 in
      let gone =
        del_lem key now d (up.del_ok key now d) (refresh_token_key token) now (omega arith) in
      let dead₁ : IsDead texts json token now d₁ =
        subst (Refused texts json) (sym gone)
          (if_cases (Refused texts json) (token == x) (λ _ meta j q. absurd (cc q)) (λ _. dead)) in
      let run : del_refresh_token texts json x now d
          ≡ and_then texts json (del key now d) (leave_tokens texts json x o now) =
        ground (arith, got) in
      subst (λ (r : Bool × Db). IsDead texts json token now r.1)
        (sym (
          run
          ∙ and_then_ok texts json (del key now d) (leave_tokens texts json x o now)
              (up.del_ok key now d)))
        (leave_tokens-IsDead token x o now d₁ dead₁)

  pub generate_refresh_token-IsDead :
      (configured : Bytes → ℕ) (user name device platform : Bytes) (seconds : ℕ) (token x : Bytes)
      (now : ℕ) (d : Db)
      → token ≢ x
      → IsDead texts json token now d
      → IsDead texts json token now
          (generate_refresh_token texts json configured user name device platform seconds x now d).1
  generate_refresh_token-IsDead configured user name device platform seconds token x now d ne dead =
      let e =
        (generate_refresh_token-text_at texts json up configured user name device platform seconds x
            now d).1
          token now (omega arith) in
      let same : text_at (refresh_token_key token) now
            (generate_refresh_token texts json configured user name device platform seconds x now
              d).1
          ≡ text_at (refresh_token_key token) now d =
        e ∙ ground (arith, ne, ==_iff token x) in
      subst (Refused texts json) (sym same) dead

  renew-IsDead :
      (configured : Bytes → ℕ) (rotates : Bytes → ℤ → ℤ → ℕ → Bool) (token x new access : Bytes)
      (now : ℕ) (o : Option UserTokenInfo) (d : Db)
      → token ≢ new
      → IsDead texts json token now d
      → IsDead texts json token now (renew texts json configured rotates x new access now o d).1
  unfolding renew
  renew-IsDead configured rotates token x new access now none d ne dead = dead
  renew-IsDead configured rotates token x new access now (some info) d ne dead =
      if_cases (λ (r : TokenResult × Db). IsDead texts json token now r.1)
        (should_rotate_refresh_token texts json rotates x now d)
        (λ _.
          generate_refresh_token-IsDead configured info.user_id info.username info.device_id
            info.platform 0 token new now d ne dead)
        (λ _. dead)

  pub refresh_access_token-IsDead :
      (configured : Bytes → ℕ) (rotates : Bytes → ℤ → ℤ → ℕ → Bool)
      (token x device new access : Bytes) (now : ℕ) (d : Db)
      → token ≢ new
      → IsDead texts json token now d
      → IsDead texts json token now
          (refresh_access_token texts json configured rotates x device new access now d).1
  unfolding refresh_access_token
  refresh_access_token-IsDead configured rotates token x device new access now d ne dead =
      let r = verify_refresh_token texts json x device now d in
      renew-IsDead configured rotates token x new access now r.0.1 r.1 ne
        (verify_refresh_token-IsDead token x device now d dead)
