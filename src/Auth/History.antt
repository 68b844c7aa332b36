-- ===== src/Auth/History.antt =====
-- Any order of the operations of multi_platform_auth.cpp on refresh tokens, and what a refresh does to
-- the old token, while Redis answers.
use my_chat.Prelude.{
  ℕ, ◌+◌, ◌≡◌, ◌≢◌, Bool, false, none, List, [], ◌∷◌, bytes_comparable, arith, All,
}
use my_chat.Prelude.Int.{ℤ}
use my_chat.Json.{Bytes, Json}
use my_chat.Redis.Texts.{Texts, Answers}
use my_chat.Auth.{
  generate_refresh_token, revoke_refresh_token, unrevoke_refresh_token, verify_refresh_token,
  del_refresh_token, refresh_access_token,
}
use my_chat.Auth.Revocation.{IsDead, IsDead-later}
use my_chat.Auth.Steps.{
  revoke_refresh_token-IsDead, revoke-IsDead, set_revoked-IsDead, verify_refresh_token-IsDead,
  IsDead-verify_refresh_token, del_refresh_token-IsDead, generate_refresh_token-IsDead,
  refresh_access_token-IsDead,
}

-- The calls; the new token of a generation or a refresh comes from rt_generate.
pub data Call : Type 0 where
  generates : Bytes → Bytes → Bytes → Bytes → ℕ → Bytes → Call
  verifies : Bytes → Bytes → Call
  revokes : Bytes → Call
  unrevokes : Bytes → Call
  deletes : Bytes → Call
  refreshes : Bytes → Bytes → Bytes → Bytes → Call

-- The call neither lifts the revocation of the token nor draws the same token again.
abbrev pub Spares : Bytes → Call → Type 0
Spares token (generates user name device platform seconds new) = token ≢ new
Spares token (verifies x device) = Unit
Spares token (revokes x) = Unit
Spares token (unrevokes x) = token ≢ x
Spares token (deletes x) = Unit
Spares token (refreshes x device new access) = token ≢ new

-- The time after the delays of some calls.
abbrev pub end_time : List (ℕ × Call) → ℕ → ℕ
end_time [] now = now
end_time ((delay, c) ∷ cs) now = end_time cs (now + delay)

module _ (texts : Texts) (json : Json) (configured : Bytes → ℕ)
    (rotates : Bytes → ℤ → ℤ → ℕ → Bool) where
  open texts use {Db, text_at}

  unfoldable pub call : Call → ℕ → Db → Db
  call (generates user name device platform seconds new) now d =
      (generate_refresh_token texts json configured user name device platform seconds new now d).1
  call (verifies x device) now d = (verify_refresh_token texts json x device now d).1
  call (revokes x) now d = (revoke_refresh_token texts json x now d).1
  call (unrevokes x) now d = (unrevoke_refresh_token texts json x now d).1
  call (deletes x) now d = (del_refresh_token texts json x now d).1
  call (refreshes x device new access) now d =
      (refresh_access_token texts json configured rotates x device new access now d).1

  -- Each call comes some time after the one before it.
  unfoldable pub call_all : List (ℕ × Call) → ℕ → Db → Db
  call_all [] now d = d
  call_all ((delay, c) ∷ cs) now d = call_all cs (now + delay) (call c (now + delay) d)

  module _ (up : Answers texts) where
    call-IsDead :
        (token : Bytes) (c : Call) (now : ℕ) (d : Db)
        → Spares token c
        → IsDead texts json token now d
        → IsDead texts json token now (call c now d)
    unfolding call
    call-IsDead token (generates user name device platform seconds new) now d ne dead =
        generate_refresh_token-IsDead texts json up configured user name device platform seconds
          token new now d ne dead
    call-IsDead token (verifies x device) now d _ dead =
        verify_refresh_token-IsDead texts json up token x device now d dead
    call-IsDead token (revokes x) now d _ dead = revoke-IsDead texts json up token x now d dead
    call-IsDead token (unrevokes x) now d ne dead =
        set_revoked-IsDead texts json up token false x now d ne dead
    call-IsDead token (deletes x) now d _ dead =
        del_refresh_token-IsDead texts json up token x now d dead
    call-IsDead token (refreshes x device new access) now d ne dead =
        refresh_access_token-IsDead texts json up configured rotates token x device new access now d
          ne dead

    call_all-IsDead :
        (token : Bytes) (cs : List (ℕ × Call)) (now : ℕ) (d : Db)
        → All (λ (c : ℕ × Call). Spares token c.1) cs
        → IsDead texts json token now d
        → IsDead texts json token (end_time cs now) (call_all cs now d)
    unfolding call_all
    call_all-IsDead token [] now d _ dead = dead
    call_all-IsDead token ((delay, c) ∷ cs) now d (spares, all) dead =
        let t = now + delay in
        call_all-IsDead token cs t (call c t d) all (
          call-IsDead token c t d spares (IsDead-later texts json token now t d (omega arith) dead))

    pub IsDead-call_all :
        (token device : Bytes) (cs : List (ℕ × Call)) (now delay : ℕ) (d : Db)
        → All (λ (c : ℕ × Call). Spares token c.1) cs
        → IsDead texts json token now d
        → (verify_refresh_token texts json token device
            (end_time cs now + delay)
            (call_all cs now d)).0
          ≡ (false, none)
    IsDead-call_all token device cs now delay d all dead =
        let t = end_time cs now in
        let d₁ = call_all cs now d in
        IsDead-verify_refresh_token texts json up token device (t + delay) d₁ (
          IsDead-later texts json token t (t + delay) d₁ (omega arith)
            (call_all-IsDead token cs now d all dead))

    -- A token that has been revoked is never accepted again, from any device and at any time, whatever
    -- is called in between, if its revocation is not lifted and the random token is not drawn again.
    pub revoked-verify_refresh_token :
        (token device : Bytes) (cs : List (ℕ × Call)) (now delay : ℕ) (d : Db)
        → All (λ (c : ℕ × Call). Spares token c.1) cs
        → (verify_refresh_token texts json token device
            (end_time cs now + delay)
            (call_all cs now (revoke_refresh_token texts json token now d).1)).0
          ≡ (false, none)
    revoked-verify_refresh_token token device cs now delay d all =
        IsDead-call_all token device cs now delay (revoke_refresh_token texts json token now d).1
          all (revoke_refresh_token-IsDead texts json up token now d)
