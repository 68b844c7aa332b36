-- ===== src/AuthManager.antt =====
-- gateway/auth/auth_mgr.cpp: the authentication that keeps its revoked tokens in memory. Its calls come
-- one after another; a call that locks the mutex that it is_listed already does not return.
pub mod Lock
mod Tests
use my_chat.Prelude.{
  ℕ, ◌*◌, ◌+◌, ◌/◌, ◌≡◌, Bool, true, false, not, ◌&&◌, ◌||◌, Option, none, some, List, [], ◌∷◌,
  bytes_comparable, ◌==◌, if◌then◌else◌,
}
use my_chat.Json.{Bytes}
use my_chat.Redis.Texts.{second}

pub record TokenClaims : Type 0 where
  pub id : Bytes
  pub subject : Bytes
  pub username : Bytes
  pub device_id : Bytes
  pub issued_at : ℕ
  pub expires_at : ℕ

-- jwt-cpp with the algorithm, key, issuer and audience of auth_mgr.cpp.
pub record TokenJwt : Type 0 where
  pub sign : TokenClaims → Bytes
  -- `none` where it throws, and for tokens without one of these claims, which are not made here
  pub decode : Bytes → Option TokenClaims
  pub verifies : Bytes → ℕ → Bool
  pub decode-sign : (c : TokenClaims) → decode (sign c) ≡ some c

pub record TokenInfo : Type 0 where
  pub user_id : Bytes
  pub username : Bytes
  pub device_id : Bytes
  pub create_time : ℕ

pub record AuthManager : Type 0 where
  pub expire_seconds : ℕ
  pub locked : Bool
  pub revoked_tokens : List Bytes

abbrev pub new_manager : ℕ → AuthManager
new_manager expire_seconds = record {
  expire_seconds = expire_seconds;
  locked = false;
  revoked_tokens = [];
}

-- A lock_guard for what follows, which is given up behind it. `none` does not return.
unfoldable pub with_lock {ℓ} :
    {A : Type ℓ} → AuthManager → (AuthManager → Option (A × AuthManager)) → Option (A × AuthManager)
with_lock m run =
    if m.locked
    then none
    else elim (run (record {
      expire_seconds = m.expire_seconds;
      locked = true;
      revoked_tokens = m.revoked_tokens;
    })) [
      | none ↦ none
      | some (a, m') ↦ some (
        a,
        record {
          expire_seconds = m'.expire_seconds;
          locked = false;
          revoked_tokens = m'.revoked_tokens;
        },
      )
    ]

unfoldable pub is_listed : Bytes → List Bytes → Bool
is_listed jti [] = false
is_listed jti (x ∷ xs) = (x == jti) || is_listed jti xs

unfoldable pub erase_jti : Bytes → List Bytes → List Bytes
erase_jti jti [] = []
erase_jti jti (x ∷ xs) = let rest = erase_jti jti xs in if x == jti then rest else x ∷ rest

abbrev pub set_revoked_tokens : List Bytes → AuthManager → AuthManager
set_revoked_tokens xs m = record {
  expire_seconds = m.expire_seconds;
  locked = m.locked;
  revoked_tokens = xs;
}

module _ (jwt : TokenJwt) where
  -- `jti` is the new UUID.
  unfoldable pub generate_token : AuthManager → Bytes → Bytes → Bytes → Bytes → ℕ → Bytes
  generate_token m user_id username device_id jti now = jwt.sign (record {
    id = jti;
    subject = user_id;
    username = username;
    device_id = device_id;
    issued_at = now / second;
    expires_at = (now + m.expire_seconds * second) / second;
  })

  unfoldable pub extract_jti : Bytes → Bytes
  extract_jti token = elim (jwt.decode token) [ none ↦ [] | some decoded ↦ decoded.id ]

  unfoldable pub revoke_token : Bytes → AuthManager → Option (Unit {0} × AuthManager)
  revoke_token token m = with_lock m (λ m₁.
      let jti = extract_jti token in
      if jti == []
      then some (tt, m₁)
      else with_lock m₁ (λ m₂. some (tt, set_revoked_tokens (jti ∷ m₂.revoked_tokens) m₂)))

  unfoldable pub unrevoke_token : Bytes → AuthManager → Option (Unit {0} × AuthManager)
  unrevoke_token token m = with_lock m (λ m₁.
      let jti = extract_jti token in
      if jti == []
      then some (tt, m₁)
      else with_lock m₁ (λ m₂. some (tt, set_revoked_tokens (erase_jti jti m₂.revoked_tokens) m₂)))

  unfoldable pub is_token_revoked : Bytes → AuthManager → Option (Bool × AuthManager)
  is_token_revoked token m =
      let jti = extract_jti token in
      if jti == []
      then some (false, m)
      else with_lock m (λ m₁. some (is_listed jti m₁.revoked_tokens, m₁))

  -- The user's data where the answer is true.
  unfoldable pub verify_token : Bytes → ℕ → AuthManager → Option (Option TokenInfo × AuthManager)
  verify_token token now m = elim (jwt.decode token) [
    | none ↦ some (none, m)
    | some decoded ↦
        if jwt.verifies token now
        then elim (is_token_revoked token m) [
          | none ↦ none
          | some (true, m') ↦ some (none, m')
          | some (false, m') ↦ some (
            some (record {
              user_id = decoded.subject;
              username = decoded.username;
              device_id = decoded.device_id;
              create_time = decoded.issued_at;
            }),
            m',
          )
        ]
        else some (none, m)
  ]
