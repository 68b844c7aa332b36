-- ===== src/Auth/Access.antt =====
-- gateway/auth/multi_platform_auth.cpp: the access tokens, which are JSON web tokens, and the list of
-- those that are revoked, in Redis.
use my_chat.Prelude.{
  ℕ, ◌+◌, ◌-◌, ◌*◌, ◌/◌, ◌≤◌, ◌<◌, ◌≡◌, Bool, true, false, not, ◌&&◌, Option, none, some, [], ◌++◌,
  bytes_comparable, ◌==◌, if◌then◌else◌, ltb,
}
use my_chat.Prelude.Int.{pos}
use my_chat.Json.{Bytes}
use my_chat.Redis.Texts.{Texts, second}
use my_chat.Connections.Keys.{codes}
use my_chat.Auth.{UserTokenInfo}

-- What is read from a token; jwt-cpp keeps whole seconds.
pub record Claims : Type 0 where
  pub id : Bytes
  pub subject : Bytes
  pub username : Bytes
  pub device_id : Bytes
  pub platform : Bytes
  pub issued_at : ℕ
  pub expires_at : ℕ

-- jwt-cpp with the algorithm, issuer and audience of multi_platform_auth.cpp. Times are in nanoseconds,
-- except those in a token.
pub record Jwt : Type 0 where
  pub sign : Bytes → Claims → Bytes
  -- `none` where it throws, and for tokens without one of these claims, which are not made here
  pub decode : Bytes → Option Claims
  pub verifies : Bytes → Bytes → ℕ → Bool
  pub decode-sign : (key : Bytes) (c : Claims) → decode (sign key c) ≡ some c
  pub verifies-sign :
      (key : Bytes) (c : Claims) (now : ℕ)
      → c.issued_at * second ≤ now
      → now < c.expires_at * second
      → verifies key (sign key c) now ≡ true

abbrev pub revoked_access_token_key : Bytes → Bytes
revoked_access_token_key jti = codes "revoked_access_token:" ++ jti

abbrev pub info_of : Claims → UserTokenInfo
info_of c = record {
  user_id = c.subject;
  username = c.username;
  device_id = c.device_id;
  platform = c.platform;
  create_time = pos (c.issued_at * second);
  expire_time = pos (c.expires_at * second);
}

-- The whole seconds that a token has left.
abbrev pub ttl_of : ℕ → ℕ → ℕ
ttl_of exp now = if ltb now exp then (exp - now) / second else 0

module _ (texts : Texts) (jwt : Jwt) (secret_key : Bytes) where
  open texts use {Db, set, del, expire, exists}

  -- `jti` is the new UUID, `configured` access_token_expire_seconds of the platform.
  unfoldable pub generate_access_token :
      (Bytes → ℕ) → Bytes → Bytes → Bytes → Bytes → ℕ → Bytes → ℕ → Bytes
  generate_access_token configured user_id username device_id platform expire_seconds jti now =
      let seconds = if ltb 0 expire_seconds then expire_seconds else configured platform in
      jwt.sign secret_key (record {
        id = jti;
        subject = user_id;
        username = username;
        device_id = device_id;
        platform = platform;
        issued_at = now / second;
        expires_at = (now + seconds * second) / second;
      })

  -- "" where the token cannot be read.
  unfoldable pub extract_jti : Bytes → Bytes
  extract_jti token = elim (jwt.decode token) [ none ↦ [] | some decoded ↦ decoded.id ]

  unfoldable pub is_token_revoked : Bytes → ℕ → Db → Bool
  is_token_revoked token now d =
      let jti = extract_jti token in
      if jti == []
      then false
      else elim (exists (revoked_access_token_key jti) now d) [ none ↦ true | some found ↦ found ]

  -- verify_access_token that gives the user's data, where the answer is true.
  unfoldable pub verify_access_token : Bytes → ℕ → Db → Option UserTokenInfo
  verify_access_token access_token now d = elim (jwt.decode access_token) [
    | none ↦ none
    | some decoded ↦
        if jwt.verifies secret_key access_token now && not (is_token_revoked access_token now d)
        then some (info_of decoded)
        else none
  ]

  -- verify_access_token for a device.
  unfoldable pub verify_access_token_device : Bytes → Bytes → ℕ → Db → Bool
  verify_access_token_device access_token device_id now d =
      if access_token == [] then false else elim (jwt.decode access_token) [
        | none ↦ false
        | some decoded ↦
            jwt.verifies secret_key access_token now
            && not (is_token_revoked access_token now d)
            && (device_id == decoded.device_id)
      ]

  -- The block of `execute` in revoke_token.
  unfoldable pub list_token : Bytes → ℕ → ℕ → Db → Bool × Db
  list_token jti ttl now d =
      let r = set (revoked_access_token_key jti) (codes "1") now d in
      if r.0
      then (if ltb 0 ttl then expire (revoked_access_token_key jti) ttl now r.1 else (true, r.1))
      else (false, r.1)

  unfoldable pub revoke_token : Bytes → ℕ → Db → Bool × Db
  revoke_token token now d =
      let jti = extract_jti token in
      if jti == [] then (false, d) else elim (jwt.decode token) [
        | none ↦ (false, d)
        | some decoded ↦ list_token jti (ttl_of (decoded.expires_at * second) now) now d
      ]

  unfoldable pub unrevoke_token : Bytes → ℕ → Db → Bool × Db
  unrevoke_token token now d =
      let jti = extract_jti token in
      if jti == [] then (false, d) else del (revoked_access_token_key jti) now d
