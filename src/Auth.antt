-- ===== src/Auth.antt =====
-- gateway/auth/multi_platform_auth.cpp: the refresh tokens, kept in Redis. What the platform's
-- configuration says, the random token and the access token are arguments.
pub mod Lifetime
pub mod Revocation
pub mod Steps
pub mod History
pub mod Rotation
pub mod Access
pub mod Blacklist
mod Tests
use my_chat.Prelude.{
  ℕ, zero, suc, ◌+◌, ◌*◌, ◌≡◌, Bool, true, false, Option, none, some, List, [], ◌∷◌, ◌++◌,
  bytes_comparable, ◌==◌, if◌then◌else◌, ltb,
}
use my_chat.Prelude.Int.{ℤ, pos, negsuc}
use my_chat.Prelude.Tables.{lookup}
use my_chat.Json.{Bytes, Object, JsonValue, text, number, boolean, Json}
use my_chat.Redis.Texts.{Texts, second}
use my_chat.Connections.Keys.{codes, user_id_key, device_id_key, platform_key}

pub record UserTokenInfo : Type 0 where
  pub user_id : Bytes
  pub username : Bytes
  pub device_id : Bytes
  pub platform : Bytes
  pub create_time : ℤ
  pub expire_time : ℤ

pub record TokenResult : Type 0 where
  pub success : Bool
  pub new_access_token : Bytes
  pub new_refresh_token : Bytes

abbrev pub revoked_key : Bytes
revoked_key = codes "revoked"

abbrev pub username_key : Bytes
username_key = codes "username"

abbrev pub create_time_key : Bytes
create_time_key = codes "create_time"

abbrev pub expire_time_key : Bytes
expire_time_key = codes "expire_time"

abbrev pub refresh_token_key : Bytes → Bytes
refresh_token_key token = codes "refresh_token:" ++ token

abbrev pub tokens_key : Bytes → Bytes
tokens_key user_id = codes "user:" ++ (user_id ++ codes ":refresh_tokens")

-- `decode[key] = value`
unfoldable pub assign : Bytes → JsonValue → Object → Object
assign key value [] = (key, value) ∷ []
assign key value ((k, v) ∷ o) =
    let rest = assign key value o in if k == key then (k, value) ∷ o else (k, v) ∷ rest

-- The conversions of an entry to std::string, int64_t and bool; those of another type throw, as does
-- that of a missing entry, which is null.
abbrev pub as_text : Option JsonValue → Option Bytes
as_text (some (text t)) = some t
as_text (some (number n)) = none
as_text (some (boolean b)) = none
as_text none = none

abbrev pub as_number : Option JsonValue → Option ℤ
as_number (some (text t)) = none
as_number (some (number n)) = some n
as_number (some (boolean true)) = some (pos 1)
as_number (some (boolean false)) = some (pos 0)
as_number none = none

abbrev pub as_boolean : Option JsonValue → Option Bool
as_boolean (some (text t)) = none
as_boolean (some (number n)) = none
as_boolean (some (boolean b)) = some b
as_boolean none = none

-- `decode["device_id"] != device_id`; an entry of another type differs from every text.
abbrev pub is_device : Bytes → Option Bytes → Bool
is_device device_id none = false
is_device device_id (some t) = t == device_id

unfoldable pub user_info : Object → Option UserTokenInfo
user_info o = elim (as_text (lookup device_id_key o)) [
  | none ↦ none
  | some device_id ↦ elim (as_text (lookup platform_key o)) [
    | none ↦ none
    | some platform ↦ elim (as_text (lookup user_id_key o)) [
      | none ↦ none
      | some user_id ↦ elim (as_text (lookup username_key o)) [
        | none ↦ none
        | some username ↦ elim (as_number (lookup create_time_key o)) [
          | none ↦ none
          | some create_time ↦ elim (as_number (lookup expire_time_key o)) [
            | none ↦ none
            | some expire_time ↦ some (record {
              user_id = user_id;
              username = username;
              device_id = device_id;
              platform = platform;
              create_time = create_time;
              expire_time = expire_time;
            })
          ]
        ]
      ]
    ]
  ]
]

-- The metadata that generate_refresh_token stores.
unfoldable pub refresh_meta : UserTokenInfo → Bytes → Object
refresh_meta info token =
    (user_id_key, text info.user_id)
    ∷ (username_key, text info.username)
    ∷ (device_id_key, text info.device_id)
    ∷ (platform_key, text info.platform)
    ∷ (expire_time_key, number info.expire_time)
    ∷ (create_time_key, number info.create_time)
    ∷ (codes "jti", text token)
    ∷ (codes "type", text (codes "refresh"))
    ∷ (revoked_key, boolean false)
    ∷ (codes "last_used", number info.create_time)
    ∷ []

abbrev pub new_info : Bytes → Bytes → Bytes → Bytes → ℕ → ℕ → UserTokenInfo
new_info user_id username device_id platform seconds now = record {
  user_id = user_id;
  username = username;
  device_id = device_id;
  platform = platform;
  create_time = pos now;
  expire_time = pos (now + seconds * second);
}

-- `if (remaining > 0) expire(key, remaining)`
abbrev pub if_positive {ℓ} : {A : Type ℓ} → ℤ → A → (ℕ → A) → A
if_positive (pos zero) other run = other
if_positive (pos (suc n)) other run = run (suc n)
if_positive (negsuc n) other run = other

module _ (texts : Texts) (json : Json) where
  open texts use {Db, set, get, del, expire, ttl, sadd, srem}

  -- A command that throws ends the block of `execute`.
  abbrev pub and_then : Bool × Db → (Db → Bool × Db) → Bool × Db
  and_then r next = if r.0 then next r.1 else r

  -- `configured` is refresh_token_expire_seconds of the platform. The result is "" where Redis throws.
  unfoldable pub generate_refresh_token :
      (Bytes → ℕ) → Bytes → Bytes → Bytes → Bytes → ℕ → Bytes → ℕ → Db → Bytes × Db
  generate_refresh_token configured user_id username device_id platform expire_seconds token now d =
      let seconds = if ltb 0 expire_seconds then expire_seconds else configured platform in
      let info = new_info user_id username device_id platform seconds now in
      let (done, d') =
        and_then (set (refresh_token_key token) (json.dump (refresh_meta info token)) now d) (λ d₁.
          and_then (expire (refresh_token_key token) seconds now d₁) (λ d₂.
            and_then (sadd (tokens_key user_id) token now d₂)
              (λ d₃. expire (tokens_key user_id) seconds now d₃))) in
      (if done then token else [], d')

  -- revoke_refresh_token and unrevoke_refresh_token, which differ in the value of `revoked`.
  unfoldable pub set_revoked : Bool → Bytes → ℕ → Db → Bool × Db
  set_revoked revoked token now d = elim (get (refresh_token_key token) now d) [
    | none ↦ (false, d)
    | some none ↦ (false, d)
    | some (some meta) ↦ elim (ttl (refresh_token_key token) now d) [
      | none ↦ (false, d)
      | some remaining ↦ elim (json.parse meta) [
        | none ↦ (false, d)
        | some decode ↦
            and_then
              (set (refresh_token_key token)
                (json.dump (assign revoked_key (boolean revoked) decode)) now d)
              (λ d₁.
                if_positive remaining (true, d₁) (λ s. expire (refresh_token_key token) s now d₁))
      ]
    ]
  ]

  abbrev pub revoke_refresh_token : Bytes → ℕ → Db → Bool × Db
  revoke_refresh_token token now d = set_revoked true token now d

  abbrev pub unrevoke_refresh_token : Bytes → ℕ → Db → Bool × Db
  unrevoke_refresh_token token now d = set_revoked false token now d

  -- The answer, the user's data where it is true, and the state.
  unfoldable pub verify_refresh_token : Bytes → Bytes → ℕ → Db → (Bool × Option UserTokenInfo) × Db
  verify_refresh_token token device_id now d =
      if token == [] then ((false, none), d) else elim (get (refresh_token_key token) now d) [
        | none ↦ ((false, none), d)
        | some none ↦ ((false, none), d)
        | some (some meta) ↦ elim (json.parse meta) [
          | none ↦ ((false, none), d)
          | some decode ↦
              if is_device device_id (as_text (lookup device_id_key decode))
              then elim (as_boolean (lookup revoked_key decode)) [
                | none ↦ ((false, none), d)
                | some true ↦ ((false, none), d)
                | some false ↦ elim (user_info decode) [
                  | none ↦ ((false, none), d)
                  | some info ↦ ((true, some info), d)
                ]
              ]
              else ((false, none), (revoke_refresh_token token now d).1)
        ]
      ]

  -- What del_refresh_token does behind the deletion: the token leaves the user's set.
  unfoldable pub leave_tokens : Bytes → Option Bytes → ℕ → Db → Bool × Db
  leave_tokens token none now d = (true, d)
  leave_tokens token (some meta) now d = elim (json.parse meta) [
    | none ↦ (false, d)
    | some decode ↦ elim (as_text (lookup user_id_key decode)) [
      | none ↦ (false, d)
      | some user_id ↦ srem (tokens_key user_id) token now d
    ]
  ]

  unfoldable pub del_refresh_token : Bytes → ℕ → Db → Bool × Db
  del_refresh_token token now d = elim (get (refresh_token_key token) now d) [
    | none ↦ (false, d)
    | some meta ↦ and_then (del (refresh_token_key token) now d) (leave_tokens token meta now)
  ]

  -- `rotates` compares the part of the lifetime that is left with refresh_precentage of the platform,
  -- in floating point: of the times of creation and expiry, and now.
  unfoldable pub should_rotate_refresh_token : (Bytes → ℤ → ℤ → ℕ → Bool) → Bytes → ℕ → Db → Bool
  should_rotate_refresh_token rotates token now d = elim (get (refresh_token_key token) now d) [
    | none ↦ false
    | some none ↦ false
    | some (some meta) ↦ elim (json.parse meta) [
      | none ↦ false
      | some decode ↦ elim (as_number (lookup create_time_key decode)) [
        | none ↦ false
        | some issued_at ↦ elim (as_number (lookup expire_time_key decode)) [
          | none ↦ false
          | some expires_at ↦ elim (as_text (lookup platform_key decode)) [
            | none ↦ false
            | some platform ↦ rotates platform issued_at expires_at now
          ]
        ]
      ]
    ]
  ]

  abbrev pub refused : TokenResult
  refused = record { success = false; new_access_token = []; new_refresh_token = [] }

  -- What refresh_access_token does with the answer of verify_refresh_token.
  unfoldable pub renew :
      (Bytes → ℕ)
      → (Bytes → ℤ → ℤ → ℕ → Bool)
      → Bytes
      → Bytes
      → Bytes
      → ℕ
      → Option UserTokenInfo
      → Db
      → TokenResult × Db
  renew configured rotates token new_token access_token now none d = (refused, d)
  renew configured rotates token new_token access_token now (some info) d =
      let r =
        generate_refresh_token configured info.user_id info.username info.device_id info.platform 0
          new_token now d in
      if should_rotate_refresh_token rotates token now d
      then (
        record { success = true; new_access_token = access_token; new_refresh_token = r.0 },
        r.1,
      )
      else (record { success = true; new_access_token = access_token; new_refresh_token = [] }, d)

  -- `new_token` and `access_token` are what rt_generate and generate_access_token give.
  unfoldable pub refresh_access_token :
      (Bytes → ℕ)
      → (Bytes → ℤ → ℤ → ℕ → Bool)
      → Bytes
      → Bytes
      → Bytes
      → Bytes
      → ℕ
      → Db
      → TokenResult × Db
  refresh_access_token configured rotates token device_id new_token access_token now d =
      let (answer, d') = verify_refresh_token token device_id now d in
      renew configured rotates token new_token access_token now answer.1 d'

  -- The generators catch what they throw themselves.
  unfoldable pub generate_tokens :
      (Bytes → ℕ) → Bytes → Bytes → Bytes → Bytes → Bytes → Bytes → ℕ → Db → TokenResult × Db
  generate_tokens configured user_id username device_id platform token access_token now d =
      let r = generate_refresh_token configured user_id username device_id platform 0 token now d in
      (record { success = true; new_access_token = access_token; new_refresh_token = r.0 }, r.1)
