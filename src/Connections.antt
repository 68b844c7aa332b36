-- ===== src/Connections.antt =====
-- gateway/connection_manager/connection_manager.cpp: which sessions of which users are connected, kept
-- in Redis. Texts are lists of bytes. The JSON library is an interface, as are the strategy's
-- enable_multi_device and the sessions of the WebSocket server; the clock is an argument.
pub mod Keys
pub mod Adding
pub mod Removing
pub mod History
pub mod Conflicts
pub mod Kicks
pub mod Queries
mod Tests
use my_chat.Prelude.{
  ℕ, zero, suc, ◌≡◌, Bool, true, false, not, ◌&&◌, ◌||◌, Option, none, some, List, [], ◌∷◌, ◌++◌,
  String, bytes_comparable, nat_comparable, ◌==◌, if◌then◌else◌, has_value,
}
use my_chat.Prelude.Int.{ℤ, pos}
use my_chat.Prelude.Tables.{lookup}
use my_chat.Json.{Bytes}
use my_chat.Redis.{Redis}
use my_chat.Json.{JsonValue, text, number, Json, text_value, number_value}
use my_chat.Connections.Keys.{
  sessions_text, platform_text, session_user_text, online_users, session_id_key, device_id_key,
  platform_key, connect_time_key, user_id_key,
}

pub record DeviceSessionInfo : Type 0 where
  pub session_id : Bytes
  pub device_id : Bytes
  pub platform : Bytes
  pub connect_time : ℤ

unfoldable pub to_json : DeviceSessionInfo → List (Bytes × JsonValue)
to_json info =
    (session_id_key, text info.session_id)
    ∷ (device_id_key, text info.device_id)
    ∷ (platform_key, text info.platform)
    ∷ (connect_time_key, number info.connect_time)
    ∷ []

unfoldable pub from_json : List (Bytes × JsonValue) → Option DeviceSessionInfo
from_json j = elim (text_value (lookup session_id_key j)) [
  | none ↦ none
  | some session_id ↦ elim (text_value (lookup device_id_key j)) [
    | none ↦ none
    | some device_id ↦ elim (text_value (lookup platform_key j)) [
      | none ↦ none
      | some platform ↦ elim (number_value (lookup connect_time_key j)) [
        | none ↦ none
        | some time ↦ some (record {
          session_id = session_id;
          device_id = device_id;
          platform = platform;
          connect_time = time;
        })
      ]
    ]
  ]
]

-- generate_redis_key and generate_device_field; 58 is ":".
abbrev pub generate_redis_key : Bytes → Bytes → Bytes
generate_redis_key prefix user_id = prefix ++ 58 ∷ user_id

abbrev pub generate_device_field : Bytes → Bytes → Bytes
generate_device_field device_id platform = device_id ++ 58 ∷ platform

-- The part before the first ":", if there is one.
unfoldable pub before_colon : Bytes → Option Bytes
before_colon [] = none
before_colon (c ∷ cs) =
    let rest = before_colon cs in
    if c == 58 then some [] else elim rest [ none ↦ none | some part ↦ some (c ∷ part) ]

-- `text.starts_with(part)`, and `text.find(part) != npos`.
unfoldable pub begins : Bytes → Bytes → Bool
begins [] whole = true
begins (p ∷ part) [] = false
begins (p ∷ part) (c ∷ whole) = (p == c) && begins part whole

unfoldable pub contains : Bytes → Bytes → Bool
contains part [] = begins part []
contains part (c ∷ whole) = begins part (c ∷ whole) || contains part whole

module _ (redis : Redis) (json : Json) where
  open redis use {Db, hset, hdel, sadd, srem, del, hget, hgetall, smembers, scard}

  -- A command that throws ends the block of `execute`.
  abbrev pub after : Bool × Db → (Db → Bool × Db) → Bool × Db
  after r next = if r.0 then next r.1 else r

  -- `from_json(parse(value))`
  unfoldable pub read_info : Bytes → Option DeviceSessionInfo
  read_info value = elim (json.parse value) [ none ↦ none | some j ↦ from_json j ]

  -- The loop of check_and_kick_same_platform: the session_id of the first entry that fits, "" if
  -- there is none, and `none` where its value cannot be read.
  unfoldable pub find_kicked : Bytes → Bytes → List (Bytes × Bytes) → Option Bytes
  find_kicked device_id platform [] = some []
  find_kicked device_id platform ((field, value) ∷ entries) =
      let rest = find_kicked device_id platform entries in
      let found : Option Bytes = elim (json.parse value) [
        | none ↦ none
        | some j ↦ text_value (lookup session_id_key j)
      ] in
      if contains (58 ∷ platform) field && not (contains device_id field) then found else rest

  -- The session that is disconnected; none where the platform allows several devices, and where
  -- Redis or the JSON library throws.
  unfoldable pub check_and_kick_same_platform : Bool → Bytes → Bytes → Bytes → Db → Bytes
  check_and_kick_same_platform multi_device user_id device_id platform d =
      if multi_device then [] else elim (hgetall (generate_redis_key sessions_text user_id) d) [
        | none ↦ []
        | some entries ↦ elim (find_kicked device_id platform entries) [
          | none ↦ []
          | some old_session_id ↦ old_session_id
        ]
      ]

  -- The block of `execute` in add_connection.
  unfoldable pub store_connection : Bytes → Bytes → Bytes → DeviceSessionInfo → Db → Bool × Db
  store_connection user_id device_id platform info d =
      let sessions_key = generate_redis_key sessions_text user_id in
      let devices_key = generate_redis_key platform_text user_id in
      let session_user_key = generate_redis_key session_user_text info.session_id in
      let device_field = generate_device_field device_id platform in
      after (hset sessions_key device_field (json.dump (to_json info)) d) (λ d₁.
        after (sadd devices_key device_field d₁) (λ d₂.
          after (hset session_user_key user_id_key user_id d₂) (λ d₃.
            after (hset session_user_key device_id_key device_id d₃) (λ d₄.
              after (hset session_user_key platform_key platform d₄)
                (λ d₅. sadd online_users user_id d₅)))))

  -- The result is what add_connection returns, and the session that it disconnects.
  unfoldable pub add_connection :
      Bool → Bytes → Bytes → Bytes → Bytes → ℤ → Db → (Bool × Bytes) × Db
  add_connection multi_device user_id device_id platform session_id now d =
      let kicked = check_and_kick_same_platform multi_device user_id device_id platform d in
      let info : DeviceSessionInfo = record {
        session_id = session_id;
        device_id = device_id;
        platform = platform;
        connect_time = now;
      } in
      let (done, d') = store_connection user_id device_id platform info d in ((done, kicked), d')

  -- What is deleted for the entry of a device.
  unfoldable pub remove_entry : Bytes → Bytes → Bytes → Db → Bool × Db
  remove_entry user_id field value d =
      after (hdel (generate_redis_key sessions_text user_id) field d) (λ d₁.
        after (srem (generate_redis_key platform_text user_id) field d₁) (λ d₂.
          elim (read_info value) [
            | none ↦ (false, d₂)
            | some info ↦ del (generate_redis_key session_user_text info.session_id) d₂
          ]))

  -- The loop of remove_connection: the first entry of the device is deleted.
  unfoldable pub remove_first : Bytes → Bytes → List (Bytes × Bytes) → Db → Bool × Db
  remove_first user_id device_id [] d = (true, d)
  remove_first user_id device_id ((field, value) ∷ entries) d =
      let rest = remove_first user_id device_id entries d in
      let removed = remove_entry user_id field value d in
      elim (before_colon field) [
        | none ↦ rest
        | some field_device_id ↦ if field_device_id == device_id then removed else rest
      ]

  -- A user without sessions is no longer online.
  unfoldable pub leave_online : Bytes → Db → Bool × Db
  leave_online user_id d = elim (hgetall (generate_redis_key sessions_text user_id) d) [
    | none ↦ (false, d)
    | some [] ↦ srem online_users user_id d
    | some (entry ∷ entries) ↦ (true, d)
  ]

  -- remove_connection by user and device; an exception is logged and dropped.
  unfoldable pub remove_connection : Bytes → Bytes → Db → Db
  remove_connection user_id device_id d =
      elim (hgetall (generate_redis_key sessions_text user_id) d) [
        | none ↦ d
        | some entries ↦ (after (remove_first user_id device_id entries d) (leave_online user_id)).1
      ]

  -- `user_info[key]`: the empty text if the key is missing.
  abbrev pub or_blank : Option Bytes → Bytes
  or_blank none = []
  or_blank (some t) = t

  -- remove_connection by the session's id.
  unfoldable pub remove_session : Bytes → Db → Db
  remove_session session_id d = elim (hgetall (generate_redis_key session_user_text session_id) d) [
    | none ↦ d
    | some user_info ↦
        let user_id = or_blank (lookup user_id_key user_info) in
        let device_id = or_blank (lookup device_id_key user_info) in
        if user_id == [] then d else remove_connection user_id device_id d
  ]

  -- The id of the session that get_session asks the WebSocket server for.
  unfoldable pub get_session : Bytes → Bytes → Bytes → Db → Option Bytes
  get_session user_id device_id platform d =
      elim (hget (generate_redis_key sessions_text user_id)
        (generate_device_field device_id platform) d) [
          | none ↦ none
          | some none ↦ none
          | some (some value) ↦ elim (read_info value) [
            | none ↦ none
            | some info ↦ some info.session_id
          ]
        ]

  -- The entries that can be read, in the order of the table.
  unfoldable pub readable : List (Bytes × Bytes) → List DeviceSessionInfo
  readable [] = []
  readable ((field, value) ∷ entries) =
      let rest = readable entries in
      elim (read_info value) [ none ↦ rest | some info ↦ info ∷ rest ]

  unfoldable pub get_user_sessions : Bytes → Db → List DeviceSessionInfo
  get_user_sessions user_id d = elim (hgetall (generate_redis_key sessions_text user_id) d) [
    | none ↦ []
    | some entries ↦ readable entries
  ]

  unfoldable pub get_online_users : Db → List Bytes
  get_online_users d = elim (smembers online_users d) [ none ↦ [] | some users ↦ users ]

  unfoldable pub get_online_count : Db → ℕ
  get_online_count d = elim (scard online_users d) [ none ↦ 0 | some n ↦ n ]

  -- The loop of is_user_online_on_platform.
  unfoldable pub any_on_platform : Bytes → List Bytes → Bool
  any_on_platform platform [] = false
  any_on_platform platform (device ∷ devices) =
      contains (58 ∷ platform) device || any_on_platform platform devices

  unfoldable pub is_user_online_on_platform : Bytes → Bytes → Db → Bool
  is_user_online_on_platform user_id platform d =
      elim (smembers (generate_redis_key platform_text user_id) d) [
        | none ↦ false
        | some devices ↦ any_on_platform platform devices
      ]
