-- ===== src/Connections/Adding.antt =====
-- add_connection of connection_manager.cpp: what it leaves in Redis, while Redis answers.
use my_chat.Prelude.{
  ◌≡◌, ◌≢◌, ◌∙◌, refl, sym, ap, Bool, true, false, ◌&&◌, Option, some, bytes_comparable, ◌==◌,
  ==_iff, if◌then◌else◌, arith, subst,
}
use my_chat.Prelude.Int.{ℤ}
use my_chat.Prelude.Tables.{lookup}
use my_chat.Redis.{Redis, Answers}
use my_chat.Json.{Bytes, Json, Object}
use my_chat.Connections.{
  DeviceSessionInfo, to_json, from_json, generate_redis_key, generate_device_field, after,
  read_info, store_connection, add_connection, get_session,
}
use my_chat.Connections.Keys.{
  sessions_text, platform_text, session_user_text, online_users, session_id_key, connect_time_key,
  device_id_key, user_id_key, platform_key,
}

-- The keys of the three tables of connection_manager.cpp.
abbrev pub sessions_key : Bytes → Bytes
sessions_key u = generate_redis_key sessions_text u

abbrev pub devices_key : Bytes → Bytes
devices_key u = generate_redis_key platform_text u

abbrev pub session_user_key : Bytes → Bytes
session_user_key s = generate_redis_key session_user_text s

same_sessions_key : (u v : Bytes) → (sessions_key u == sessions_key v) ≡ (u == v)
same_sessions_key u v = refl

other_key : (u s : Bytes) → (sessions_key u == session_user_key s) ≡ false
other_key u s = refl

ne_test : (s t : Bytes) → s ≢ t → (s == t) ≡ false
ne_test s t h = ground (arith, ==_iff s t)

from_json-to_json :
    (info : DeviceSessionInfo) (o : Object)
    → ((key : Bytes) → lookup key o ≡ lookup key (to_json info))
    → from_json o ≡ some info
unfolding from_json to_json lookup
from_json-to_json info o same =
    ground
      (arith, same session_id_key, same device_id_key, same platform_key, same connect_time_key)

module _ (redis : Redis) (json : Json) where
  open redis use {Db, views, hset, sadd, hset_lem, sadd_lem, hget_lem}
  open views use {hash, member}

  pub read_info-dump :
      (info : DeviceSessionInfo) → read_info redis json (json.dump (to_json info)) ≡ some info
  unfolding read_info
  read_info-dump info =
      let (o, parsed, same) = json.parse-dump (to_json info) in
      ground (arith, parsed, from_json-to_json info o same)

  pub after_ok :
      (r : Bool × Db) (next : Db → Bool × Db) → r.0 ≡ true → after redis json r next ≡ next r.1
  after_ok r next e = ap (λ b. if b then next r.1 else r) e

  -- What a connection leaves in the three tables and in the set of users online.
  abbrev pub Adds : Bytes → Bytes → Bytes → DeviceSessionInfo → Db → Db → Type 0
  Adds user device platform info d d' =
      let field = generate_device_field device platform in
      ((u f : Bytes)
        → hash (sessions_key u) f d' ≡ (
            if (u == user) && (f == field)
            then some (json.dump (to_json info))
            else hash (sessions_key u) f d))
      × ((u f : Bytes)
          → member (devices_key u) f d'
            ≡ (if (u == user) && (f == field) then true else member (devices_key u) f d))
      × ((u : Bytes)
          → member online_users u d' ≡ (if u == user then true else member online_users u d))
      × (hash (session_user_key info.session_id) user_id_key d' ≡ some user)
      × (hash (session_user_key info.session_id) device_id_key d' ≡ some device)
      × ((s k : Bytes)
          → s ≢ info.session_id
          → hash (session_user_key s) k d' ≡ hash (session_user_key s) k d)

  module _ (up : Answers redis) where
    pub store_connection-Adds :
        (user device platform : Bytes) (info : DeviceSessionInfo) (d : Db)
        → ((store_connection redis json user device platform info d).0 ≡ true)
          × Adds user device platform info d
              (store_connection redis json user device platform info d).1
    unfolding store_connection
    store_connection-Adds user device platform info d =
        let s = info.session_id in
        let field = generate_device_field device platform in
        let r₁ = hset (sessions_key user) field (json.dump (to_json info)) d in
        let r₂ = sadd (devices_key user) field r₁.1 in
        let r₃ = hset (session_user_key s) user_id_key user r₂.1 in
        let r₄ = hset (session_user_key s) device_id_key device r₃.1 in
        let r₅ = hset (session_user_key s) platform_key platform r₄.1 in
        let r₆ = sadd online_users user r₅.1 in
        let e₁ =
          hset_lem (sessions_key user) field (json.dump (to_json info)) d (up.hset_ok _ _ _ _) in
        let e₂ = sadd_lem (devices_key user) field r₁.1 (up.sadd_ok _ _ _) in
        let e₃ = hset_lem (session_user_key s) user_id_key user r₂.1 (up.hset_ok _ _ _ _) in
        let e₄ = hset_lem (session_user_key s) device_id_key device r₃.1 (up.hset_ok _ _ _ _) in
        let e₅ = hset_lem (session_user_key s) platform_key platform r₄.1 (up.hset_ok _ _ _ _) in
        let e₆ = sadd_lem online_users user r₅.1 (up.sadd_ok _ _ _) in
        let self = (==_iff s s).1 refl in
        let k₅ = λ (d₅ : Db). sadd online_users user d₅ in
        let k₄ =
          λ (d₄ : Db). after redis json (hset (session_user_key s) platform_key platform d₄) k₅ in
        let k₃ =
          λ (d₃ : Db). after redis json (hset (session_user_key s) device_id_key device d₃) k₄ in
        let k₂ = λ (d₂ : Db). after redis json (hset (session_user_key s) user_id_key user d₂) k₃ in
        let k₁ = λ (d₁ : Db). after redis json (sadd (devices_key user) field d₁) k₂ in
        let run : store_connection redis json user device platform info d ≡ r₆ =
          after_ok r₁ k₁ (up.hset_ok _ _ _ _)
          ∙ after_ok r₂ k₂ (up.sadd_ok _ _ _)
          ∙ after_ok r₃ k₃ (up.hset_ok _ _ _ _)
          ∙ after_ok r₄ k₄ (up.hset_ok _ _ _ _)
          ∙ after_ok r₅ k₅ (up.hset_ok _ _ _ _) in
        let passed =
          λ (x : Bytes) (o : Option Bytes). ap (λ b. if b && false then some x else o) self in
        let put =
          λ (x : Bytes) (o : Option Bytes). ap (λ b. if b && true then some x else o) self in
        subst (λ (r : Bool × Db). (r.0 ≡ true) × Adds user device platform info d r.1) (sym run)
          (
            up.sadd_ok _ _ _,
            (
              λ u f.
                  e₆.0 (sessions_key u) f
                  ∙ e₅.0 (sessions_key u) f
                  ∙ e₄.0 (sessions_key u) f
                  ∙ e₃.0 (sessions_key u) f
                  ∙ e₂.0 (sessions_key u) f
                  ∙ e₁.0 (sessions_key u) f,
              λ u f.
                  e₆.1 (devices_key u) f
                  ∙ e₅.1 (devices_key u) f
                  ∙ e₄.1 (devices_key u) f
                  ∙ e₃.1 (devices_key u) f
                  ∙ e₂.1 (devices_key u) f
                  ∙ ap (λ b. if (u == user) && (f == field) then true else b)
                      (e₁.1 (devices_key u) f),
              λ u.
                  e₆.1 online_users u
                  ∙ ap (λ b. if u == user then true else b)
                      (e₅.1 online_users u
                        ∙ e₄.1 online_users u
                        ∙ e₃.1 online_users u
                        ∙ e₂.1 online_users u
                        ∙ e₁.1 online_users u),
              e₆.0 (session_user_key s) user_id_key
                  ∙ e₅.0 (session_user_key s) user_id_key
                  ∙ passed platform (hash (session_user_key s) user_id_key r₄.1)
                  ∙ e₄.0 (session_user_key s) user_id_key
                  ∙ passed device (hash (session_user_key s) user_id_key r₃.1)
                  ∙ e₃.0 (session_user_key s) user_id_key
                  ∙ put user (hash (session_user_key s) user_id_key r₂.1),
              e₆.0 (session_user_key s) device_id_key
                  ∙ e₅.0 (session_user_key s) device_id_key
                  ∙ passed platform (hash (session_user_key s) device_id_key r₄.1)
                  ∙ e₄.0 (session_user_key s) device_id_key
                  ∙ put device (hash (session_user_key s) device_id_key r₃.1),
              λ t k ne.
                  let other = ne_test t s ne in
                  e₆.0 (session_user_key t) k
                  ∙ e₅.0 (session_user_key t) k
                  ∙ ap
                      (λ b.
                        if b && (k == platform_key)
                        then some platform
                        else hash (session_user_key t) k r₄.1)
                      other
                  ∙ e₄.0 (session_user_key t) k
                  ∙ ap
                      (λ b.
                        if b && (k == device_id_key)
                        then some device
                        else hash (session_user_key t) k r₃.1)
                      other
                  ∙ e₃.0 (session_user_key t) k
                  ∙ ap
                      (λ b.
                        if b && (k == user_id_key)
                        then some user
                        else hash (session_user_key t) k r₂.1)
                      other
                  ∙ e₂.0 (session_user_key t) k
                  ∙ e₁.0 (session_user_key t) k,
            ),
          )

    -- The new session is the one that get_session asks the WebSocket server for, whatever was stored
    -- before.
    pub add_connection-get_session :
        (multi_device : Bool) (user device platform session_id : Bytes) (now : ℤ) (d : Db)
        → ((add_connection redis json multi_device user device platform session_id now d).0.0
            ≡ true)
          × (get_session redis json user device platform
                (add_connection redis json multi_device user device platform session_id now d).1
              ≡ some session_id)
    unfolding add_connection get_session
    add_connection-get_session multi_device user device platform session_id now d =
        let info : DeviceSessionInfo = record {
          session_id = session_id;
          device_id = device;
          platform = platform;
          connect_time = now;
        } in
        let field = generate_device_field device platform in
        let d' = (store_connection redis json user device platform info d).1 in
        let (done, (stored, _, _, _, _, _)) = store_connection-Adds user device platform info d in
        let (o, got) = up.hget_ok (sessions_key user) field d' in
        let value : o ≡ some (json.dump (to_json info)) =
          hget_lem (sessions_key user) field d' o got
          ∙ stored user field
          ∙ ground (arith, ==_iff user user, ==_iff field field) in
        (done, ground (arith, got, value, read_info-dump info))
