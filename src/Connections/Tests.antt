-- ===== src/Connections/Tests.antt =====
-- The results on the connections, on the Redis server in memory and on the JSON objects of Json/Tokens.
use my_chat.Prelude.{
  ◌≡◌, ◌≢◌, refl, true, false, none, some, List, [], ◌∷◌, ◌++◌, has_value, bytes_comparable, ◌==◌,
  IsIn, length, ◌↔◌, if◌then◌else◌,
}
use my_chat.Prelude.Int.{pos}
use my_chat.Prelude.{arith}
use my_chat.Prelude.Tables.{lookup}
use my_chat.Json.{Bytes}
use my_chat.Json.Tokens.{tokens, write}
use my_chat.Redis.Memory.{memory, memory-Answers, empty, is_member, lookup-put}
use my_chat.Connections.{
  get_session, add_connection, remove_connection, remove_session, contains, get_online_users,
  get_online_count, get_user_sessions, is_user_online_on_platform, DeviceSessionInfo, to_json,
  generate_device_field,
}
use my_chat.Connections.Keys.{codes, online_users}
use my_chat.Connections.Adding.{sessions_key, add_connection-get_session}
use my_chat.Connections.History.{IsConsistent, Call, adds, removes, removes_session, call_all}
use my_chat.Connections.Queries.{call_all-get_online_users}
use my_chat.Connections.Kicks.{add_connection-kicked}
use my_chat.Connections.Conflicts.{NoColon, remove_connection_colon, reconnect_lost}

abbrev alice : Bytes
alice = codes "alice"

abbrev phone : Bytes
phone = codes "phone"

abbrev android : Bytes
android = codes "android"

abbrev session_1 : Bytes
session_1 = codes "session-1"

abbrev session_2 : Bytes
session_2 = codes "session-2"

phone-NoColon : NoColon phone
phone-NoColon = ground (arith)

empty-IsConsistent : IsConsistent memory tokens empty
unfolding lookup is_member
empty-IsConsistent = record {
  devices = λ u f. refl;
  online = λ u h. absurd (cc h);
  present = λ u (f, v, q). absurd (cc q);
  written = λ u f v q. absurd (cc q);
}

abbrev run : List (Call memory tokens memory-Answers)
run =
    adds true alice phone android session_1 (pos 10)
    ∷ adds false alice (codes "pad") android session_2 (pos 20)
    ∷ removes_session session_1
    ∷ removes alice (codes "pad")
    ∷ []

add_connection-get_session_example :
    let r = add_connection memory tokens true alice phone android session_1 (pos 10) empty in
    (r.0.0 ≡ true) × (get_session memory tokens alice phone android r.1 ≡ some session_1)
add_connection-get_session_example =
    add_connection-get_session memory tokens memory-Answers true alice phone android session_1
      (pos 10) empty

abbrev after_run : memory.Db
after_run = call_all memory tokens memory-Answers run empty

call_all-get_online_users_example :
    ((user : Bytes)
      → IsIn user (get_online_users memory tokens after_run)
        ↔ (get_user_sessions memory tokens user after_run ≢ []))
    × (get_online_count memory tokens after_run ≡ length (get_online_users memory tokens after_run))
    × ((user platform : Bytes)
        → (is_user_online_on_platform memory tokens user platform after_run ≡ true) ↔ (
            (field : Bytes) × (has_value (memory.views.hash (sessions_key user) field after_run)
              ≡ true)
            × (contains (58 ∷ platform) field ≡ true)))
call_all-get_online_users_example =
    call_all-get_online_users memory tokens memory-Answers run empty empty-IsConsistent

abbrev television : DeviceSessionInfo
television = record {
  session_id = session_1;
  device_id = codes "screen";
  platform = codes "android-tv";
  connect_time = pos 10;
}

-- Alice's television is connected, and nothing else.
abbrev watching : memory.Db
watching = record {
  tables = λ k.
      if k == sessions_key alice
      then (codes "screen:android-tv", write (to_json television)) ∷ []
      else [];
  sets = λ k. [];
}

watching-only :
    (f : Bytes)
    → memory.views.hash (sessions_key alice) f watching
      ≡ (if f == codes "screen:android-tv" then some (write (to_json television)) else none)
unfolding lookup
watching-only f = lookup-put (codes "screen:android-tv") (write (to_json television)) [] f

add_connection-kicked_example :
    (add_connection memory tokens false alice phone android session_2 (pos 20) watching).0.1 ≡ (
      if contains phone (generate_device_field (codes "screen") (codes "android-tv"))
      then []
      else session_1)
add_connection-kicked_example =
    add_connection-kicked memory tokens memory-Answers alice phone android session_2 (pos 20)
      (codes "-tv") television watching refl watching-only

reconnect_lost_example :
    let d₁ = (add_connection memory tokens true alice phone android session_1 (pos 10) empty).1 in
    let d₂ = (add_connection memory tokens true alice phone android session_2 (pos 20) d₁).1 in
    let d₃ = remove_session memory tokens session_1 d₂ in
    (get_session memory tokens alice phone android d₂ ≡ some session_2)
    × (get_session memory tokens alice phone android d₃ ≡ none)
    × (memory.views.member online_users alice d₃ ≡ false)
unfolding lookup
reconnect_lost_example =
    reconnect_lost memory tokens memory-Answers true alice phone android session_1 session_2
      (pos 10) (pos 20) empty (ground (arith)) phone-NoColon (ground (arith)) (λ f. refl)

remove_connection_colon_example :
    let d =
      (add_connection memory tokens true alice
        (codes "my:phone")
        android
        session_1
        (pos 10)
        empty).1 in
    lookup (codes "my:phone:android") (
      (remove_connection memory tokens alice (codes "my" ++ 58 ∷ codes "phone") d).tables
        (sessions_key alice))
    ≡ lookup (codes "my:phone:android") (d.tables (sessions_key alice))
remove_connection_colon_example =
    remove_connection_colon memory tokens memory-Answers alice (codes "my") (codes "phone")
      (add_connection memory tokens true alice (codes "my:phone") android session_1 (pos 10)
        empty).1
      alice (codes "my:phone:android")
