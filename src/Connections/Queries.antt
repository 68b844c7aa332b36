-- ===== src/Connections/Queries.antt =====
-- get_user_sessions, get_online_users, get_online_count and is_user_online_on_platform of
-- connection_manager.cpp agree with each other after any order of connections and disconnections.
use my_chat.Prelude.{
  ◌≡◌, ◌≢◌, ◌∙◌, refl, sym, ap, inl, inr, true, some, List, [], ◌∷◌, length, has_value, arith,
  Bool-cases, IsIn, subst, ◌↔◌,
}
use my_chat.Json.{Bytes}
use my_chat.Redis.{Redis, Answers}
use my_chat.Json.{Json}
use my_chat.Connections.{
  read_info, contains, readable, get_user_sessions, get_online_users, get_online_count,
  any_on_platform, is_user_online_on_platform,
}
use my_chat.Connections.Keys.{online_users}
use my_chat.Connections.Adding.{sessions_key, devices_key, read_info-dump}
use my_chat.Connections.Removing.{IsWritten}
use my_chat.Connections.History.{IsConsistent, Call, call_all, call_all-IsConsistent}

module _ (redis : Redis) (json : Json) where
  open redis use {Db, views, hgetall, hgetall_lem, smembers_lem, scard_lem}
  open views use {hash, member}

  any_on_platform_iff :
      (platform : Bytes) (devices : List Bytes)
      → (any_on_platform redis json platform devices ≡ true)
        ↔ ((device : Bytes) × IsIn device devices × (contains (58 ∷ platform) device ≡ true))
  unfolding any_on_platform
  any_on_platform_iff platform [] = (λ e. absurd (cc e), λ (_, m, _). absurd m)
  any_on_platform_iff platform (x ∷ xs) =
      let (there, back) = any_on_platform_iff platform xs in
      (
        λ e. elim (Bool-cases (contains (58 ∷ platform) x)) [
          | inl q ↦ (x, inl refl, q)
          | inr q ↦ let (y, m, r) = there (ground (arith, e, q)) in (y, inr m, r)
        ],
        λ (y, m, r). elim m [
          | inl q ↦ ground (arith, ap (contains (58 ∷ platform)) q, r)
          | inr n ↦ ground (arith, back (y, n, r))
        ],
      )

  readable_first :
      (f v : Bytes) (entries : List (Bytes × Bytes))
      → IsWritten redis json v
      → readable redis json ((f, v) ∷ entries) ≢ []
  unfolding readable
  readable_first f v entries (info, e) h =
      let read : read_info redis json v ≡ some info =
        ap (read_info redis json) e ∙ read_info-dump redis json info in
      absurd (ground (arith, h, read))

  readable_iff :
      (entries : List (Bytes × Bytes))
      → ((f v : Bytes) → IsIn (f, v) entries → IsWritten redis json v)
      → (readable redis json entries ≢ []) ↔ ((f v : Bytes) × IsIn (f, v) entries)
  unfolding readable
  readable_iff [] h = (λ ne. absurd (ne refl), λ (_, _, m). absurd m)
  readable_iff ((f, v) ∷ entries) h =
      (λ _. (f, v, inl refl), λ _. readable_first f v entries (h f v (inl refl)))

  module _ (up : Answers redis) where
    get_user_sessions_iff :
        (user : Bytes) (d : Db)
        → IsConsistent redis json d
        → (get_user_sessions redis json user d ≢ []) ↔ (member online_users user d ≡ true)
    unfolding get_user_sessions
    get_user_sessions_iff user d c =
        let (entries, got) = up.hgetall_ok (sessions_key user) d in
        let held = hgetall_lem (sessions_key user) d entries got in
        let (there, back) = readable_iff entries (λ f v m. c.written user f v ((held f v).0 m)) in
        let same : get_user_sessions redis json user d ≡ readable redis json entries =
          ground (arith, got) in
        (
          λ ne. let (f, v, m) = there (λ e. ne (same ∙ e)) in c.present user (f, v, (held f v).0 m),
          λ on. let (f, v, q) = c.online user on in λ e. back (f, v, (held f v).1 q) (sym same ∙ e),
        )

    -- Over any order of connections and disconnections from a consistent state, the users online are
    -- those for whom get_user_sessions lists a session, get_online_count is the number of the users
    -- that get_online_users lists, and a user is online on a platform exactly if a field of the user's
    -- sessions contains ":" and the platform.
    pub call_all-get_online_users :
        (calls : List (Call redis json up)) (start : Db)
        → IsConsistent redis json start
        → (let d = call_all redis json up calls start in
            ((user : Bytes)
              → IsIn user (get_online_users redis json d)
                ↔ (get_user_sessions redis json user d ≢ []))
            × (get_online_count redis json d ≡ length (get_online_users redis json d))
            × ((user platform : Bytes)
                → (is_user_online_on_platform redis json user platform d ≡ true) ↔ (
                    (field : Bytes) × (has_value (hash (sessions_key user) field d) ≡ true)
                    × (contains (58 ∷ platform) field ≡ true))))
    unfolding get_online_users get_online_count is_user_online_on_platform
    call_all-get_online_users calls start c₀ =
        let d = call_all redis json up calls start in
        let c = call_all-IsConsistent redis json up calls start c₀ in
        let (users, listed) = up.smembers_ok online_users d in
        let (n, counted) = up.scard_ok online_users d in
        let same : get_online_users redis json d ≡ users = ground (arith, listed) in
        (
          λ user.
              let (there, back) = get_user_sessions_iff user d c in
              let (of_list, to_list) = smembers_lem online_users d users listed user in
              (
                λ m. back (of_list (subst (IsIn user) same m)),
                λ ne. subst (IsIn user) (sym same) (to_list (there ne)),
              ),
          ground (arith, counted, same, scard_lem online_users d users n listed counted),
          λ user platform.
              let (devices, found) = up.smembers_ok (devices_key user) d in
              let (there, back) = any_on_platform_iff platform devices in
              let held = smembers_lem (devices_key user) d devices found in
              let is : is_user_online_on_platform redis json user platform d
                  ≡ any_on_platform redis json platform devices =
                ground (arith, found) in
              (
                λ e.
                    let (f, m, q) = there (sym is ∙ e) in
                    (f, sym (c.devices user f) ∙ (held f).0 m, q),
                λ (f, m, q). is ∙ back (f, (held f).1 (c.devices user f ∙ m), q),
              ),
        )
