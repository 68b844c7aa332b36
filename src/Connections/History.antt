-- ===== src/Connections/History.antt =====
-- The tables of connection_manager.cpp over any order of connections and disconnections, while Redis
-- answers and the keys are written by nobody else.
use my_chat.Prelude.{
  ◌≡◌, ◌≢◌, ◌∙◌, sym, ap, inl, inr, Bool, true, ◌&&◌, some, List, [], ◌∷◌, bytes_comparable, ◌==◌,
  ==_iff, if◌then◌else◌, has_value, arith, Bool-cases, subst, if_cases,
}
use my_chat.Prelude.Int.{ℤ}
use my_chat.Prelude.Tables.{lookup}
use my_chat.Json.{Bytes}
use my_chat.Redis.{Redis, Answers}
use my_chat.Json.{Json}
use my_chat.Connections.{
  DeviceSessionInfo, to_json, after, add_connection, store_connection, generate_device_field,
  remove_entry, remove_first, leave_online, remove_connection, remove_session, or_blank,
}
use my_chat.Connections.Keys.{online_users, user_id_key, device_id_key}
use my_chat.Connections.Adding.{sessions_key, devices_key, session_user_key, store_connection-Adds}
use my_chat.Connections.Removing.{
  IsWritten, TakesOut, remove_entry-TakesOut, remove_first-First, leave_online_cases,
}

module _ (redis : Redis) (json : Json) where
  open redis use {Db, views, hgetall, srem, srem_lem, hgetall_lem}
  open views use {hash, member}

  abbrev Session : Bytes → Db → Type 0
  Session u d = (f v : Bytes) × (hash (sessions_key u) f d ≡ some v)

  -- The devices of a user are the fields of the user's sessions, a user is online exactly if there is
  -- a session, and every value was written by add_connection.
  pub record IsConsistent (d : Db) : Type 0 where
    pub devices : (u f : Bytes) → member (devices_key u) f d ≡ has_value (hash (sessions_key u) f d)
    pub online : (u : Bytes) → member online_users u d ≡ true → Session u d
    pub present : (u : Bytes) → Session u d → member online_users u d ≡ true
    pub written : (u f v : Bytes) → hash (sessions_key u) f d ≡ some v → IsWritten redis json v

  -- The same, but the user may be left online without a session.
  record IsPartial (user : Bytes) (d : Db) : Type 0 where
    devices : (u f : Bytes) → member (devices_key u) f d ≡ has_value (hash (sessions_key u) f d)
    online : (u : Bytes) → u ≢ user → member online_users u d ≡ true → Session u d
    present : (u : Bytes) → Session u d → member online_users u d ≡ true
    written : (u f v : Bytes) → hash (sessions_key u) f d ≡ some v → IsWritten redis json v

  IsConsistent-IsPartial : (user : Bytes) (d : Db) → IsConsistent d → IsPartial user d
  IsConsistent-IsPartial user d c = record {
    devices = c.devices;
    online = λ u _ h. c.online u h;
    present = c.present;
    written = c.written;
  }

  TakesOut-IsPartial :
      (user field : Bytes) (d d' : Db)
      → IsConsistent d
      → TakesOut redis json user field d d'
      → IsPartial user d'
  TakesOut-IsPartial user field d d' c (h, m, o) = record {
    devices = λ u f. ground (arith, h u f, m u f, c.devices u f);
    online = λ u ne e.
        let (f, v, q) = c.online u (sym (o u) ∙ e) in
        (f, v, ground (arith, h u f, q, ne, ==_iff u user));
    present = λ u (f, v, q). o u ∙ c.present u (f, v, ground (arith, h u f, q));
    written = λ u f v q. c.written u f v (ground (arith, h u f, q));
  }

  module _ (up : Answers redis) where
    leave_online-IsConsistent :
        (user : Bytes) (d : Db) → IsPartial user d → IsConsistent (leave_online redis json user d).1
    leave_online-IsConsistent user d p = elim (leave_online_cases redis json up user d) [
      | inr (session, e) ↦
          subst (λ (r : Bool × Db). IsConsistent r.1) (sym e)
            (record {
              devices = p.devices;
              online = λ u h. elim (Bool-cases (u == user)) [
                | inl same ↦ subst (λ w. Session w d) (sym ((==_iff u user).0 same)) session
                | inr other ↦ p.online u (λ q. ground (arith, other, q, ==_iff u user)) h
              ];
              present = p.present;
              written = p.written;
            })
      | inl (nothing, e) ↦
          let d' = (srem online_users user d).1 in
          let (h, m) = srem_lem online_users user d (up.srem_ok _ _ _) in
          subst (λ (r : Bool × Db). IsConsistent r.1) (sym e)
            (record {
              devices = λ u f.
                  m (devices_key u) f ∙ p.devices u f ∙ ap has_value (sym (h (sessions_key u) f));
              online = λ u q.
                  let (f, v, s) =
                    p.online u (λ same. ground (arith, same, q, m online_users u, ==_iff u user))
                      (ground (arith, q, m online_users u)) in
                  (f, v, h (sessions_key u) f ∙ s);
              present = λ u (f, v, q).
                  let s = sym (h (sessions_key u) f) ∙ q in
                  let own =
                    λ (same : u ≡ user). subst (λ w. hash (sessions_key w) f d ≡ some v) same s in
                  elim (Bool-cases (u == user)) [
                    | inl same ↦ absurd (cc (own ((==_iff u user).0 same), nothing f))
                    | inr other ↦ ground (arith, other, m online_users u, p.present u (f, v, s))
                  ];
              written = λ u f v q. p.written u f v (sym (h (sessions_key u) f) ∙ q);
            })
    ]

    pub remove_connection-IsConsistent :
        (user device : Bytes) (d : Db)
        → IsConsistent d
        → IsConsistent (remove_connection redis json user device d)
    unfolding remove_connection
    remove_connection-IsConsistent user device d c =
        let (entries, got) = up.hgetall_ok (sessions_key user) d in
        let same : remove_connection redis json user device d
            ≡ (after redis json (remove_first redis json user device entries d)
                (leave_online redis json user)).1 =
          ground (arith, got) in
        subst IsConsistent (sym same)
          (elim (remove_first-First redis json up user device entries d) [
            | inl (e, _) ↦
                subst
                  (λ (r : Bool × Db).
                    IsConsistent (after redis json r (leave_online redis json user)).1)
                  (sym e) (leave_online-IsConsistent user d (IsConsistent-IsPartial user d c))
            | inr (f, v, m, _, e) ↦
                let value =
                  c.written user f v ((hgetall_lem (sessions_key user) d entries got f v).0 m) in
                let (done, taken) = remove_entry-TakesOut redis json up user f v d value in
                let r = remove_entry redis json user f v d in
                let next : after redis json r (leave_online redis json user)
                    ≡ leave_online redis json user r.1 =
                  ap (λ b. if b then leave_online redis json user r.1 else r) done in
                subst
                  (λ (q : Bool × Db).
                    IsConsistent (after redis json q (leave_online redis json user)).1)
                  (sym e)
                  (subst (λ (q : Bool × Db). IsConsistent q.1) (sym next)
                    (leave_online-IsConsistent user r.1 (TakesOut-IsPartial user f d r.1 c taken)))
          ])

    add_connection-IsConsistent :
        (multi_device : Bool) (user device platform session_id : Bytes) (now : ℤ) (d : Db)
        → IsConsistent d
        → IsConsistent
            (add_connection redis json multi_device user device platform session_id now d).1
    unfolding add_connection
    add_connection-IsConsistent multi_device user device platform session_id now d c =
        let info : DeviceSessionInfo = record {
          session_id = session_id;
          device_id = device;
          platform = platform;
          connect_time = now;
        } in
        let d' = (store_connection redis json user device platform info d).1 in
        let field = generate_device_field device platform in
        let (_, (h, m, o, _, _, _)) =
          store_connection-Adds redis json up user device platform info d in
        let kept : (u : Bytes) → Session u d → Session u d' = λ u (f, v, q).
          elim (Bool-cases ((u == user) && (f == field))) [
            | inl new ↦ (f, json.dump (to_json info), ground (arith, new, h u f))
            | inr old ↦ (f, v, ground (arith, old, q, h u f))
          ] in
        record {
          devices = λ u f. ground (arith, h u f, m u f, c.devices u f);
          online = λ u e. elim (Bool-cases (u == user)) [
            | inl same ↦ (
              field,
              json.dump (to_json info),
              ground (arith, same, h u field, ==_iff field field),
            )
            | inr other ↦ kept u (c.online u (ground (arith, other, e, o u)))
          ];
          present = λ u (f, v, q). elim (Bool-cases (u == user)) [
            | inl same ↦ ground (arith, same, o u)
            | inr other ↦
                ground (arith, other, o u, c.present u (f, v, ground (arith, other, q, h u f)))
          ];
          written = λ u f v q. elim (Bool-cases ((u == user) && (f == field))) [
            | inl new ↦ (info, ground (arith, new, q, h u f))
            | inr old ↦ c.written u f v (ground (arith, old, q, h u f))
          ];
        }

    pub remove_session-IsConsistent :
        (session_id : Bytes) (d : Db)
        → IsConsistent d
        → IsConsistent (remove_session redis json session_id d)
    unfolding remove_session
    remove_session-IsConsistent session_id d c =
        let (info, got) = up.hgetall_ok (session_user_key session_id) d in
        let user = or_blank redis json (lookup user_id_key info) in
        let device = or_blank redis json (lookup device_id_key info) in
        let same : remove_session redis json session_id d
            ≡ (if user == [] then d else remove_connection redis json user device d) =
          ground (arith, got) in
        subst IsConsistent (sym same) (
          if_cases IsConsistent (user == []) (λ _. c)
            (λ _. remove_connection-IsConsistent user device d c))

    pub data Call : Type 0 where
      adds : Bool → Bytes → Bytes → Bytes → Bytes → ℤ → Call
      removes : Bytes → Bytes → Call
      removes_session : Bytes → Call

    unfoldable pub call : Call → Db → Db
    call (adds multi_device user device platform session_id now) d =
        (add_connection redis json multi_device user device platform session_id now d).1
    call (removes user device) d = remove_connection redis json user device d
    call (removes_session session_id) d = remove_session redis json session_id d

    unfoldable pub call_all : List Call → Db → Db
    call_all [] d = d
    call_all (c ∷ cs) d = call_all cs (call c d)

    call-IsConsistent : (c : Call) (d : Db) → IsConsistent d → IsConsistent (call c d)
    unfolding call
    call-IsConsistent (adds multi_device user device platform session_id now) d h =
        add_connection-IsConsistent multi_device user device platform session_id now d h
    call-IsConsistent (removes user device) d h = remove_connection-IsConsistent user device d h
    call-IsConsistent (removes_session session_id) d h = remove_session-IsConsistent session_id d h

    -- Over any order of connections and disconnections, the set of users online has exactly the users
    -- with a session, and the devices of a user are those of the user's sessions, if this is so at
    -- the start.
    pub call_all-IsConsistent :
        (calls : List Call) (d : Db) → IsConsistent d → IsConsistent (call_all calls d)
    unfolding call_all
    call_all-IsConsistent [] d h = h
    call_all-IsConsistent (c ∷ cs) d h =
        call_all-IsConsistent cs (call c d) (call-IsConsistent c d h)
