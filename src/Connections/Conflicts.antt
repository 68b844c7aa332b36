-- ===== src/Connections/Conflicts.antt =====
-- Where the keys of connection_manager.cpp do not tell sessions apart.
use my_chat.Prelude.{
  ◌≡◌, ◌≢◌, ◌∙◌, refl, sym, ap, inl, inr, Bool, false, none, some, List, [], ◌∷◌, ◌++◌,
  bytes_comparable, nat_comparable, ◌==◌, ==_iff, if◌then◌else◌, arith, Option-cases, Bool-cases,
  IsIn, subst,
}
use my_chat.Prelude.Int.{ℤ}
use my_chat.Prelude.Tables.{lookup}
use my_chat.Json.{Bytes}
use my_chat.Redis.{Redis, Answers}
use my_chat.Json.{Json}
use my_chat.Connections.{
  DeviceSessionInfo, to_json, before_colon, after, add_connection, store_connection,
  generate_device_field, remove_entry, remove_first, leave_online, remove_connection,
  remove_session, get_session,
}
use my_chat.Connections.Keys.{online_users, user_id_key, device_id_key}
use my_chat.Connections.Adding.{
  sessions_key, session_user_key, store_connection-Adds, add_connection-get_session,
}
use my_chat.Connections.Removing.{
  IsWritten, remove_entry-TakesOut, remove_first-First, leave_online_cases,
}

abbrev pub NoColon : Bytes → Type 0
NoColon [] = Unit
NoColon (c ∷ cs) = (c ≢ 58) × NoColon cs

before_colon-NoColon : (f part : Bytes) → before_colon f ≡ some part → NoColon part
unfolding before_colon
before_colon-NoColon [] part h = cc
before_colon-NoColon (c ∷ cs) part h = elim (Bool-cases (c == 58)) [
  | inl e ↦ let p : [] ≡ part = ground (arith, h, e) in subst NoColon p tt
  | inr e ↦ elim (Option-cases (before_colon cs)) [
    | inl q ↦ absurd (ground (arith, h, e, q))
    | inr (rest, q) ↦
        let p : c ∷ rest ≡ part = ground (arith, h, e, q) in
        subst NoColon p (ground (arith, e), before_colon-NoColon cs rest q)
  ]
]

pub before_colon-field :
    (device platform : Bytes)
    → NoColon device
    → before_colon (generate_device_field device platform) ≡ some device
unfolding before_colon
before_colon-field [] platform h = refl
before_colon-field (c ∷ device) platform h = ground (arith, before_colon-field device platform h.1)

colon_in : (left right : Bytes) → ¬ NoColon (left ++ 58 ∷ right)
colon_in [] right h = h.0 refl
colon_in (c ∷ left) right h = colon_in left right h.1

lookup-some :
    (f v : Bytes) (entries : List (Bytes × Bytes)) → lookup f entries ≡ some v → IsIn (f, v) entries
unfolding lookup
lookup-some f v [] h = cc
lookup-some f v ((g, w) ∷ entries) h = elim (Bool-cases (g == f)) [
  | inl e ↦ inl (ground (arith, e, h, ==_iff g f))
  | inr e ↦ inr (lookup-some f v entries (ground (arith, e, h)))
]

lookup-none :
    (f v : Bytes) (entries : List (Bytes × Bytes)) → lookup f entries ≡ none → ¬ IsIn (f, v) entries
unfolding lookup
lookup-none f v [] h m = m
lookup-none f v ((g, w) ∷ entries) h (inl e) =
    let same : f ≡ g = ap (λ (p : Bytes × Bytes). p.0) e in ground (arith, h, same, ==_iff g f)
lookup-none f v ((g, w) ∷ entries) h (inr m) = lookup-none f v entries (ground (arith, h)) m

module _ (redis : Redis) (json : Json) (up : Answers redis) where
  open redis use {Db, views, hgetall, srem, srem_lem, hgetall_lem, hget_lem}
  open views use {hash, member}

  leave_online-hash :
      (user k f : Bytes) (d : Db) → hash k f (leave_online redis json user d).1 ≡ hash k f d
  leave_online-hash user k f d = elim (leave_online_cases redis json up user d) [
    | inl (_, e) ↦
        ap (λ (r : Bool × Db). hash k f r.1) e
        ∙ (srem_lem online_users user d (up.srem_ok _ _ _)).0 k f
    | inr (_, e) ↦ ap (λ (r : Bool × Db). hash k f r.1) e
  ]

  -- A connection of a device whose id has a ":" is never removed: remove_connection looks for the
  -- device in what stands before the first ":" of each field.
  pub remove_connection_colon :
      (user left right : Bytes) (d : Db) (u f : Bytes)
      → hash (sessions_key u) f (remove_connection redis json user (left ++ 58 ∷ right) d)
        ≡ hash (sessions_key u) f d
  unfolding remove_connection
  remove_connection_colon user left right d u f =
      let device = left ++ 58 ∷ right in
      let (entries, got) = up.hgetall_ok (sessions_key user) d in
      let same : remove_connection redis json user device d
          ≡ (after redis json (remove_first redis json user device entries d)
              (leave_online redis json user)).1 =
        ground (arith, got) in
      ap (hash (sessions_key u) f) same
      ∙ elim (remove_first-First redis json up user device entries d) [
        | inl (e, _) ↦
            ap
              (λ (r : Bool × Db).
                hash (sessions_key u) f (after redis json r (leave_online redis json user)).1)
              e
            ∙ leave_online-hash user (sessions_key u) f d
        | inr (g, v, _, b, _) ↦ absurd (colon_in left right (before_colon-NoColon g device b))
      ]

  lookup-entries :
      (k f : Bytes) (d : Db) (entries : List (Bytes × Bytes))
      → hgetall k d ≡ some entries
      → lookup f entries ≡ hash k f d
  lookup-entries k f d entries got = elim (Option-cases (lookup f entries)) [
    | inl e ↦ elim (Option-cases (hash k f d)) [
      | inl q ↦ e ∙ sym q
      | inr (v, q) ↦ absurd (lookup-none f v entries e ((hgetall_lem k d entries got f v).1 q))
    ]
    | inr (v, e) ↦ e ∙ sym ((hgetall_lem k d entries got f v).0 (lookup-some f v entries e))
  ]

  -- The session's entry in its own table says whose connection is removed.
  remove_session-remove_connection :
      (session user device : Bytes) (d : Db)
      → hash (session_user_key session) user_id_key d ≡ some user
      → hash (session_user_key session) device_id_key d ≡ some device
      → user ≢ []
      → remove_session redis json session d ≡ remove_connection redis json user device d
  unfolding remove_session
  remove_session-remove_connection session user device d hu hd ne =
      let (info, got) = up.hgetall_ok (session_user_key session) d in
      let eu = lookup-entries (session_user_key session) user_id_key d info got ∙ hu in
      let ed = lookup-entries (session_user_key session) device_id_key d info got ∙ hd in
      ground (arith, got, eu, ed, ne, ==_iff user [])

  -- A user whose only session is that of the device is left without one.
  remove_connection_last :
      (user device field v : Bytes) (d : Db)
      → before_colon field ≡ some device
      → IsWritten redis json v
      → ((f : Bytes) → hash (sessions_key user) f d ≡ (if f == field then some v else none))
      → ((f : Bytes)
          → hash (sessions_key user) f (remove_connection redis json user device d) ≡ none)
        × (member online_users user (remove_connection redis json user device d) ≡ false)
  unfolding remove_connection
  remove_connection_last user device field v d part info only =
      let (entries, got) = up.hgetall_ok (sessions_key user) d in
      let same : remove_connection redis json user device d
          ≡ (after redis json (remove_first redis json user device entries d)
              (leave_online redis json user)).1 =
        ground (arith, got) in
      let there : IsIn (field, v) entries =
        (hgetall_lem (sessions_key user) d entries got field v).1
          (ground (arith, only field, ==_iff field field)) in
      subst Gone (sym same) (elim (remove_first-First redis json up user device entries d) [
        | inl (_, absent) ↦ absurd (absent field v there part)
        | inr (g, w, m, _, e) ↦
            let held = (hgetall_lem (sessions_key user) d entries got g w).0 m in
            let is_field : g ≡ field = ground (arith, held, only g, ==_iff g field) in
            let is_value : w ≡ v = ground (arith, held, only g, ==_iff g field) in
            let (done, (h, _, _)) =
              remove_entry-TakesOut redis json up user g w d
                (subst (IsWritten redis json) (sym is_value) info) in
            let r = remove_entry redis json user g w d in
            let next : after redis json r (leave_online redis json user)
                ≡ leave_online redis json user r.1 =
              ap (λ b. if b then leave_online redis json user r.1 else r) done in
            let empty : (f : Bytes) → hash (sessions_key user) f r.1 ≡ none = λ f.
              ground
                (arith, h user f, only f, is_field, ==_iff f field, ==_iff f g, ==_iff user user) in
            subst (λ (q : Bool × Db). Gone (after redis json q (leave_online redis json user)).1)
              (sym e)
              (subst (λ (q : Bool × Db). Gone q.1) (sym next)
                (
                  λ f. leave_online-hash user (sessions_key user) f r.1 ∙ empty f,
                  elim (leave_online_cases redis json up user r.1) [
                    | inl (_, e') ↦
                        ap (λ (q : Bool × Db). member online_users user q.1) e'
                        ∙ (srem_lem online_users user r.1 (up.srem_ok _ _ _)).1 online_users user
                        ∙ ground (arith, ==_iff user user)
                    | inr ((f, x, q), _) ↦ absurd (cc (q, empty f))
                  ],
                ))
      ])
    where
      Gone : Db → Type 0
      Gone d' =
          ((f : Bytes) → hash (sessions_key user) f d' ≡ none)
          × (member online_users user d' ≡ false)

  get_session-none :
      (user device platform : Bytes) (d : Db)
      → hash (sessions_key user) (generate_device_field device platform) d ≡ none
      → get_session redis json user device platform d ≡ none
  unfolding get_session
  get_session-none user device platform d e =
      let (o, got) = up.hget_ok (sessions_key user) (generate_device_field device platform) d in
      let nothing =
        hget_lem (sessions_key user) (generate_device_field device platform) d o got ∙ e in
      ground (arith, got, nothing)

  -- A device connects again before its old session is closed, as after a lost connection. Until the
  -- old session is closed the new one is found; then its disconnection removes the new session, and
  -- the user is taken for offline. The user is not empty, has no session at first, the device id has
  -- no colon, and the two sessions differ.
  pub reconnect_lost :
      (multi_device : Bool) (user device platform s₁ s₂ : Bytes) (t₁ t₂ : ℤ) (d : Db)
      → user ≢ []
      → NoColon device
      → s₁ ≢ s₂
      → ((f : Bytes) → hash (sessions_key user) f d ≡ none)
      → (let d₁ = (add_connection redis json multi_device user device platform s₁ t₁ d).1 in
          let d₂ = (add_connection redis json multi_device user device platform s₂ t₂ d₁).1 in
          let d₃ = remove_session redis json s₁ d₂ in
          (get_session redis json user device platform d₂ ≡ some s₂)
          × (get_session redis json user device platform d₃ ≡ none)
          × (member online_users user d₃ ≡ false))
  unfolding add_connection
  reconnect_lost multi_device user device platform s₁ s₂ t₁ t₂ d ne nc other free =
      let field = generate_device_field device platform in
      let i₁ : DeviceSessionInfo = record {
        session_id = s₁;
        device_id = device;
        platform = platform;
        connect_time = t₁;
      } in
      let i₂ : DeviceSessionInfo = record {
        session_id = s₂;
        device_id = device;
        platform = platform;
        connect_time = t₂;
      } in
      let d₁ = (store_connection redis json user device platform i₁ d).1 in
      let d₂ = (store_connection redis json user device platform i₂ d₁).1 in
      let (_, (h₁, _, _, u₁, v₁, _)) =
        store_connection-Adds redis json up user device platform i₁ d in
      let (_, (h₂, _, _, _, _, apart)) =
        store_connection-Adds redis json up user device platform i₂ d₁ in
      let leads =
        remove_session-remove_connection s₁ user device d₂ (apart s₁ user_id_key other ∙ u₁)
          (apart s₁ device_id_key other ∙ v₁) ne in
      let v = json.dump (to_json i₂) in
      let only : (f : Bytes)
          → hash (sessions_key user) f d₂ ≡ (if f == field then some v else none) =
        λ f. ground (arith, h₂ user f, h₁ user f, free f, ==_iff user user) in
      let (gone, offline) =
        remove_connection_last user device field v d₂ (before_colon-field device platform nc)
          (i₂, refl) only in
      (
        (add_connection-get_session redis json up multi_device user device platform s₂ t₂ d₁).1,
        ap (get_session redis json user device platform) leads
            ∙ get_session-none user device platform (remove_connection redis json user device d₂)
                (gone field),
        ap (member online_users user) leads ∙ offline,
      )
