-- ===== src/Connections/Removing.antt =====
-- remove_connection of connection_manager.cpp: what it takes out of Redis, while Redis answers.
use my_chat.Prelude.{
  ◌≡◌, ◌≢◌, ◌∙◌, refl, sym, ap, ◌⊎◌, inl, inr, Bool, true, false, ◌&&◌, Option, none, some, List,
  [], ◌∷◌, bytes_comparable, ◌==◌, ==_iff, if◌then◌else◌, arith, Option-cases, Bool-cases, IsIn,
  subst,
}
use my_chat.Json.{Bytes}
use my_chat.Redis.{Redis, Answers}
use my_chat.Json.{Json}
use my_chat.Connections.{
  DeviceSessionInfo, to_json, before_colon, read_info, remove_entry, remove_first, leave_online,
}
use my_chat.Connections.Keys.{online_users}
use my_chat.Connections.Adding.{sessions_key, devices_key, session_user_key, read_info-dump}

abbrev is_device : Bytes → Option Bytes → Bool
is_device device none = false
is_device device (some part) = part == device

found : (device : Bytes) (o : Option Bytes) → is_device device o ≡ true → o ≡ some device
found device none h = cc
found device (some part) h = ap some ((==_iff part device).0 h)

passed :
    (field value : Bytes) (entries : List (Bytes × Bytes)) (device f v : Bytes)
    → IsIn (f, v) ((field, value) ∷ entries)
    → before_colon field ≢ some device
    → ((f v : Bytes) → IsIn (f, v) entries → before_colon f ≢ some device)
    → before_colon f ≢ some device
passed field value entries device f v (inl e) other absent =
    subst (λ (x : Bytes). before_colon x ≢ some device) (sym (ap (λ (p : Bytes × Bytes). p.0) e))
      other
passed field value entries device f v (inr m) other absent = absent f v m

cases_of :
    (entries : List (Bytes × Bytes))
    → (entries ≡ [])
      ⊎ ((x : Bytes × Bytes) × ((rest : List (Bytes × Bytes)) × (entries ≡ x ∷ rest)))
cases_of [] = inl refl
cases_of (x ∷ rest) = inr (x, (rest, refl))

module _ (redis : Redis) (json : Json) where
  open redis use {Db, views, hdel, srem, del, hgetall, hdel_lem, srem_lem, del_lem, hgetall_lem}
  open views use {hash, member}

  -- A value that add_connection has written.
  abbrev pub IsWritten : Bytes → Type 0
  IsWritten value = (info : DeviceSessionInfo) × (value ≡ json.dump (to_json info))

  -- One entry is taken out of the sessions and the devices of a user.
  abbrev pub TakesOut : Bytes → Bytes → Db → Db → Type 0
  TakesOut user field d d' =
      ((u f : Bytes)
        → hash (sessions_key u) f d'
          ≡ (if (u == user) && (f == field) then none else hash (sessions_key u) f d))
      × ((u f : Bytes)
          → member (devices_key u) f d'
            ≡ (if (u == user) && (f == field) then false else member (devices_key u) f d))
      × ((u : Bytes) → member online_users u d' ≡ member online_users u d)

  module _ (up : Answers redis) where
    pub remove_entry-TakesOut :
        (user field value : Bytes) (d : Db)
        → IsWritten value
        → ((remove_entry redis json user field value d).0 ≡ true)
          × TakesOut user field d (remove_entry redis json user field value d).1
    unfolding remove_entry
    remove_entry-TakesOut user field value d (info, e) =
        let s = session_user_key info.session_id in
        let r₁ = hdel (sessions_key user) field d in
        let r₂ = srem (devices_key user) field r₁.1 in
        let r₃ = del s r₂.1 in
        let e₁ = hdel_lem (sessions_key user) field d (up.hdel_ok _ _ _) in
        let e₂ = srem_lem (devices_key user) field r₁.1 (up.srem_ok _ _ _) in
        let e₃ = del_lem s r₂.1 (up.del_ok _ _) in
        let known : read_info redis json value ≡ some info =
          ap (read_info redis json) e ∙ read_info-dump redis json info in
        let run : remove_entry redis json user field value d ≡ r₃ = ground (
          arith,
          known,
          up.hdel_ok (sessions_key user) field d,
          up.srem_ok (devices_key user) field r₁.1,
        ) in
        subst (λ (r : Bool × Db). (r.0 ≡ true) × TakesOut user field d r.1) (sym run)
          (
            up.del_ok _ _,
            (
              λ u f. e₃.0 (sessions_key u) f ∙ e₂.0 (sessions_key u) f ∙ e₁.0 (sessions_key u) f,
              λ u f.
                  e₃.1 (devices_key u) f
                  ∙ e₂.1 (devices_key u) f
                  ∙ ap (λ b. if (u == user) && (f == field) then false else b)
                      (e₁.1 (devices_key u) f),
              λ u. e₃.1 online_users u ∙ e₂.1 online_users u ∙ e₁.1 online_users u,
            ),
          )

    -- The first entry of the device, if there is one.
    abbrev pub First : Bytes → Bytes → List (Bytes × Bytes) → Db → Bool × Db → Type 0
    First user device entries d r =
        ((r ≡ (true, d)) × ((f v : Bytes) → IsIn (f, v) entries → before_colon f ≢ some device))
        ⊎ ((f v : Bytes) × IsIn (f, v) entries
            × (before_colon f ≡ some device)
            × (r ≡ remove_entry redis json user f v d))

    pub remove_first-First :
        (user device : Bytes) (entries : List (Bytes × Bytes)) (d : Db)
        → First user device entries d (remove_first redis json user device entries d)
    unfolding remove_first
    remove_first-First user device [] d = inl (refl, λ f v m. absurd m)
    remove_first-First user device ((field, value) ∷ entries) d =
        elim (Bool-cases (is_device device (before_colon field))) [
          | inl e ↦ inr (
            field,
            value,
            inl refl,
            ground (arith, e, found device (before_colon field)),
            ground (arith, e, found device (before_colon field), ==_iff device device),
          )
          | inr e ↦
              let other : before_colon field ≢ some device =
                λ q. ground (arith, e, q, ==_iff device device) in
              let skip : remove_first redis json user device ((field, value) ∷ entries) d
                  ≡ remove_first redis json user device entries d =
                ground (arith, e) in
              subst (First user device ((field, value) ∷ entries) d) (sym skip)
                (elim (remove_first-First user device entries d) [
                  | inl (same, absent) ↦
                      inl (same, λ f v m. passed field value entries device f v m other absent)
                  | inr (f, v, m, b, e') ↦ inr (f, v, inr m, b, e')
                ])
        ]

    pub leave_online_cases :
        (user : Bytes) (d : Db)
        → (((f : Bytes) → hash (sessions_key user) f d ≡ none)
            × (leave_online redis json user d ≡ srem online_users user d))
          ⊎ (((f v : Bytes) × (hash (sessions_key user) f d ≡ some v))
              × (leave_online redis json user d ≡ (true, d)))
    unfolding leave_online
    leave_online_cases user d =
        let (entries, got) = up.hgetall_ok (sessions_key user) d in
        elim (cases_of entries) [
          | inl e ↦ inl (
            λ f. elim (Option-cases (hash (sessions_key user) f d)) [
              | inl nothing ↦ nothing
              | inr (v, q) ↦
                  absurd (
                    subst (IsIn (f, v)) e ((hgetall_lem (sessions_key user) d entries got f v).1 q))
            ],
            ground (arith, got, e),
          )
          | inr ((f, v), (rest, e)) ↦ inr (
            (
              f,
              v,
              (hgetall_lem (sessions_key user) d entries got f v).0
                  (subst (IsIn (f, v)) (sym e) (inl refl)),
            ),
            ground (arith, got, e),
          )
        ]
