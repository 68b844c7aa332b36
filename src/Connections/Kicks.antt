-- ===== src/Connections/Kicks.antt =====
-- check_and_kick_same_platform of connection_manager.cpp: which session a login disconnects.
use my_chat.Prelude.{
  ◌≡◌, ◌∙◌, refl, sym, ap, inl, inr, true, false, Option, none, some, List, [], ◌∷◌, ◌++◌,
  bytes_comparable, nat_comparable, ◌==◌, ==_iff, if◌then◌else◌, arith, Bool-cases, IsIn, subst,
}
use my_chat.Prelude.Int.{ℤ}
use my_chat.Prelude.Tables.{lookup}
use my_chat.Json.{Bytes}
use my_chat.Redis.{Redis, Answers}
use my_chat.Json.{Json, text_value}
use my_chat.Connections.{
  DeviceSessionInfo, to_json, begins, contains, generate_device_field, find_kicked,
  check_and_kick_same_platform, add_connection,
}
use my_chat.Connections.Keys.{session_id_key}
use my_chat.Connections.Adding.{sessions_key}

begins-append : (part rest : Bytes) → begins part (part ++ rest) ≡ true
unfolding begins
begins-append [] rest = refl
begins-append (p ∷ part) rest = ground (arith, begins-append part rest, ==_iff p p)

contains-begins : (part whole : Bytes) → begins part whole ≡ true → contains part whole ≡ true
unfolding contains
contains-begins part [] h = h
contains-begins part (c ∷ whole) h = ground (arith, h)

contains-append : (left part rest : Bytes) → contains part (left ++ (part ++ rest)) ≡ true
unfolding contains
contains-append [] part rest = contains-begins part (part ++ rest) (begins-append part rest)
contains-append (c ∷ left) part rest = ground (arith, contains-append left part rest)

session_id-to_json :
    (info : DeviceSessionInfo)
    → text_value (lookup session_id_key (to_json info)) ≡ some info.session_id
unfolding to_json lookup
session_id-to_json info = refl

field_of :
    (f field w v : Bytes) {o : Option Bytes}
    → o ≡ some w
    → o ≡ (if f == field then some v else none)
    → (f ≡ field) × (w ≡ v)
field_of f field w v e q = (ground (arith, e, q, ==_iff f field), ground (arith, e, q))

module _ (redis : Redis) (json : Json) (up : Answers redis) where
  open redis use {Db, views, hgetall, hgetall_lem}
  open views use {hash, member}

  find_kicked_first :
      (device platform field : Bytes) (info : DeviceSessionInfo) (rest : List (Bytes × Bytes))
      → contains (58 ∷ platform) field ≡ true
      → contains device field ≡ false
      → find_kicked redis json device platform ((field, json.dump (to_json info)) ∷ rest)
        ≡ some info.session_id
  unfolding find_kicked
  find_kicked_first device platform field info rest h other =
      let (o, parsed, same) = json.parse-dump (to_json info) in
      ground (arith, h, other, parsed, same session_id_key, session_id-to_json info)

  find_kicked_none :
      (device platform field : Bytes) (entries : List (Bytes × Bytes))
      → contains device field ≡ true
      → ((f v : Bytes) → IsIn (f, v) entries → f ≡ field)
      → find_kicked redis json device platform entries ≡ some []
  unfolding find_kicked
  find_kicked_none device platform field [] h all = refl
  find_kicked_none device platform field ((f, v) ∷ entries) h all =
      let own : contains device f ≡ true = ap (contains device) (all f v (inl refl)) ∙ h in
      ground
        (arith, own, find_kicked_none device platform field entries h (λ g w m. all g w (inr m)))

  find_kicked_only :
      (device platform field : Bytes) (info : DeviceSessionInfo) (entries : List (Bytes × Bytes))
      → contains (58 ∷ platform) field ≡ true
      → contains device field ≡ false
      → ((f v : Bytes) → IsIn (f, v) entries → (f ≡ field) × (v ≡ json.dump (to_json info)))
      → IsIn (field, json.dump (to_json info)) entries
      → find_kicked redis json device platform entries ≡ some info.session_id
  find_kicked_only device platform field info [] h other all there = absurd there
  find_kicked_only device platform field info ((f, v) ∷ entries) h other all there =
      let (e, q) = all f v (inl refl) in
      subst (λ w. find_kicked redis json device platform ((f, w) ∷ entries) ≡ some info.session_id)
        (sym q)
        (find_kicked_first device platform f info entries (ap (contains (58 ∷ platform)) e ∙ h)
          (ap (contains device) e ∙ other))

  -- On a platform of a single device, for a user with one session, whose platform begins with the
  -- name of the new one's: a login disconnects that session, also if the two platforms differ, but not
  -- if the new device's id occurs in the field of the old session, as when it is a part of the old
  -- device's id.
  pub add_connection-kicked :
      (user device platform session_id : Bytes) (now : ℤ) (rest : Bytes) (old : DeviceSessionInfo)
      (d : Db)
      → old.platform ≡ platform ++ rest
      → ((f : Bytes)
          → hash (sessions_key user) f d ≡ (
              if f == generate_device_field old.device_id old.platform
              then some (json.dump (to_json old))
              else none))
      → (add_connection redis json false user device platform session_id now d).0.1 ≡ (
          if contains device (generate_device_field old.device_id old.platform)
          then []
          else old.session_id)
  unfolding add_connection check_and_kick_same_platform
  add_connection-kicked user device platform session_id now rest old d same only =
      let (entries, got) = up.hgetall_ok (sessions_key user) d in
      let field = generate_device_field old.device_id old.platform in
      let v = json.dump (to_json old) in
      let held = hgetall_lem (sessions_key user) d entries got in
      let of_field =
        λ (f w : Bytes) (m : IsIn (f, w) entries). field_of f field w v ((held f w).0 m) (only f) in
      let there = (held field v).1 (ground (arith, only field, ==_iff field field)) in
      let here : contains (58 ∷ platform) field ≡ true =
        ap (λ p. contains (58 ∷ platform) (old.device_id ++ 58 ∷ p)) same
        ∙ contains-append old.device_id (58 ∷ platform) rest in
      elim (Bool-cases (contains device field)) [
        | inl e ↦ ground (
          arith,
          got,
          e,
          find_kicked_none device platform field entries e (λ f w m. (of_field f w m).0),
        )
        | inr e ↦ ground (
          arith,
          got,
          e,
          find_kicked_only device platform field old entries here e of_field there,
        )
      ]
