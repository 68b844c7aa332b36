-- ===== src/Auth/Tests.antt =====
-- The results on the refresh tokens, on the Redis server of Redis/Clock and the JSON objects of
-- Json/Tokens.
use my_chat.Prelude.{
  ℕ, ◌+◌, ◌*◌, ◌≡◌, ◌≢◌, Bool, true, false, none, some, List, [], ◌∷◌, if◌then◌else◌, ltb, arith,
  refl, All,
}
use my_chat.Prelude.Int.{ℤ}
use my_chat.Json.{Bytes, Object, text, number}
use my_chat.Json.Tokens.{tokens, nth, text_of, nat_of, read, write, read-write}
use my_chat.Redis.Texts.{second}
use my_chat.Redis.Clock.{clock, clock-Answers, nothing}
use my_chat.Connections.Keys.{codes}
use my_chat.Auth.{
  new_info, generate_refresh_token, verify_refresh_token, revoke_refresh_token,
  refresh_access_token,
}
use my_chat.Auth.Lifetime.{lifetime, generate_refresh_token-verify_refresh_token}
use my_chat.Auth.History.{
  Call, generates, verifies, unrevokes, deletes, refreshes, Spares, end_time, call_all,
  revoked-verify_refresh_token,
}
use my_chat.Prelude.{leb, ◌&&◌, ap, ◌∙◌, ◌≤◌, ◌<◌}
use my_chat.Prelude.Int.{pos}
use my_chat.Auth.Access.{Claims, Jwt, info_of, ttl_of, verify_access_token, revoke_token}
use my_chat.Auth.Blacklist.{revoke_token-verify_access_token}
use my_chat.Auth.Rotation.{stolen-verify_refresh_token, refresh_access_token-verify_refresh_token}

abbrev uid : Bytes
uid = codes "7"

abbrev alice : Bytes
alice = codes "alice"

abbrev phone : Bytes
phone = codes "phone"

abbrev thief : Bytes
thief = codes "thief"

abbrev web : Bytes
web = codes "web"

abbrev token_a : Bytes
token_a = codes "a"

abbrev token_b : Bytes
token_b = codes "b"

-- An hour on every platform.
abbrev configured : Bytes → ℕ
configured platform = 3600

abbrev rotates : Bytes → ℤ → ℤ → ℕ → Bool
rotates platform issued_at expires_at now = true

abbrev calls : List (ℕ × Call)
calls =
    (5, verifies token_a phone)
    ∷ (1, refreshes token_a phone token_b [])
    ∷ (9, generates uid alice phone web 60 token_b)
    ∷ (0, unrevokes token_b)
    ∷ (2, deletes token_b)
    ∷ []

a_ne_b : token_a ≢ token_b
a_ne_b = ground (arith)

calls-Spares : All (λ (c : ℕ × Call). Spares token_a c.1) calls
calls-Spares = (tt, (a_ne_b, (a_ne_b, (a_ne_b, (tt, tt)))))

generate_refresh_token-verify_refresh_token_example :
    let r =
      generate_refresh_token clock tokens configured uid alice phone web 0 token_a 10 nothing in
    (r.0 ≡ token_a)
    × (verify_refresh_token clock tokens token_a phone 20 r.1 ≡ (
      (if ltb 20 (10 + lifetime clock tokens configured web 0 * second)
          then (
            true,
            some (new_info uid alice phone web (lifetime clock tokens configured web 0) 10),
          )
          else (false, none)),
      r.1,
    ))
generate_refresh_token-verify_refresh_token_example =
    generate_refresh_token-verify_refresh_token clock tokens clock-Answers configured uid alice
      phone web 0 token_a 10 20 nothing (ground (arith)) (omega arith)

revoked-verify_refresh_token_example :
    (verify_refresh_token clock tokens token_a phone (end_time calls 20 + 3) (
      call_all clock tokens configured rotates calls 20
        (revoke_refresh_token clock tokens token_a 20
          (generate_refresh_token clock tokens configured uid alice phone web 0 token_a 10
            nothing).1).1)).0
    ≡ (false, none)
revoked-verify_refresh_token_example =
    revoked-verify_refresh_token clock tokens configured rotates clock-Answers token_a phone calls
      20 3
      (generate_refresh_token clock tokens configured uid alice phone web 0 token_a 10 nothing).1
      calls-Spares

stolen-verify_refresh_token_example :
    (verify_refresh_token clock tokens token_a phone (end_time calls (10 + 5) + 3) (
      call_all clock tokens configured rotates calls
        (10 + 5)
        (verify_refresh_token clock tokens token_a thief
          (10 + 5)
          (generate_refresh_token clock tokens configured uid alice phone web 0 token_a 10
            nothing).1).1)).0
    ≡ (false, none)
stolen-verify_refresh_token_example =
    stolen-verify_refresh_token clock tokens clock-Answers configured rotates uid alice phone web 0
      token_a thief phone 10 5 3 calls nothing (ground (arith)) (ground (arith)) calls-Spares

refresh_access_token-verify_refresh_token_example :
    let info = new_info uid alice phone web (lifetime clock tokens configured web 0) 10 in
    let d =
      (generate_refresh_token clock tokens configured uid alice phone web 0 token_a 10 nothing).1 in
    let r =
      refresh_access_token clock tokens configured rotates token_a phone token_b
        (codes "access")
        (10 + 5)
        d in
    (r.0
      ≡ record { success = true; new_access_token = codes "access"; new_refresh_token = token_b })
    × (verify_refresh_token clock tokens token_a phone (10 + 5 + 6) r.1 ≡ ((true, some info), r.1))
refresh_access_token-verify_refresh_token_example =
    refresh_access_token-verify_refresh_token clock tokens clock-Answers configured rotates uid
      alice phone web 0 token_a token_b (codes "access") 10 5 6 nothing (ground (arith))
      (ground (arith)) refl refl

-- A token is the text of its claims; every key signs alike.
abbrev entries_of : Claims → Object
entries_of c =
    (codes "jti", text c.id)
    ∷ (codes "sub", text c.subject)
    ∷ (codes "username", text c.username)
    ∷ (codes "device_id", text c.device_id)
    ∷ (codes "platform", text c.platform)
    ∷ (codes "iat", number (pos c.issued_at))
    ∷ (codes "exp", number (pos c.expires_at))
    ∷ []

abbrev claims_of : Object → Claims
claims_of o = record {
  id = text_of (nth 0 o);
  subject = text_of (nth 1 o);
  username = text_of (nth 2 o);
  device_id = text_of (nth 3 o);
  platform = text_of (nth 4 o);
  issued_at = nat_of (nth 5 o);
  expires_at = nat_of (nth 6 o);
}

claims-write : (c : Claims) → claims_of (read (write (entries_of c))).entries ≡ c
claims-write c = ap claims_of (read-write (entries_of c)).1

abbrev in_time : Claims → ℕ → Bool
in_time c now = leb (c.issued_at * second) now && ltb now (c.expires_at * second)

in_time_lem :
    (c : Claims) (now : ℕ)
    → c.issued_at * second ≤ now
    → now < c.expires_at * second
    → in_time c now ≡ true
in_time_lem c now from until = ground arith

abbrev plain : Jwt
plain = record {
  sign = λ key c. write (entries_of c);
  decode = λ token. some (claims_of (read token).entries);
  verifies = λ key token now. in_time (claims_of (read token).entries) now;
  decode-sign = λ key c. ap some (claims-write c);
  verifies-sign = λ key c now from until.
      ap (λ (d : Claims). in_time d now) (claims-write c) ∙ in_time_lem c now from until;
}

-- Issued at 100 s for 60 s, and revoked 9.5 s later.
abbrev claims : Claims
claims = record {
  id = codes "uuid";
  subject = uid;
  username = alice;
  device_id = phone;
  platform = web;
  issued_at = 100;
  expires_at = 160;
}

-- After 159.7 s the revoked token is accepted.
revoke_token-verify_access_token_example :
    let r =
      revoke_token clock plain
        (codes "secret")
        (plain.sign (codes "secret") claims)
        109500000000
        nothing in
    (r.0 ≡ true)
    × (verify_access_token clock plain
          (codes "secret")
          (plain.sign (codes "secret") claims)
          159700000000
          r.1
        ≡ (if ltb 0 (ttl_of (160 * second) 109500000000)
              && leb (109500000000 + ttl_of (160 * second) 109500000000 * second) 159700000000
            then some (info_of claims)
            else none))
revoke_token-verify_access_token_example =
    revoke_token-verify_access_token clock plain (codes "secret") clock-Answers claims 109500000000
      159700000000 nothing (ground (arith)) (omega arith) (omega arith) (omega arith)
