-- ===== src/AuthManager/Tests.antt =====
-- The result on the mutex of auth_mgr.cpp, on tokens that are the texts of their claims.
use my_chat.Prelude.{ℕ, ◌*◌, ◌≡◌, ◌&&◌, refl, ap, Bool, none, some, [], ◌∷◌, leb, ltb, arith}
use my_chat.Prelude.Int.{pos}
use my_chat.Json.{Bytes, Object, text, number}
use my_chat.Json.Tokens.{nth, text_of, nat_of, read, write, read-write}
use my_chat.Redis.Texts.{second}
use my_chat.Connections.Keys.{codes}
use my_chat.AuthManager.{TokenClaims, TokenJwt, new_manager, revoke_token, verify_token}
use my_chat.AuthManager.Lock.{verifies, call, call_all, revoke_token-verify_token}

abbrev entries_of : TokenClaims → Object
entries_of c =
    (codes "jti", text c.id)
    ∷ (codes "sub", text c.subject)
    ∷ (codes "username", text c.username)
    ∷ (codes "device_id", text c.device_id)
    ∷ (codes "iat", number (pos c.issued_at))
    ∷ (codes "exp", number (pos c.expires_at))
    ∷ []

abbrev claims_of : Object → TokenClaims
claims_of o = record {
  id = text_of (nth 0 o);
  subject = text_of (nth 1 o);
  username = text_of (nth 2 o);
  device_id = text_of (nth 3 o);
  issued_at = nat_of (nth 4 o);
  expires_at = nat_of (nth 5 o);
}

abbrev in_time : TokenClaims → ℕ → Bool
in_time c now = leb (c.issued_at * second) now && ltb now (c.expires_at * second)

claims-write : (c : TokenClaims) → claims_of (read (write (entries_of c))).entries ≡ c
claims-write c = ap claims_of (read-write (entries_of c)).1

abbrev plain : TokenJwt
plain = record {
  sign = λ c. write (entries_of c);
  decode = λ t. some (claims_of (read t).entries);
  verifies = λ t now. in_time (claims_of (read t).entries) now;
  decode-sign = λ c. ap some (claims-write c);
}

abbrev claims : TokenClaims
claims = record {
  id = codes "uuid";
  subject = codes "7";
  username = codes "alice";
  device_id = codes "phone";
  issued_at = 100;
  expires_at = 160;
}

abbrev alice_token : Bytes
alice_token = write (entries_of claims)

run : call_all plain (verifies [] 5 ∷ []) (new_manager 60) ≡ some (new_manager 60)
unfolding call_all call verify_token read
run = refl

revoke_token-verify_token_example :
    (revoke_token plain alice_token (new_manager 60) ≡ none)
    × (verify_token plain alice_token 109000000000 (new_manager 60)
        ≡ some (
          some (record {
            user_id = codes "7";
            username = codes "alice";
            device_id = codes "phone";
            create_time = 100;
          }),
          new_manager 60,
        ))
revoke_token-verify_token_example =
    revoke_token-verify_token plain alice_token (verifies [] 5 ∷ []) 60 109000000000 claims
      (new_manager 60) (ap some (claims-write claims)) (ground (arith))
      (ap (λ (c : TokenClaims). in_time c 109000000000) (claims-write claims)) run
