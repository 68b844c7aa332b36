-- ===== src/AuthManager/Lock.antt =====
-- The mutex of auth_mgr.cpp, which revoke_token and unrevoke_token lock twice.
use my_chat.Prelude.{
  ℕ, ◌≡◌, ◌≢◌, ◌∙◌, refl, sym, true, Option, none, some, List, [], ◌∷◌, bytes_comparable, ◌==◌,
  ==_iff, arith, Bool-cases, Option-cases, inl, inr, subst, ◌⊎◌,
}
use my_chat.Json.{Bytes}
use my_chat.AuthManager.{
  TokenClaims, TokenJwt, AuthManager, new_manager, with_lock, is_listed, extract_jti, revoke_token,
  unrevoke_token, is_token_revoked, verify_token,
}

pub data Call : Type 0 where
  revokes : Bytes → Call
  unrevokes : Bytes → Call
  verifies : Bytes → ℕ → Call

module _ (jwt : TokenJwt) where
  -- What a call leaves, if it returns.
  unfoldable pub call : Call → AuthManager → Option AuthManager
  call (revokes token) m = elim (revoke_token jwt token m) [ none ↦ none | some (_, m') ↦ some m' ]
  call (unrevokes token) m = elim (unrevoke_token jwt token m) [
    | none ↦ none
    | some (_, m') ↦ some m'
  ]
  call (verifies token now) m = elim (verify_token jwt token now m) [
    | none ↦ none
    | some (_, m') ↦ some m'
  ]

  unfoldable pub call_all : List Call → AuthManager → Option AuthManager
  call_all [] m = some m
  call_all (c ∷ cs) m = elim (call c m) [ none ↦ none | some m' ↦ call_all cs m' ]

  call_cases :
      (c : Call) (e : ℕ)
      → (call c (new_manager e) ≡ none) ⊎ (call c (new_manager e) ≡ some (new_manager e))
  unfolding call revoke_token unrevoke_token is_token_revoked verify_token with_lock is_listed
  call_cases (revokes token) e = elim (Bool-cases (extract_jti jwt token == [])) [
    | inl q ↦ inr (ground (arith, q))
    | inr q ↦ inl (ground (arith, q))
  ]
  call_cases (unrevokes token) e = elim (Bool-cases (extract_jti jwt token == [])) [
    | inl q ↦ inr (ground (arith, q))
    | inr q ↦ inl (ground (arith, q))
  ]
  call_cases (verifies token now) e = inr (elim (Option-cases (jwt.decode token)) [
    | inl q ↦ ground (arith, q)
    | inr (c, q) ↦ elim (Bool-cases (jwt.verifies token now)) [
      | inl v ↦ elim (Bool-cases (extract_jti jwt token == [])) [
        | inl w ↦ ground (arith, q, v, w)
        | inr w ↦ ground (arith, q, v, w)
      ]
      | inr v ↦ ground (arith, q, v)
    ]
  ])

  call_all_cases :
      (cs : List Call) (e : ℕ)
      → (call_all cs (new_manager e) ≡ none) ⊎ (call_all cs (new_manager e) ≡ some (new_manager e))
  unfolding call_all
  call_all_cases [] e = inr refl
  call_all_cases (c ∷ cs) e = elim (call_cases c e) [
    | inl q ↦ inl (ground (arith, q))
    | inr q ↦ elim (call_all_cases cs e) [
      | inl r ↦ inl (ground (arith, q, r))
      | inr r ↦ inr (ground (arith, q, r))
    ]
  ]

  -- revoke_token does not return for a token that can be read and has an id, and so no token is ever
  -- revoked: after any calls that return, a token that jwt-cpp accepts is accepted.
  pub revoke_token-verify_token :
      (token : Bytes) (cs : List Call) (e now : ℕ) (c : TokenClaims) (m : AuthManager)
      → jwt.decode token ≡ some c
      → c.id ≢ []
      → jwt.verifies token now ≡ true
      → call_all cs (new_manager e) ≡ some m
      → (revoke_token jwt token m ≡ none)
        × (verify_token jwt token now m
            ≡ some (
              some (record {
                user_id = c.subject;
                username = c.username;
                device_id = c.device_id;
                create_time = c.issued_at;
              }),
              m,
            ))
  unfolding revoke_token verify_token is_token_revoked with_lock is_listed extract_jti
  revoke_token-verify_token token cs e now c m decoded ne good run = elim (call_all_cases cs e) [
    | inl q ↦ absurd (ground (arith, q, run))
    | inr q ↦
        let same : new_manager e ≡ m = given (sym q ∙ run) in
        subst
          (λ w.
            (revoke_token jwt token w ≡ none)
            × (verify_token jwt token now w
                ≡ some (
                  some (record {
                    user_id = c.subject;
                    username = c.username;
                    device_id = c.device_id;
                    create_time = c.issued_at;
                  }),
                  w,
                )))
          same
          (
            ground (arith, decoded, ne, ==_iff c.id []),
            ground (arith, decoded, ne, good, ==_iff c.id []),
          )
  ]
    where
      given : {a b : AuthManager} → some a ≡ some b → a ≡ b
      given h = ground (arith, h)
