-- ===== src/Auth/Revocation.antt =====
-- Revoked refresh tokens of multi_platform_auth.cpp, while Redis answers.
use my_chat.Prelude.{
  ℕ, zero, suc, ◌+◌, ◌*◌, ◌≤◌, ◌≡◌, ◌≢◌, ◌∙◌, sym, ap, Bool, true, false, Option, some, [], ◌∷◌,
  bytes_comparable, ◌==◌, ==_iff, ltb, arith, subst, Bool-cases, Option-cases, inl, inr, ◌⊎◌,
}
use my_chat.Prelude.Int.{ℤ, pos, negsuc}
use my_chat.Prelude.Tables.{lookup}
use my_chat.Json.{Bytes, Object, JsonValue, boolean, Json}
use my_chat.Redis.Texts.{Texts, Answers, second}
use my_chat.Auth.{
  revoked_key, refresh_token_key, assign, as_boolean, if_positive, and_then, set_revoked,
}
use my_chat.Auth.Lifetime.{and_then_ok}

lookup-assign : (k : Bytes) (v : JsonValue) (o : Object) → lookup k (assign k v o) ≡ some v
unfolding lookup assign
lookup-assign k v [] = ground (arith, ==_iff k k)
lookup-assign k v ((j, w) ∷ o) = elim (Bool-cases (j == k)) [
  | inl e ↦ ground (arith, e)
  | inr e ↦ ground (arith, e, lookup-assign k v o)
]

module _ (texts : Texts) (json : Json) where
  open texts use {
    Db, text_at, set, get, del, expire, ttl, srem, text_lem, set_lem, del_lem, expire_lem, srem_lem,
    get_lem,
  }

  -- A text that verify_refresh_token does not accept from any device.
  abbrev pub Refused : Option Bytes → Type 0
  Refused o =
      (meta : Bytes) (j : Object)
      → o ≡ some meta
      → json.parse meta ≡ some j
      → as_boolean (lookup revoked_key j) ≢ some false

  abbrev pub IsDead : Bytes → ℕ → Db → Type 0
  IsDead token now d = Refused (text_at (refresh_token_key token) now d)

  pub IsDead-later :
      (token : Bytes) (t t' : ℕ) (d : Db) → t ≤ t' → IsDead token t d → IsDead token t' d
  IsDead-later token t t' d le h = elim (text_lem (refresh_token_key token) t t' d le) [
    | inl e ↦ subst Refused (sym e) h
    | inr e ↦ λ meta j q. absurd (cc (e, q))
  ]

  pub revoked-Refused :
      (j : Object) → Refused (some (json.dump (assign revoked_key (boolean true) j)))
  revoked-Refused j meta j' e parsed h =
      let (k, read, same) = json.parse-dump (assign revoked_key (boolean true) j) in
      let is_k : some k ≡ some j' = sym read ∙ ap json.parse (dumped e) ∙ parsed in
      let value : lookup revoked_key k ≡ some (boolean true) =
        same revoked_key ∙ lookup-assign revoked_key (boolean true) j in
      absurd (ground (arith, is_k, value, h))
    where
      dumped : {a b : Bytes} → some a ≡ some b → a ≡ b
      dumped q = ground (arith, q)

  -- What set_revoked does to a token that is there.
  abbrev pub Marks : Bool → Bytes → ℕ → Db → Db → Type 0
  Marks revoked token now d d' =
      (meta : Bytes) × (j : Object) × (text_at (refresh_token_key token) now d ≡ some meta)
      × (json.parse meta ≡ some j)
      × (text_at (refresh_token_key token) now d'
          ≡ some (json.dump (assign revoked_key (boolean revoked) j)))
      × ((x : Bytes) (t : ℕ)
          → now ≤ t
          → x ≢ token
          → text_at (refresh_token_key x) t d' ≡ text_at (refresh_token_key x) t d)

  module _ (up : Answers texts) where
    abbrev Writes : Bytes → Bytes → ℕ → Db → Db → Type 0
    Writes key v now d d' =
        (text_at key now d' ≡ some v)
        × ((k : Bytes) (t : ℕ) → now ≤ t → k ≢ key → text_at k t d' ≡ text_at k t d)

    set-Writes : (key v : Bytes) (now : ℕ) (d : Db) → Writes key v now d (set key v now d).1
    set-Writes key v now d =
        let e = set_lem key v now d (up.set_ok key v now d) in
        (
          e key now (omega arith) ∙ ground (arith, ==_iff key key),
          λ k t le ne. e k t le ∙ ground (arith, ne, ==_iff k key),
        )

    expire-Writes :
        (key v : Bytes) (n now : ℕ) (d d₁ : Db)
        → Writes key v now d d₁
        → Writes key v now d (expire key (suc n) now d₁).1
    expire-Writes key v n now d d₁ (own, others) =
        let e = expire_lem key (suc n) now d₁ (up.expire_ok key (suc n) now d₁) in
        let before : ltb now (now + suc n * second) ≡ true = ground arith in
        (
          e key now (omega arith) ∙ ground (arith, own, before, ==_iff key key),
          λ k t le ne. e k t le ∙ ground (arith, ne, others k t le ne, ==_iff k key),
        )

    -- The last two commands of set_revoked.
    store-Writes :
        (key v : Bytes) (remaining : ℤ) (now : ℕ) (d : Db)
        → Writes key v now d
            (and_then texts json
              (set key v now d)
              (λ d₁. if_positive remaining (true, d₁) (λ s. expire key s now d₁))).1
    store-Writes key v remaining now d =
        let r₁ = set key v now d in
        let next = λ (d₁ : Db). if_positive remaining (true, d₁) (λ s. expire key s now d₁) in
        subst (λ (r : Bool × Db). Writes key v now d r.1)
          (sym (and_then_ok texts json r₁ next (up.set_ok key v now d))) (may_expire remaining)
      where
        may_expire :
            (s : ℤ)
            → Writes key v now d
                (if_positive s
                  (true, (set key v now d).1)
                  (λ n. expire key n now (set key v now d).1)).1
        may_expire (pos zero) = set-Writes key v now d
        may_expire (pos (suc n)) =
            expire-Writes key v n now d (set key v now d).1 (set-Writes key v now d)
        may_expire (negsuc n) = set-Writes key v now d

    pub set_revoked_cases :
        (revoked : Bool) (token : Bytes) (now : ℕ) (d : Db)
        → (((set_revoked texts json revoked token now d).1 ≡ d) × IsDead token now d)
          ⊎ Marks revoked token now d (set_revoked texts json revoked token now d).1
    unfolding set_revoked
    set_revoked_cases revoked token now d =
        let key = refresh_token_key token in
        let (o, got) = up.get_ok key now d in
        let held = get_lem key now d o got in
        let (remaining, left) = up.ttl_ok key now d in
        elim (Option-cases o) [
          | inl e ↦
              inl (ground (arith, got, e), subst Refused held (λ meta j q. absurd (cc (e, q))))
          | inr (meta, e) ↦ elim (Option-cases (json.parse meta)) [
            | inl q ↦ inl (
              ground (arith, got, e, left, q),
              λ m j own parsed. absurd (
                  ground (
                    arith,
                    held,
                    e,
                    own,
                    parsed,
                    q,
                    ap json.parse (same_text (sym own ∙ sym held ∙ e)),
                  )),
            )
            | inr (j, q) ↦
                let v = json.dump (assign revoked_key (boolean revoked) j) in
                let next =
                  λ (d₁ : Db). if_positive remaining (true, d₁) (λ s. expire key s now d₁) in
                let run : set_revoked texts json revoked token now d
                    ≡ and_then texts json (set key v now d) next =
                  ground (arith, got, e, left, q) in
                let (own, others) = store-Writes key v remaining now d in
                inr (
                  subst (λ (r : Bool × Db). Marks revoked token now d r.1) (sym run)
                    (
                      meta,
                      j,
                      sym held ∙ e,
                      q,
                      own,
                      λ x t le ne.
                          others (refresh_token_key x) t le
                            (λ same. ne (ground (arith, same, ==_iff x token))),
                    ))
          ]
        ]
      where
        same_text : {a b : Bytes} → some a ≡ some b → a ≡ b
        same_text h = ground (arith, h)
