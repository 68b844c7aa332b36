-- ===== src/Password/Verify.antt =====
-- verify of password_hasher.cpp on the text that hash writes, and on that text with more behind it.
use my_chat.Prelude.{
  append-nil, append_assoc, ℕ, ◌^◌, ◌<◌, ◌≡◌, ◌∙◌, ◌↔◌, sym, ap, true, false, some, [], ◌∷◌, ◌++◌,
  ==_iff, bytes_comparable, nat_comparable, length, All, arith, Option-cases, inl, inr,
}
use my_chat.Prelude.Int.{ℤ, pos}
use my_chat.Password.{
  Bytes, Pbkdf2, delimiter, scheme, to_hex, decimal, getline, stored_text, derive, hash, verify,
  verify_iterations, verify_salt, verify_key, to_int,
}
use my_chat.Password.Fields.{
  NoDelimiter, getline-append, getline_last, strtol-decimal, decimal-NoDelimiter,
  to_hex-NoDelimiter, to_hex_nonempty, from_hex-to_hex, to_int_pos,
}

-- n bytes.
abbrev pub AreBytes : ℕ → Bytes → Type 0
AreBytes n bs = (length bs ≡ n) × All (λ b. b < 256) bs

-- The derived keys have the length that is asked for.
abbrev pub DerivesKeys : Pbkdf2 → Type 0
DerivesKeys pbkdf2 =
    (password : Bytes) (size : ℤ) (salt : Bytes) (iter : ℤ) (key : Bytes)
    → pbkdf2 password size salt iter ≡ some key
    → AreBytes 32 key

scheme-NoDelimiter : NoDelimiter scheme
scheme-NoDelimiter = ground arith

module _ (pbkdf2 : Pbkdf2) (other : Bytes) (iter : ℕ) (salt key : Bytes) (small : iter < 2 ^ 31)
    (salted : AreBytes 16 salt) (keyed : AreBytes 32 key) where
  -- What verify reads, once the getline of the key has been taken.
  verify_salt-read :
      (text rest : Bytes)
      → getline text ≡ some (to_hex key, rest)
      → verify_salt pbkdf2 other (pos iter) (to_hex salt ++ delimiter ∷ text)
        ≡ verify_key pbkdf2 other (pos iter) salt key rest
  unfolding verify_salt
  verify_salt-read text rest e = ground (
    arith,
    getline-append (to_hex salt) text (to_hex-NoDelimiter salt),
    from_hex-to_hex salt 16 salted.1 salted.0,
    from_hex-to_hex key 32 keyed.1 keyed.0,
  )

  verify_iterations-read :
      (text : Bytes)
      → verify_iterations pbkdf2 other (decimal 10 iter ++ delimiter ∷ text)
        ≡ verify_salt pbkdf2 other (pos iter) text
  unfolding verify_iterations
  verify_iterations-read text = ground (
    arith,
    getline-append (decimal 10 iter) text (decimal-NoDelimiter iter),
    strtol-decimal iter small,
  )

  verify-read :
      (text : Bytes)
      → verify pbkdf2 other (scheme ++ delimiter ∷ text) ≡ verify_iterations pbkdf2 other text
  unfolding verify
  verify-read text =
      ground (arith, getline-append scheme text scheme-NoDelimiter, ==_iff scheme scheme)

  verify-with :
      (end rest : Bytes)
      → getline (to_hex key ++ end) ≡ some (to_hex key, rest)
      → verify pbkdf2 other (stored_text iter salt key ++ end)
        ≡ verify_key pbkdf2 other (pos iter) salt key rest
  unfolding stored_text
  verify-with end rest e =
      let salt_on = append_assoc (to_hex salt) (delimiter ∷ to_hex key) end in
      let all_on =
        append_assoc (decimal 10 iter) (delimiter ∷ (to_hex salt ++ delimiter ∷ to_hex key)) end
        ∙ ap (λ t. decimal 10 iter ++ delimiter ∷ t) salt_on in
      ap (λ t. verify pbkdf2 other (scheme ++ delimiter ∷ t)) all_on
      ∙ verify-read
          (decimal 10 iter ++ delimiter ∷ (to_hex salt ++ delimiter ∷ (to_hex key ++ end)))
      ∙ verify_iterations-read (to_hex salt ++ delimiter ∷ (to_hex key ++ end))
      ∙ verify_salt-read (to_hex key ++ end) rest e

  pub verify-stored_text :
      verify pbkdf2 other (stored_text iter salt key)
      ≡ verify_key pbkdf2 other (pos iter) salt key []
  verify-stored_text =
      ap (verify pbkdf2 other) (sym (append-nil (stored_text iter salt key)))
      ∙ verify-with [] [] (
          ap getline (append-nil (to_hex key))
          ∙ getline_last (to_hex key) (to_hex_nonempty key 31 keyed.0) (to_hex-NoDelimiter key))

  pub verify-stored_text_on :
      (rest : Bytes)
      → verify pbkdf2 other (stored_text iter salt key ++ delimiter ∷ rest)
        ≡ verify_key pbkdf2 other (pos iter) salt key rest
  verify-stored_text_on rest =
      verify-with (delimiter ∷ rest) rest
        (getline-append (to_hex key) rest (to_hex-NoDelimiter key))

module _ (pbkdf2 : Pbkdf2) (derives : DerivesKeys pbkdf2) (iter : ℕ) (salt : Bytes)
    (small : iter < 2 ^ 31) (salted : AreBytes 16 salt) (password text : Bytes)
    (hashed : hash pbkdf2 iter (some salt) password ≡ some text) where
  -- A text that hash has made comes from a derived key.
  text_of :
      (key : Bytes) × (derive pbkdf2 password salt (pos iter) ≡ some key)
      × AreBytes 32 key
      × (text ≡ stored_text iter salt key)
  unfolding hash derive
  text_of = elim (Option-cases (derive pbkdf2 password salt (pos iter))) [
    | inl e ↦ absurd (ground (arith, hashed, e))
    | inr (key, e) ↦ (
      key,
      e,
      derives password (to_int (pos (length password))) salt (pos iter) key e,
      ground (arith, hashed, e),
    )
  ]

  -- A text that hash has made for one password is accepted for another exactly if both derive the
  -- same key; in particular it is accepted for the password itself.
  pub verify-hash :
      (other : Bytes)
      → (verify pbkdf2 other text ≡ true)
        ↔ (derive pbkdf2 other salt (pos iter) ≡ derive pbkdf2 password salt (pos iter))
  unfolding verify_key
  verify-hash other =
      let (key, e, keyed, made) = text_of in
      let read = verify-stored_text pbkdf2 other iter salt key small salted keyed in
      elim (Option-cases (derive pbkdf2 other salt (pos iter))) [
        | inl none_derived ↦ ground (arith, e, made, read, none_derived, to_int_pos iter small)
        | inr (found, d) ↦ ground (arith, e, made, read, d, to_int_pos iter small, ==_iff found key)
      ]

  -- Behind the text that hash has made, a single delimiter changes nothing, and any field behind it
  -- makes verify refuse.
  pub verify-hash_more :
      (other : Bytes)
      → (verify pbkdf2 other (text ++ delimiter ∷ []) ≡ verify pbkdf2 other text)
        × ((c : ℕ) (rest : Bytes) → verify pbkdf2 other (text ++ delimiter ∷ c ∷ rest) ≡ false)
  unfolding verify_key
  verify-hash_more other =
      let (key, e, keyed, made) = text_of in
      (
        ap (λ t. verify pbkdf2 other (t ++ delimiter ∷ [])) made
            ∙ verify-stored_text_on pbkdf2 other iter salt key small salted keyed []
            ∙ sym (verify-stored_text pbkdf2 other iter salt key small salted keyed)
            ∙ sym (ap (verify pbkdf2 other) made),
        λ c rest.
            ap (λ t. verify pbkdf2 other (t ++ delimiter ∷ c ∷ rest)) made
            ∙ verify-stored_text_on pbkdf2 other iter salt key small salted keyed (c ∷ rest),
      )
