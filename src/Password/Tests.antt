-- ===== src/Password/Tests.antt =====
-- A stored hash at a concrete input, with a key derivation that repeats the size of the password.
use my_chat.Prelude.{
  ℕ, zero, suc, ◌≡◌, ◌↔◌, refl, true, false, some, [], ◌∷◌, ◌++◌, arith, length, ◌%◌, ◌<◌, ap,
  subst, All,
}
use my_chat.Prelude.Int.{pos}
use my_chat.Password.{
  Bytes, Pbkdf2, delimiter, to_hex, from_hex, hex_digit, hex_bytes, hex_byte, hex_value,
  stored_text, derive, hash, verify,
}
use my_chat.Password.Verify.{AreBytes, DerivesKeys, verify-hash, verify-hash_more}

abbrev repeated : ℕ → ℕ → Bytes
repeated zero b = []
repeated (suc n) b = b ∷ repeated n b

abbrev by_size : Pbkdf2
by_size password size salt iter = some (repeated 32 (length password % 256))

length-repeated : (n b : ℕ) → length (repeated n b) ≡ n
length-repeated zero b = refl
length-repeated (suc n) b = ap suc (length-repeated n b)

repeated-All : (n b : ℕ) → b < 256 → All (λ c. c < 256) (repeated n b)
repeated-All zero b h = tt
repeated-All (suc n) b h = (h, repeated-All n b h)

by_size-DerivesKeys : DerivesKeys by_size
by_size-DerivesKeys password size salt iter key e =
    let b : ℕ = length password % 256 in
    let made : repeated 32 b ≡ key = ground (arith, e) in
    subst (AreBytes 32) made (length-repeated 32 b, repeated-All 32 b (omega arith))

abbrev salt : Bytes
salt = repeated 16 171

salt-AreBytes : AreBytes 16 salt
salt-AreBytes = (length-repeated 16 171, repeated-All 16 171 (omega arith))

abbrev secret : Bytes
secret = 115 ∷ 51 ∷ 99 ∷ []

abbrev guess : Bytes
guess = 48 ∷ 49 ∷ 50 ∷ 51 ∷ []

abbrev secret_text : Bytes
secret_text = stored_text 100000 salt (repeated 32 3)

secret-hash : hash by_size 100000 (some salt) secret ≡ some secret_text
unfolding hash derive
secret-hash = refl

guess-derive : ¬ (derive by_size guess salt (pos 100000) ≡ derive by_size secret salt (pos 100000))
unfolding derive
guess-derive = ground arith

hex_read_back : from_hex (to_hex (0 ∷ 171 ∷ 255 ∷ [])) 3 ≡ some (0 ∷ 171 ∷ 255 ∷ [])
unfolding from_hex hex_bytes hex_byte hex_value to_hex hex_digit
hex_read_back = refl

verify-hash_example :
    (verify by_size guess secret_text ≡ true)
    ↔ (derive by_size guess salt (pos 100000) ≡ derive by_size secret salt (pos 100000))
verify-hash_example =
    verify-hash by_size by_size-DerivesKeys 100000 salt (ground arith) salt-AreBytes secret
      secret_text secret-hash guess

verify-hash_more_example :
    (verify by_size guess (secret_text ++ delimiter ∷ []) ≡ verify by_size guess secret_text)
    × ((c : ℕ) (rest : Bytes) → verify by_size guess (secret_text ++ delimiter ∷ c ∷ rest) ≡ false)
verify-hash_more_example =
    verify-hash_more by_size by_size-DerivesKeys 100000 salt (ground arith) salt-AreBytes secret
      secret_text secret-hash guess
