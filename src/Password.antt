-- ===== src/Password.antt =====
-- services/user/password_hasher.cpp: a password as text, with its salt, and its verification.
-- Strings are lists of bytes. PKCS5_PBKDF2_HMAC with EVP_sha256 and 32 bytes of output is a
-- parameter (Pbkdf2), which gets the password, its size as an int, the salt and the iterations; the
-- bytes that RAND_bytes gives are an argument of hash. `none` is a failure of OpenSSL.
use my_chat.Prelude.{
  ℕ, zero, suc, ◌+◌, ◌-◌, ◌*◌, ◌/◌, ◌%◌, ◌^◌, Bool, true, false, not, ◌&&◌, ◌||◌, Option, none,
  some, List, [], ◌∷◌, ◌++◌, ltb, leb, ◌==◌, nat_comparable, bytes_comparable, if◌then◌else◌,
  length,
}
use my_chat.Prelude.Int.{ℤ, pos, negsuc, ltz}
pub mod Fields
pub mod Verify
pub mod Tests

abbrev pub Bytes : Type 0
Bytes = List ℕ

abbrev pub Pbkdf2 : Type 0
Pbkdf2 = Bytes → ℤ → Bytes → ℤ → Option Bytes

abbrev pub salt_length : ℕ
salt_length = 16

abbrev pub hash_length : ℕ
hash_length = 32

abbrev pub delimiter : ℕ
delimiter = 36

abbrev pub default_iterations : ℕ
default_iterations = 100000

-- "pbkdf2_sha256"
abbrev pub scheme : Bytes
scheme = 112 ∷ 98 ∷ 107 ∷ 100 ∷ 102 ∷ 50 ∷ 95 ∷ 115 ∷ 104 ∷ 97 ∷ 50 ∷ 53 ∷ 54 ∷ []

-- std::hex writes lower-case digits.
unfoldable pub hex_digit : ℕ → ℕ
hex_digit d = if ltb d 10 then 48 + d else 87 + d

unfoldable pub to_hex : Bytes → Bytes
to_hex [] = []
to_hex (b ∷ bs) = hex_digit (b / 16) ∷ hex_digit (b % 16) ∷ to_hex bs

abbrev between : ℕ → ℕ → ℕ → Bool
between low high c = leb low c && leb c high

-- std::isxdigit, with the value that strtol reads.
unfoldable pub hex_value : ℕ → Option ℕ
hex_value c =
    if between 48 57 c
    then some (c - 48)
    else if between 97 102 c
    then some (c - 87)
    else if between 65 70 c
    then some (c - 55)
    else none

-- The byte of a pair of digits.
unfoldable pub hex_byte : ℕ → ℕ → Option ℕ
hex_byte hi lo = elim (hex_value hi) [
  | none ↦ none
  | some h ↦ elim (hex_value lo) [ none ↦ none | some l ↦ some (h * 16 + l) ]
]

-- The loop of FromHex over a text of even length.
unfoldable pub hex_bytes : Bytes → Option Bytes
hex_bytes [] = some []
hex_bytes (hi ∷ []) = none
hex_bytes (hi ∷ lo ∷ hex) =
    let rest = hex_bytes hex in
    elim (hex_byte hi lo) [
      | none ↦ none
      | some b ↦ elim rest [ none ↦ none | some bs ↦ some (b ∷ bs) ]
    ]

unfoldable pub from_hex : Bytes → ℕ → Option Bytes
from_hex hex out_len = if not (length hex == out_len * 2) then none else hex_bytes hex

-- The digits of a number below 10 ^ fuel, as `<<` writes them. An int has at most ten.
unfoldable pub decimal : ℕ → ℕ → Bytes
decimal zero n = []
decimal (suc fuel) n =
    let front = decimal fuel (n / 10) in
    if ltb n 10 then (48 + n) ∷ [] else front ++ (48 + n % 10) ∷ []

-- std::getline on the rest of a stream: the part before the delimiter, which is consumed. It fails
-- when nothing is left.
unfoldable pub part_of : Bytes → Bytes × Bytes
part_of [] = ([], [])
part_of (c ∷ cs) =
    let rest = part_of cs in if c == delimiter then ([], cs) else (c ∷ rest.0, rest.1)

unfoldable pub getline : Bytes → Option (Bytes × Bytes)
getline [] = none
getline (c ∷ cs) = some (part_of (c ∷ cs))

-- std::strtol in base 10: the digits read so far, and where it stops.
unfoldable pub read_digits : ℕ → Bytes → ℕ × Bytes
read_digits n [] = (n, [])
read_digits n (c ∷ cs) =
    let rest = read_digits (n * 10 + (c - 48)) cs in if between 48 57 c then rest else (n, c ∷ cs)

-- std::isspace
abbrev is_space : ℕ → Bool
is_space c = (c == 32) || between 9 13 c

unfoldable pub skip_spaces : Bytes → Bytes
skip_spaces [] = []
skip_spaces (c ∷ cs) = let rest = skip_spaces cs in if is_space c then rest else c ∷ cs

-- A long keeps to its range: LONG_MAX, and LONG_MIN after a minus sign.
abbrev to_long : Bool → ℕ → ℤ
to_long minus n =
    if minus
    then if n == 0 then pos 0 else if ltb (2 ^ 63) n then negsuc (2 ^ 63 - 1) else negsuc (n - 1)
    else if ltb n (2 ^ 63)
    then pos n
    else pos (2 ^ 63 - 1)

-- The value of the digits behind the sign. Without any digit nothing is converted, and the end is
-- the start of the whole text.
unfoldable pub signed : Bool → Bytes → Bytes → ℤ × Bytes
signed minus text [] = (pos 0, text)
signed minus text (c ∷ cs) =
    let (n, rest) = read_digits 0 (c ∷ cs) in
    if between 48 57 c then (to_long minus n, rest) else (pos 0, text)

abbrev after_sign : Bytes → Bytes → ℤ × Bytes
after_sign text [] = (pos 0, text)
after_sign text (c ∷ cs) =
    if c == 45
    then signed true text cs
    else if c == 43
    then signed false text cs
    else signed false text (c ∷ cs)

unfoldable pub strtol : Bytes → ℤ × Bytes
strtol text = after_sign text (skip_spaces text)

-- static_cast<int> of the word with the low 32 bits n.
abbrev int_of_word : ℕ → ℤ
int_of_word n = if ltb n (2 ^ 31) then pos n else negsuc (2 ^ 32 - 1 - n)

unfoldable pub to_int : ℤ → ℤ
to_int (pos n) = int_of_word (n % 2 ^ 32)
to_int (negsuc n) = int_of_word (2 ^ 32 - 1 - n % 2 ^ 32)

-- The constructor of PasswordHasher.
unfoldable pub iterations : ℤ → ℕ
iterations (pos zero) = default_iterations
iterations (pos (suc n)) = suc n
iterations (negsuc n) = default_iterations

unfoldable pub stored_text : ℕ → Bytes → Bytes → Bytes
stored_text iter salt key =
    scheme ++ delimiter ∷ (decimal 10 iter ++ delimiter ∷ (to_hex salt ++ delimiter ∷ to_hex key))

unfoldable pub derive : Pbkdf2 → Bytes → Bytes → ℤ → Option Bytes
derive pbkdf2 password salt iter = pbkdf2 password (to_int (pos (length password))) salt iter

unfoldable pub hash : Pbkdf2 → ℕ → Option Bytes → Bytes → Option Bytes
hash pbkdf2 iter none password = none
hash pbkdf2 iter (some salt) password = elim (derive pbkdf2 password salt (pos iter)) [
  | none ↦ none
  | some key ↦ some (stored_text iter salt key)
]

-- The end of verify: the trailing text, and the comparison in constant time.
unfoldable pub verify_key : Pbkdf2 → Bytes → ℤ → Bytes → Bytes → Bytes → Bool
verify_key pbkdf2 password iter salt expected (c ∷ rest) = false
verify_key pbkdf2 password iter salt expected [] =
    elim (derive pbkdf2 password salt (to_int iter)) [
      | none ↦ false
      | some computed ↦ computed == expected
    ]

-- verify behind the scheme and the iterations.
unfoldable pub verify_salt : Pbkdf2 → Bytes → ℤ → Bytes → Bool
verify_salt pbkdf2 password iter text = elim (getline text) [
  | none ↦ false
  | some (salt_part, text₁) ↦ elim (from_hex salt_part salt_length) [
    | none ↦ false
    | some salt ↦ elim (getline text₁) [
      | none ↦ false
      | some (key_part, rest) ↦ elim (from_hex key_part hash_length) [
        | none ↦ false
        | some expected ↦ verify_key pbkdf2 password iter salt expected rest
      ]
    ]
  ]
]

-- verify behind the scheme.
unfoldable pub verify_iterations : Pbkdf2 → Bytes → Bytes → Bool
verify_iterations pbkdf2 password text = elim (getline text) [
  | none ↦ false
  | some (part, rest) ↦
      let (iter, end) = strtol part in
      if not (length end == 0) then false else verify_salt pbkdf2 password iter rest
]

unfoldable pub verify : Pbkdf2 → Bytes → Bytes → Bool
verify pbkdf2 password stored_hash = elim (getline stored_hash) [
  | none ↦ false
  | some (part, rest) ↦
      if not (part == scheme) then false else verify_iterations pbkdf2 password rest
]
