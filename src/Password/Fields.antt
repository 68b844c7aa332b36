-- ===== src/Password/Fields.antt =====
-- The fields of a stored hash in password_hasher.cpp: hexadecimal and decimal text, and getline.
use my_chat.Prelude.{
  ℕ, zero, suc, ◌+◌, ◌-◌, ◌*◌, ◌/◌, ◌%◌, ◌^◌, ◌<◌, ◌≤◌, ◌≡◌, ◌≢◌, ◌∙◌, refl, ap, some, [], ◌∷◌,
  ◌++◌, ltb, nat_comparable, length, All, arith, Bool-cases, inl, inr, All-append_one,
}
use my_chat.Prelude.Int.{pos}
use my_chat.Password.{
  Bytes, delimiter, hex_digit, to_hex, hex_value, hex_byte, hex_bytes, from_hex, decimal, part_of,
  getline, read_digits, skip_spaces, signed, strtol, to_int,
}

hex_value-hex_digit : (d : ℕ) → d < 16 → hex_value (hex_digit d) ≡ some d
unfolding hex_value hex_digit
hex_value-hex_digit d h = ground arith

length-to_hex : (bs : Bytes) → length (to_hex bs) ≡ length bs * 2
unfolding to_hex
length-to_hex [] = refl
length-to_hex (b ∷ bs) = omega (arith, length-to_hex bs)

hex_byte-hex_digit : (b : ℕ) → b < 256 → hex_byte (hex_digit (b / 16)) (hex_digit (b % 16)) ≡ some b
unfolding hex_byte
hex_byte-hex_digit b h =
    ground (
      arith,
      hex_value-hex_digit (b / 16) (omega arith),
      hex_value-hex_digit (b % 16) (omega arith),
    )

hex_bytes-to_hex : (bs : Bytes) → All (λ b. b < 256) bs → hex_bytes (to_hex bs) ≡ some bs
unfolding hex_bytes to_hex
hex_bytes-to_hex [] h = refl
hex_bytes-to_hex (b ∷ bs) h = ground (arith, hex_byte-hex_digit b h.0, hex_bytes-to_hex bs h.1)

-- FromHex reads back what ToHex writes for bytes of the expected number.
pub from_hex-to_hex :
    (bs : Bytes) (n : ℕ) → All (λ b. b < 256) bs → length bs ≡ n → from_hex (to_hex bs) n ≡ some bs
unfolding from_hex
from_hex-to_hex bs n h e = ground (arith, length-to_hex bs, hex_bytes-to_hex bs h)

abbrev IsDigit : ℕ → Type 0
IsDigit c = (48 ≤ c) × (c ≤ 57)

decimal-All : (fuel n : ℕ) → All IsDigit (decimal fuel n)
unfolding decimal
decimal-All zero n = tt
decimal-All (suc fuel) n = elim (Bool-cases (ltb n 10)) [
  | inl e ↦ rw e ((omega arith, ground arith), tt)
  | inr e ↦ rw e (
      All-append_one IsDigit (decimal fuel (n / 10)) (48 + n % 10) (omega arith, omega arith)
        (decimal-All fuel (n / 10)))
]

-- The number that digits read from the left stand for.
abbrev value : ℕ → Bytes → ℕ
value n [] = n
value n (c ∷ cs) = value (n * 10 + (c - 48)) cs

value-append : (n : ℕ) (xs : Bytes) (c : ℕ) → value n (xs ++ c ∷ []) ≡ value n xs * 10 + (c - 48)
value-append n [] c = refl
value-append n (x ∷ xs) c = value-append (n * 10 + (x - 48)) xs c

value-decimal : (fuel n : ℕ) → n < 10 ^ fuel → value 0 (decimal fuel n) ≡ n
unfolding decimal
value-decimal zero n h = omega arith
value-decimal (suc fuel) n h = elim (Bool-cases (ltb n 10)) [
  | inl e ↦ rw e (omega arith)
  | inr e ↦ rw e (
      value-append 0 (decimal fuel (n / 10)) (48 + n % 10)
      ∙ omega (arith, value-decimal fuel (n / 10) (omega arith)))
]

read_digits-value : (n : ℕ) (cs : Bytes) → All IsDigit cs → read_digits n cs ≡ (value n cs, [])
unfolding read_digits
read_digits-value n [] h = refl
read_digits-value n (c ∷ cs) h = ground (arith, read_digits-value (n * 10 + (c - 48)) cs h.1)

strtol-value :
    (cs : Bytes) → All IsDigit cs → value 0 cs < 2 ^ 63 → strtol cs ≡ (pos (value 0 cs), [])
unfolding strtol signed skip_spaces
strtol-value [] h small = refl
strtol-value (c ∷ cs) h small = ground (arith, read_digits-value 0 (c ∷ cs) h)

-- The iterations of a hash are read back as they were written.
pub strtol-decimal : (n : ℕ) → n < 2 ^ 31 → strtol (decimal 10 n) ≡ (pos n, [])
strtol-decimal n h =
    let e = value-decimal 10 n (omega arith) in
    strtol-value (decimal 10 n) (decimal-All 10 n) (omega (arith, e)) ∙ ap (λ k. (pos k, [])) e

-- An int keeps its value.
pub to_int_pos : (n : ℕ) → n < 2 ^ 31 → to_int (pos n) ≡ pos n
unfolding to_int
to_int_pos n h = ground arith

abbrev pub NoDelimiter : Bytes → Type 0
NoDelimiter = All (λ c. c ≢ delimiter)

part_of-append : (xs ys : Bytes) → NoDelimiter xs → part_of (xs ++ delimiter ∷ ys) ≡ (xs, ys)
unfolding part_of
part_of-append [] ys h = refl
part_of-append (x ∷ xs) ys h = ground (arith, part_of-append xs ys h.1)

pub getline-append :
    (xs ys : Bytes) → NoDelimiter xs → getline (xs ++ delimiter ∷ ys) ≡ some (xs, ys)
unfolding getline
getline-append [] ys h = ap some (part_of-append [] ys h)
getline-append (x ∷ xs) ys h = ap some (part_of-append (x ∷ xs) ys h)

part_of_last : (xs : Bytes) → NoDelimiter xs → part_of xs ≡ (xs, [])
unfolding part_of
part_of_last [] h = refl
part_of_last (x ∷ xs) h = ground (arith, part_of_last xs h.1)

pub getline_last : (xs : Bytes) → xs ≢ [] → NoDelimiter xs → getline xs ≡ some (xs, [])
unfolding getline
getline_last [] n h = absurd (n refl)
getline_last (x ∷ xs) n h = ap some (part_of_last (x ∷ xs) h)

NoDelimiter-digits : (cs : Bytes) → All IsDigit cs → NoDelimiter cs
NoDelimiter-digits [] h = tt
NoDelimiter-digits (c ∷ cs) h = ((λ e. omega arith), NoDelimiter-digits cs h.1)

pub decimal-NoDelimiter : (n : ℕ) → NoDelimiter (decimal 10 n)
decimal-NoDelimiter n = NoDelimiter-digits (decimal 10 n) (decimal-All 10 n)

hex_digit-delimiter : (d : ℕ) → hex_digit d ≢ delimiter
unfolding hex_digit
hex_digit-delimiter d = ground arith

pub to_hex-NoDelimiter : (bs : Bytes) → NoDelimiter (to_hex bs)
unfolding to_hex
to_hex-NoDelimiter [] = tt
to_hex-NoDelimiter (b ∷ bs) =
    (hex_digit-delimiter (b / 16), (hex_digit-delimiter (b % 16), to_hex-NoDelimiter bs))

pub to_hex_nonempty : (bs : Bytes) (n : ℕ) → length bs ≡ suc n → to_hex bs ≢ []
unfolding to_hex
to_hex_nonempty [] n e = absurd (omega arith)
to_hex_nonempty (b ∷ bs) n e = λ h. cc
