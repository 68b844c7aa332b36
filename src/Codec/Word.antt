-- ===== src/Codec/Word.antt =====
-- The check sum is a `uint32_t`, and survives its four bytes.
use Prim.Native.Nat.{bit_xor}
use native.Mathlib.Nat.{pow-suc}
use my_chat.Prelude.{
  ℕ, zero, suc, ◌/◌, ◌%◌, ◌^◌, ◌<◌, ◌≡◌, refl, Bool, true, ◌&&◌, List, [], ◌∷◌, ltb, arith,
}
use my_chat.Prelude.Bits.{zero-bit_xor, bit_xor_digit, differ_bound}
use my_chat.Codec.{Bytes, word_bytes, word_of}
use my_chat.Codec.Crc.{crc32_table, entry, crc_byte, crc_loop, calculate_crc32}

pub bit_xor_bound : (n a b : ℕ) → a < 2 ^ n → b < 2 ^ n → bit_xor a b < 2 ^ n
bit_xor_bound zero zero zero p q = omega (arith, zero-bit_xor 0)
bit_xor_bound zero zero (suc b) p q = absurd (omega arith)
bit_xor_bound zero (suc a) b p q = absurd (omega arith)
bit_xor_bound (suc n) a b p q = omega (
  arith,
  bit_xor_digit a b,
  pow-suc 2 n,
  differ_bound (a % 2) (b % 2) (omega arith) (omega arith),
  bit_xor_bound n (a / 2) (b / 2) (omega (arith, pow-suc 2 n)) (omega (arith, pow-suc 2 n)),
)

all_words : List ℕ → Bool
all_words [] = true
all_words (x ∷ xs) = ltb x (2 ^ 32) && all_words xs

table_words : all_words crc32_table ≡ true
unfolding all_words
table_words = refl

entry_bound : (i : ℕ) (xs : List ℕ) → all_words xs ≡ true → entry i xs < 2 ^ 32
unfolding all_words
entry_bound i [] h = omega arith
entry_bound zero (x ∷ xs) h = ground arith
entry_bound (suc i) (x ∷ xs) h = ground (arith, entry_bound i xs)

pub crc_byte_bound : (crc b : ℕ) → crc < 2 ^ 32 → crc_byte crc b < 2 ^ 32
unfolding crc_byte
crc_byte_bound crc b h =
    bit_xor_bound 32 (crc / 256) (entry (bit_xor crc b % 256) crc32_table) (omega arith)
      (entry_bound (bit_xor crc b % 256) crc32_table table_words)

pub crc_loop_bound : (crc : ℕ) (bs : Bytes) → crc < 2 ^ 32 → crc_loop crc bs < 2 ^ 32
unfolding crc_loop
crc_loop_bound crc [] h = h
crc_loop_bound crc (b ∷ bs) h = crc_loop_bound (crc_byte crc b) bs (crc_byte_bound crc b h)

pub calculate_crc32_bound : (bs : Bytes) → calculate_crc32 bs < 2 ^ 32
unfolding calculate_crc32
calculate_crc32_bound bs =
    bit_xor_bound 32 (crc_loop 0xffffffff bs) 0xffffffff
      (crc_loop_bound 0xffffffff bs (omega arith)) (omega arith)

pub word_of-word_bytes : (w : ℕ) → w < 2 ^ 32 → word_of (word_bytes w) ≡ w
word_of-word_bytes w h = omega arith
