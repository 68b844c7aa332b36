-- ===== src/Codec/Reference.antt =====
-- The check sum as a division by the polynomial 0xEDB88320, one bit at a time.
use Prim.Native.Nat.{bit_xor}
use native.Mathlib.Nat.{pow-suc}
use my_chat.Prelude.{
  ℕ, zero, suc, ◌+◌, ◌*◌, ◌/◌, ◌%◌, ◌^◌, ◌<◌, ◌≡◌, ◌∙◌, refl, sym, ap, Bool, true, ◌&&◌, List, [],
  ◌∷◌, ◌-◌, ltb, arith, nat_comparable, ◌==◌, ==_iff, if◌then◌else◌, Bool-cases, All, inl, inr,
}
use my_chat.Prelude.Bits.{zero-bit_xor, bit_xor-zero, bit_xor_half, bit_xor_parity, bit_xor_assoc}
use my_chat.Codec.Crc.{crc32_table, entry, crc_byte, crc_loop, calculate_crc32}

abbrev pub polynomial : ℕ
polynomial = 0xedb88320

unfoldable pub crc_bit : ℕ → ℕ
crc_bit x = if x % 2 == 1 then bit_xor (x / 2) polynomial else x / 2

unfoldable pub crc_bits : ℕ → ℕ → ℕ
crc_bits zero x = x
crc_bits (suc n) x = crc_bit (crc_bits n x)

-- One byte after another, eight bits each.
unfoldable pub crc_serial : ℕ → List ℕ → ℕ
crc_serial crc [] = crc
crc_serial crc (b ∷ bs) = crc_serial (crc_bits 8 (bit_xor crc b)) bs

unfoldable pub reference_crc32 : List ℕ → ℕ
reference_crc32 bytes = bit_xor (crc_serial 0xffffffff bytes) 0xffffffff

all_below : ℕ → (ℕ → Bool) → Bool
all_below zero p = true
all_below (suc n) p = p n && all_below n p

all_below_at : (n i : ℕ) (p : ℕ → Bool) → all_below n p ≡ true → i < n → p i ≡ true
unfolding all_below
all_below_at zero i p h lt = absurd (omega arith)
all_below_at (suc n) i p h lt = ground (arith, all_below_at n i p)

-- Every entry of the table is that of the polynomial.
tabulated : all_below 256 (λ i. entry i crc32_table == crc_bits 8 i) ≡ true
unfolding all_below crc_bits crc_bit
tabulated = refl

entry-crc_bits : (i : ℕ) → i < 256 → entry i crc32_table ≡ crc_bits 8 i
entry-crc_bits i small =
    (==_iff (entry i crc32_table) (crc_bits 8 i)).0
      (all_below_at 256 i (λ i. entry i crc32_table == crc_bits 8 i) tabulated small)

abbrev fold_bit : ℕ → ℕ → ℕ
fold_bit parity half = if parity == 1 then bit_xor half polynomial else half

fold_bit-bit_xor : (p q h : ℕ) → fold_bit p (bit_xor q h) ≡ bit_xor q (fold_bit p h)
fold_bit-bit_xor p q h = elim (Bool-cases (p == 1)) [
  | inl odd ↦ rw odd (bit_xor_assoc q h polynomial)
  | inr even ↦ rw even refl
]

-- The digits above the lowest do not mix with it.
crc_bit-bit_xor :
    (q c y : ℕ) → c < 2 → crc_bit (bit_xor (2 * q + c) y) ≡ bit_xor q (crc_bit (bit_xor c y))
unfolding crc_bit
crc_bit-bit_xor q c y small =
    let half : bit_xor (2 * q + c) y / 2 ≡ bit_xor q (bit_xor c y / 2) =
      cc (bit_xor_half (2 * q + c) y, quotient, bit_xor_half c y, nothing, zero-bit_xor (y / 2)) in
    let parity : bit_xor (2 * q + c) y % 2 ≡ bit_xor c y % 2 =
      cc (bit_xor_parity (2 * q + c) y, bit_xor_parity c y, remainder) in
    ap (λ p. fold_bit p (bit_xor (2 * q + c) y / 2)) parity
    ∙ ap (fold_bit (bit_xor c y % 2)) half
    ∙ fold_bit-bit_xor (bit_xor c y % 2) q (bit_xor c y / 2)
  where
    quotient : (2 * q + c) / 2 ≡ q
    quotient = omega arith

    nothing : c / 2 ≡ 0
    nothing = omega arith

    remainder : (2 * q + c) % 2 ≡ c % 2
    remainder = omega arith

top_digit :
    (n r : ℕ)
    → r < 2 ^ suc n
    → (c : ℕ) × (low : ℕ) × (c < 2) × (low < 2 ^ n) × (r ≡ c * 2 ^ n + low)
top_digit n r h = elim (Bool-cases (ltb r (2 ^ n))) [
  | inl below ↦ (0, r, omega arith, ground arith, omega arith)
  | inr above ↦
      (1, r - 2 ^ n, omega arith, ground (arith, pow-suc 2 n), ground (arith, pow-suc 2 n))
]

above_digit :
    (n q r c low : ℕ) → r ≡ c * 2 ^ n + low → q * 2 ^ suc n + r ≡ (2 * q + c) * 2 ^ n + low
above_digit n q r c low e = grind (arith, ap (λ (t : ℕ). q * t) (pow-suc 2 n))

pub crc_bits-bit_xor :
    (n q r : ℕ) → r < 2 ^ n → crc_bits n (q * 2 ^ n + r) ≡ bit_xor q (crc_bits n r)
unfolding crc_bits
crc_bits-bit_xor zero q zero h = cc (bit_xor-zero q, one q)
  where
    one : (m : ℕ) → m * 1 + 0 ≡ m
    one m = omega arith
crc_bits-bit_xor zero q (suc r) h = absurd (omega arith)
crc_bits-bit_xor (suc n) q r h =
    let (c, low, small, fits, e) = top_digit n r h in
    ap (λ x. crc_bit (crc_bits n x)) (above_digit n q r c low e)
    ∙ ap crc_bit (crc_bits-bit_xor n (2 * q + c) low fits)
    ∙ crc_bit-bit_xor q c (crc_bits n low) small
    ∙ ap (λ x. bit_xor q (crc_bit x)) (sym (crc_bits-bit_xor n c low fits))
    ∙ ap (λ x. bit_xor q (crc_bit (crc_bits n x))) (sym e)

quarter : (m : ℕ) → m / 2 / 2 ≡ m / 4
quarter m = omega arith

sixteenth : (m : ℕ) → m / 4 / 4 ≡ m / 16
sixteenth m = omega arith

byte : (m : ℕ) → m / 16 / 16 ≡ m / 256
byte m = omega arith

bit_xor-quarter : (a b : ℕ) → bit_xor a b / 4 ≡ bit_xor (a / 4) (b / 4)
bit_xor-quarter a b =
    cc (quarter (bit_xor a b), bit_xor_half a b, bit_xor_half (a / 2) (b / 2), quarter a, quarter b)

bit_xor-sixteenth : (a b : ℕ) → bit_xor a b / 16 ≡ bit_xor (a / 16) (b / 16)
bit_xor-sixteenth a b = cc (
  sixteenth (bit_xor a b),
  bit_xor-quarter a b,
  bit_xor-quarter (a / 4) (b / 4),
  sixteenth a,
  sixteenth b,
)

bit_xor-byte : (a b : ℕ) → bit_xor a b / 256 ≡ bit_xor (a / 256) (b / 256)
bit_xor-byte a b =
    cc (
      byte (bit_xor a b),
      bit_xor-sixteenth a b,
      bit_xor-sixteenth (a / 16) (b / 16),
      byte a,
      byte b,
    )

byte_quotient : (crc b : ℕ) → b < 256 → bit_xor crc b / 256 ≡ crc / 256
byte_quotient crc b small =
    bit_xor-byte crc b ∙ ap (bit_xor (crc / 256)) (nothing b small) ∙ bit_xor-zero (crc / 256)
  where
    nothing : (m : ℕ) → m < 256 → m / 256 ≡ 0
    nothing m h = omega arith

pub crc_byte-crc_bits : (crc b : ℕ) → b < 256 → crc_byte crc b ≡ crc_bits 8 (bit_xor crc b)
unfolding crc_byte
crc_byte-crc_bits crc b small =
    let x = bit_xor crc b in
    ap (λ e. bit_xor (crc / 256) e) (entry-crc_bits (x % 256) (omega arith))
    ∙ ap (λ q. bit_xor q (crc_bits 8 (x % 256))) (sym (byte_quotient crc b small))
    ∙ sym (crc_bits-bit_xor 8 (x / 256) (x % 256) (omega arith))
    ∙ ap (crc_bits 8) (omega arith)

crc_loop-crc_serial :
    (crc : ℕ) (bytes : List ℕ)
    → All (λ b. b < 256) bytes
    → crc_loop crc bytes ≡ crc_serial crc bytes
unfolding crc_loop crc_serial
crc_loop-crc_serial crc [] h = refl
crc_loop-crc_serial crc (b ∷ bs) h =
    crc_loop-crc_serial (crc_byte crc b) bs h.1
    ∙ ap (λ t. crc_serial t bs) (crc_byte-crc_bits crc b h.0)

-- The table-driven check sum of any bytes is the CRC-32 of the polynomial 0xEDB88320, bit by bit.
pub calculate_crc32-reference_crc32 :
    (bytes : List ℕ) → All (λ b. b < 256) bytes → calculate_crc32 bytes ≡ reference_crc32 bytes
unfolding calculate_crc32 reference_crc32
calculate_crc32-reference_crc32 bytes h =
    ap (λ t. bit_xor t 0xffffffff) (crc_loop-crc_serial 0xffffffff bytes h)
