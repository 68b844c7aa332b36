-- ===== src/Codec/Detection.antt =====
-- The check sum tells frames apart that differ in one byte.
use Prim.Native.Nat.{bit_xor, differ}
use native.Mathlib.Nat.{pow-suc}
use my_chat.Prelude.{
  ℕ, zero, suc, ◌+◌, ◌-◌, ◌*◌, ◌/◌, ◌%◌, ◌^◌, ◌<◌, ◌≤◌, ◌≡◌, ◌≢◌, ◌∙◌, refl, sym, ap, true, false,
  [], ◌∷◌, ◌++◌, arith, nat_comparable, ◌==◌, ==_iff, ltb, if◌then◌else◌, Bool-cases, inl, inr,
  length, length-append, take-append, drop-append, All, err,
}
use my_chat.Prelude.Bits.{zero-bit_xor, bit_xor-zero, bit_xor_digit, bit_xor_assoc}
use my_chat.Codec.{Bytes, Protobuf, refused, word_bytes, word_of, checked, decode_envelope, decode}
use my_chat.Codec.Crc.{crc_byte, crc_loop, calculate_crc32}
use my_chat.Codec.Reference.{polynomial, crc_bit, crc_bits, crc_byte-crc_bits}
use my_chat.Codec.Word.{bit_xor_bound, crc_byte_bound, calculate_crc32_bound, word_of-word_bytes}

differ_self : (d : ℕ) → d < 2 → differ d d ≡ 0
differ_self zero h = refl
differ_self (suc zero) h = refl
differ_self (suc (suc d)) h = absurd (omega arith)

self_below : (k a : ℕ) → a < k → bit_xor a a ≡ 0
self_below zero a h = absurd (omega arith)
self_below (suc k) zero h = zero-bit_xor 0
self_below (suc k) (suc a) h = omega (
  arith,
  bit_xor_digit (suc a) (suc a),
  self_below k (suc a / 2) (omega arith),
  differ_self (suc a % 2) (omega arith),
)

bit_xor_self : (a : ℕ) → bit_xor a a ≡ 0
bit_xor_self a = self_below (suc a) a (omega arith)

bit_xor_undo : (a b : ℕ) → bit_xor (bit_xor a b) b ≡ a
bit_xor_undo a b = bit_xor_assoc a b b ∙ ap (bit_xor a) (bit_xor_self b) ∙ bit_xor-zero a

bit_xor_undo_left : (a b : ℕ) → bit_xor a (bit_xor a b) ≡ b
bit_xor_undo_left a b =
    sym (bit_xor_assoc a a b) ∙ ap (λ t. bit_xor t b) (bit_xor_self a) ∙ zero-bit_xor b

-- A digit above all the others stays on top.
top_kept : (n h r : ℕ) → h < 2 ^ n → r < 2 ^ n → bit_xor h (2 ^ n + r) ≡ 2 ^ n + bit_xor h r
top_kept zero zero zero p q = omega (arith, zero-bit_xor 1, zero-bit_xor 0)
top_kept zero zero (suc r) p q = absurd (omega arith)
top_kept zero (suc h) r p q = absurd (omega arith)
top_kept (suc n) h r p q =
    let half : (2 ^ suc n + r) / 2 ≡ 2 ^ n + r / 2 = omega (arith, pow-suc 2 n) in
    let parity : (2 ^ suc n + r) % 2 ≡ r % 2 = omega (arith, pow-suc 2 n) in
    let digit : bit_xor h (2 ^ suc n + r)
        ≡ bit_xor (h / 2) (2 ^ n + r / 2) * 2 + differ (h % 2) (r % 2) =
      bit_xor_digit h (2 ^ suc n + r)
      ∙ ap (λ t. bit_xor (h / 2) t * 2 + differ (h % 2) ((2 ^ suc n + r) % 2)) half
      ∙ ap (λ t. bit_xor (h / 2) (2 ^ n + r / 2) * 2 + differ (h % 2) t) parity in
    omega (
      arith,
      digit,
      bit_xor_digit h r,
      pow-suc 2 n,
      top_kept n (h / 2) (r / 2) (omega (arith, pow-suc 2 n)) (omega (arith, pow-suc 2 n)),
    )

-- One step back: the top digit of the result says whether the polynomial was added.
unfoldable back : ℕ → ℕ
back y = if ltb y (2 ^ 31) then 2 * y else 2 * bit_xor y polynomial + 1

polynomial_top : (h : ℕ) → h < 2 ^ 31 → 2 ^ 31 ≤ bit_xor h polynomial
polynomial_top h small = omega (arith, top_kept 31 h 0x6db88320 small (omega arith))

back-crc_bit : (x : ℕ) → x < 2 ^ 32 → back (crc_bit x) ≡ x
unfolding back crc_bit
back-crc_bit x small = elim (Bool-cases (x % 2 == 1)) [
  | inl odd ↦
      let large : ltb (bit_xor (x / 2) polynomial) (2 ^ 31) ≡ false =
        ground (arith, polynomial_top (x / 2) (omega arith)) in
      rw (odd, large, bit_xor_undo (x / 2) polynomial) (ground arith)
  | inr even ↦ let low : ltb (x / 2) (2 ^ 31) ≡ true = ground arith in rw (even, low) (ground arith)
]

crc_bit_bound : (x : ℕ) → x < 2 ^ 32 → crc_bit x < 2 ^ 32
unfolding crc_bit
crc_bit_bound x small = elim (Bool-cases (x % 2 == 1)) [
  | inl odd ↦ rw odd (bit_xor_bound 32 (x / 2) polynomial (omega arith) (omega arith))
  | inr even ↦ rw even (omega arith)
]

crc_bits_bound : (n x : ℕ) → x < 2 ^ 32 → crc_bits n x < 2 ^ 32
unfolding crc_bits
crc_bits_bound zero x small = small
crc_bits_bound (suc n) x small = crc_bit_bound (crc_bits n x) (crc_bits_bound n x small)

crc_bits_injective : (n x y : ℕ) → x < 2 ^ 32 → y < 2 ^ 32 → crc_bits n x ≡ crc_bits n y → x ≡ y
unfolding crc_bits
crc_bits_injective zero x y p q e = e
crc_bits_injective (suc n) x y p q e = crc_bits_injective n x y p q (
    sym (back-crc_bit (crc_bits n x) (crc_bits_bound n x p))
    ∙ ap back e
    ∙ back-crc_bit (crc_bits n y) (crc_bits_bound n y q))

crc_byte_injective :
    (c d a b : ℕ)
    → c < 2 ^ 32
    → d < 2 ^ 32
    → a < 256
    → b < 256
    → crc_byte c a ≡ crc_byte d b
    → bit_xor c a ≡ bit_xor d b
crc_byte_injective c d a b pc pd pa pb e =
    crc_bits_injective 8 (bit_xor c a) (bit_xor d b) (bit_xor_bound 32 c a pc (omega arith))
      (bit_xor_bound 32 d b pd (omega arith))
      (sym (crc_byte-crc_bits c a pa) ∙ e ∙ crc_byte-crc_bits d b pb)

crc_loop_injective :
    (c d : ℕ) (bs : Bytes)
    → c < 2 ^ 32
    → d < 2 ^ 32
    → All (λ b. b < 256) bs
    → crc_loop c bs ≡ crc_loop d bs
    → c ≡ d
unfolding crc_loop
crc_loop_injective c d [] pc pd h e = e
crc_loop_injective c d (b ∷ bs) pc pd h e =
    let same =
      crc_loop_injective (crc_byte c b) (crc_byte d b) bs (crc_byte_bound c b pc)
        (crc_byte_bound d b pd) h.1 e in
    let mixed = crc_byte_injective c d b b pc pd h.0 h.0 same in
    sym (bit_xor_undo c b) ∙ ap (λ t. bit_xor t b) mixed ∙ bit_xor_undo d b

crc_loop_changed :
    (c : ℕ) (xs ys : Bytes) (a b : ℕ)
    → c < 2 ^ 32
    → a < 256
    → b < 256
    → All (λ y. y < 256) ys
    → crc_loop c (xs ++ a ∷ ys) ≡ crc_loop c (xs ++ b ∷ ys)
    → a ≡ b
unfolding crc_loop
crc_loop_changed c [] ys a b pc pa pb h e =
    let same =
      crc_loop_injective (crc_byte c a) (crc_byte c b) ys (crc_byte_bound c a pc)
        (crc_byte_bound c b pc) h e in
    let mixed = crc_byte_injective c c a b pc pc pa pb same in
    sym (bit_xor_undo_left c a) ∙ ap (bit_xor c) mixed ∙ bit_xor_undo_left c b
crc_loop_changed c (x ∷ xs) ys a b pc pa pb h e =
    crc_loop_changed (crc_byte c x) xs ys a b (crc_byte_bound c x pc) pa pb h e

calculate_crc32_changed :
    (xs ys : Bytes) (a b : ℕ)
    → a < 256
    → b < 256
    → All (λ y. y < 256) ys
    → calculate_crc32 (xs ++ a ∷ ys) ≡ calculate_crc32 (xs ++ b ∷ ys)
    → a ≡ b
unfolding calculate_crc32
calculate_crc32_changed xs ys a b pa pb h e =
    crc_loop_changed 0xffffffff xs ys a b (omega arith) pa pb h (
      sym (bit_xor_undo (crc_loop 0xffffffff (xs ++ a ∷ ys)) 0xffffffff)
      ∙ ap (λ t. bit_xor t 0xffffffff) e
      ∙ bit_xor_undo (crc_loop 0xffffffff (xs ++ b ∷ ys)) 0xffffffff)

wrong_sum :
    (p : Protobuf) (bs w : Bytes)
    → length w ≡ 4
    → (word_of w == calculate_crc32 bs) ≡ false
    → checked p (bs ++ w) ≡ err refused
unfolding checked
wrong_sum p bs w four differs =
    let long : ltb (length (bs ++ w)) 4 ≡ false = ground (arith, length-append bs w) in
    let size : length (bs ++ w) - 4 ≡ length bs = omega (arith, length-append bs w) in
    rw (long, size, take-append bs w, drop-append bs w, differs) refl

-- A frame in which one byte before the check sum has changed on the way, whichever it is and
-- whatever the rest says, is refused by decodeEnvelope and by decode.
pub decode_envelope-one_byte :
    (p : Protobuf) (xs ys expected : Bytes) (a b : ℕ)
    → a < 256
    → b < 256
    → All (λ y. y < 256) ys
    → a ≢ b
    → let frame = (xs ++ b ∷ ys) ++ word_bytes (calculate_crc32 (xs ++ a ∷ ys)) in
      (decode_envelope p frame ≡ err refused) × (decode p expected frame ≡ err refused)
unfolding decode_envelope decode
decode_envelope-one_byte p xs ys expected a b pa pb h changed =
    let sent = calculate_crc32 (xs ++ a ∷ ys) in
    let differs : (word_of (word_bytes sent) == calculate_crc32 (xs ++ b ∷ ys)) ≡ false =
      elim (Bool-cases (word_of (word_bytes sent) == calculate_crc32 (xs ++ b ∷ ys))) [
        | inr e ↦ e
        | inl e ↦ absurd (
            changed (
              calculate_crc32_changed xs ys a b pa pb h (
                sym (word_of-word_bytes sent (calculate_crc32_bound (xs ++ a ∷ ys)))
                ∙ (==_iff (word_of (word_bytes sent)) (calculate_crc32 (xs ++ b ∷ ys))).0 e)))
      ] in
    let refusal = wrong_sum p (xs ++ b ∷ ys) (word_bytes sent) refl differs in
    (rw (decode_envelope, refusal) refl, rw (decode, refusal) refl)
