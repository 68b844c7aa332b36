-- ===== src/Prelude/Bits.antt =====
-- Exclusive or of the binary digits, one digit at a time.
use Prim.Native.Nat.{differ, digits, bit_xor, bit_xor-bitwise}
use Prim.Native.Nat.{ℕ, zero, suc, ◌+◌, ◌*◌, ◌/◌, ◌%◌, ◌<◌, ◌≤◌}
use mathlib.Core.Path.{◌≡◌, refl}
use native.Mathlib.Nat.{le_refl}
use native.Mathlib.Omega.{arith}

-- Digits, by their parity.
pub differ_bound : (m n : ℕ) → m < 2 → n < 2 → differ m n < 2
differ_bound zero n p q = q
differ_bound (suc zero) zero p q = omega arith
differ_bound (suc zero) (suc n) p q = omega arith
differ_bound (suc (suc m)) n p q = absurd (omega arith)

differ_assoc : (k m n : ℕ) → k < 2 → m < 2 → n < 2 → differ (differ k m) n ≡ differ k (differ m n)
differ_assoc zero m n p q r = refl
differ_assoc (suc zero) zero n p q r = refl
differ_assoc (suc zero) (suc zero) zero p q r = refl
differ_assoc (suc zero) (suc zero) (suc zero) p q r = refl
differ_assoc (suc zero) (suc zero) (suc (suc n)) p q r = absurd (omega arith)
differ_assoc (suc zero) (suc (suc m)) n p q r = absurd (omega arith)
differ_assoc (suc (suc k)) m n p q r = absurd (omega arith)

differ-zero : (m : ℕ) → differ m 0 ≡ m
differ-zero zero = refl
differ-zero (suc m) = refl

-- More fuel than digits changes nothing.
fuel_irrelevant :
    (n m a b : ℕ) → a ≤ n → a ≤ m → digits (λ y. y) differ n a b ≡ digits (λ y. y) differ m a b
fuel_irrelevant zero zero a b p q = refl
fuel_irrelevant zero (suc m) zero b p q = refl
fuel_irrelevant zero (suc m) (suc a) b p q = absurd (omega arith)
fuel_irrelevant (suc n) zero zero b p q = refl
fuel_irrelevant (suc n) zero (suc a) b p q = absurd (omega arith)
fuel_irrelevant (suc n) (suc m) zero b p q = refl
fuel_irrelevant (suc n) (suc m) (suc a) b p q =
    rw (fuel_irrelevant n m (suc a / 2) (b / 2) (omega arith) (omega arith))

pub bit_xor_digit : (a b : ℕ) → bit_xor a b ≡ bit_xor (a / 2) (b / 2) * 2 + differ (a % 2) (b % 2)
bit_xor_digit zero b = simp bit_xor-bitwise (omega arith)
bit_xor_digit (suc a) b =
    simp bit_xor-bitwise
      (omega (arith, fuel_irrelevant a (suc a / 2) (suc a / 2) (b / 2) (omega arith) (le_refl _)))

pub bit_xor_half : (a b : ℕ) → bit_xor a b / 2 ≡ bit_xor (a / 2) (b / 2)
bit_xor_half a b =
    omega (arith, bit_xor_digit a b, differ_bound (a % 2) (b % 2) (omega arith) (omega arith))

pub bit_xor_parity : (a b : ℕ) → bit_xor a b % 2 ≡ differ (a % 2) (b % 2)
bit_xor_parity a b =
    omega (arith, bit_xor_digit a b, differ_bound (a % 2) (b % 2) (omega arith) (omega arith))

pub zero-bit_xor : (b : ℕ) → bit_xor 0 b ≡ b
zero-bit_xor b = simp bit_xor-bitwise refl

bit_xor-zero_below : (k a : ℕ) → a < k → bit_xor a 0 ≡ a
bit_xor-zero_below zero a h = absurd (omega arith)
bit_xor-zero_below (suc k) zero h = zero-bit_xor 0
bit_xor-zero_below (suc k) (suc a) h = omega (
  arith,
  bit_xor_digit (suc a) 0,
  bit_xor-zero_below k (suc a / 2) (omega arith),
  differ-zero (suc a % 2),
)

pub bit_xor-zero : (a : ℕ) → bit_xor a 0 ≡ a
bit_xor-zero a = bit_xor-zero_below (suc a) a (omega arith)

assoc_below : (k a b c : ℕ) → a < k → bit_xor (bit_xor a b) c ≡ bit_xor a (bit_xor b c)
assoc_below zero a b c h = absurd (omega arith)
assoc_below (suc k) zero b c h = rw (zero-bit_xor b, zero-bit_xor (bit_xor b c)) refl
assoc_below (suc k) (suc a) b c h = cc (
  bit_xor_digit (bit_xor (suc a) b) c,
  bit_xor_half (suc a) b,
  bit_xor_parity (suc a) b,
  assoc_below k (suc a / 2) (b / 2) (c / 2) (omega arith),
  differ_assoc (suc a % 2) (b % 2) (c % 2) (omega arith) (omega arith) (omega arith),
  bit_xor_digit (suc a) (bit_xor b c),
  bit_xor_half b c,
  bit_xor_parity b c,
)

pub bit_xor_assoc : (a b c : ℕ) → bit_xor (bit_xor a b) c ≡ bit_xor a (bit_xor b c)
bit_xor_assoc a b c = assoc_below (suc a) a b c (omega arith)
