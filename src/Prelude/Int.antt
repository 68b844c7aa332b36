-- ===== src/Prelude/Int.antt =====
-- `int64_t` values as integers. Times are only compared, so no wrap-around occurs in them.
use Prim.Native.Nat.{ℕ}
use mathlib.Core.Bool.{Bool, true, false}
use mathlib.Core.Path.{◌≡◌, refl}
use native.Mathlib.Omega.{arith}
use my_chat.Prelude.Tests.{ltb, if◌then◌else◌}

-- `negsuc n` is -(n + 1).
pub data ℤ : Type 0 where
  pos : ℕ → ℤ
  negsuc : ℕ → ℤ

abbrev pub ltz : ℤ → ℤ → Bool
ltz (pos m) (pos n) = ltb m n
ltz (pos m) (negsuc n) = false
ltz (negsuc m) (pos n) = true
ltz (negsuc m) (negsuc n) = ltb n m

-- `t > 0 ? t : fallback`
abbrev pub positive_or : ℤ → ℤ → ℤ
positive_or t fallback = if ltz (pos 0) t then t else fallback

pub ltz_asym : (s t : ℤ) → ltz s t ≡ true → ltz t s ≡ false
ltz_asym (pos m) (pos n) h = ground arith
ltz_asym (pos m) (negsuc n) h = cc
ltz_asym (negsuc m) (pos n) h = refl
ltz_asym (negsuc m) (negsuc n) h = ground arith

pub ltz_trans : (r s t : ℤ) → ltz s r ≡ false → ltz t s ≡ false → ltz t r ≡ false
ltz_trans (pos k) (pos m) (pos n) h g = ground arith
ltz_trans (pos k) (pos m) (negsuc n) h g = cc
ltz_trans (pos k) (negsuc m) t h g = cc
ltz_trans (negsuc k) (pos m) (pos n) h g = refl
ltz_trans (negsuc k) (pos m) (negsuc n) h g = cc
ltz_trans (negsuc k) (negsuc m) (pos n) h g = refl
ltz_trans (negsuc k) (negsuc m) (negsuc n) h g = ground arith

pub ltz_irrefl : (t : ℤ) → ltz t t ≡ false
ltz_irrefl (pos n) = ground arith
ltz_irrefl (negsuc n) = ground arith
