-- ===== src/Base/Words.antt =====
-- `ULONG` arithmetic: 32-bit words as native numbers that wrap. `-` on ℕ stops at 0, so a
-- subtraction adds the modulus first.
use Prim.Native.Nat.{ℕ, ◌+◌, ◌-◌, ◌*◌, ◌/◌, ◌%◌, ◌^◌, ◌≤◌, ◌<◌}
use native.Mathlib.Nat.{mul-le-mul_right, mod-add-div'}
use native.Mathlib.Omega.{arith}
use mathlib.Core.Path.{◌≡◌}
use mathlib.Core.Logic.{◌≢◌, ◌⊎◌, inl, inr}
use mathlib.Core.Bool.{Bool}
use arcpi.Base.Tests.{ltb}

abbrev pub word : ℕ
word = 2 ^ 32

abbrev pub add32 : ℕ → ℕ → ℕ
add32 a b = (a + b) % word

abbrev pub sub32 : ℕ → ℕ → ℕ
sub32 a b = (a + word - b) % word

abbrev pub mul32 : ℕ → ℕ → ℕ
mul32 a b = (a * b) % word

-- The sign of the `LONG` with this bit pattern.
abbrev pub is_nonneg32 : ℕ → Bool
is_nonneg32 a = ltb a (2 ^ 31)

-- A truncation to `USHORT`.
abbrev pub ushort : ℕ → ℕ
ushort a = a % 2 ^ 16

abbrev pub page_shift : ℕ
page_shift = 12

-- `x << PAGE_SHIFT` and `x >> PAGE_SHIFT`.
abbrev pub page_to_addr : ℕ → ℕ
page_to_addr p = (p * 2 ^ page_shift) % word

abbrev pub addr_to_page : ℕ → ℕ
addr_to_page a = a / 2 ^ page_shift

abbrev pub sector_size : ℕ
sector_size = 512

trichotomy : (k i : ℕ) → (k ≡ i) ⊎ ((k < i) ⊎ (i < k))
trichotomy k i = omega arith

pub mul_step : (k i n : ℕ) → k < i → k * n + n ≤ i * n
mul_step k i n h = omega (arith, mul-le-mul_right n h)

pub mul_order : (k i n : ℕ) → (k ≡ i) ⊎ ((k ≢ i) × ((k * n + n ≤ i * n) ⊎ (i * n + n ≤ k * n)))
mul_order k i n = elim (trichotomy k i) [
  | inl e ↦ inl e
  | inr (inl lt) ↦ inr (omega arith, inl (mul_step k i n lt))
  | inr (inr gt) ↦ inr (omega arith, inr (mul_step i k n gt))
]

pub same_product : (k i n : ℕ) → k ≡ i → k * n ≡ i * n
same_product k i n e t = e t * n

-- Numbers less than `n` apart differ modulo `n`.
pub mod_apart : (x y n : ℕ) → x < y → y < x + n → x % n ≢ y % n
mod_apart x y n lt near e = elim (mul_order (x / n) (y / n) n) [
  | inl same ↦
      omega (arith, mod-add-div' x n, mod-add-div' y n, same_product (x / n) (y / n) n same)
  | inr (ne, inl le) ↦ omega (arith, mod-add-div' x n, mod-add-div' y n)
  | inr (ne, inr le) ↦ omega (arith, mod-add-div' x n, mod-add-div' y n)
]
