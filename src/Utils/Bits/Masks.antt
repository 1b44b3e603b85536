-- ===== src/Utils/Bits/Masks.antt =====
-- Masks and shifts in plain arithmetic: `x & ones` is a remainder, and `|` of numbers with no
-- common digit is a sum.
use go_opera.Base.{
  ℕ, zero, suc, ◌+◌, ◌-◌, ◌*◌, ◌/◌, ◌%◌, ◌^◌, ◌≤◌, ◌<◌, ◌≡◌, refl, sym, arith, ap, ◌∙◌,
}
use Prim.Native.Nat.{bit_and, bit_or, bit_and-bitwise, bit_or-bitwise, digits, min, max}
use native.Mathlib.Nat.{pow-suc, pow-succ', one-le-pow, div-div-eq-div-mul, mod-add-div, mul_assoc}

module _ (last : ℕ → ℕ) (join : ℕ → ℕ → ℕ) where
  digits-zero : (k y : ℕ) → digits last join k 0 y ≡ last y
  digits-zero zero y = refl
  digits-zero (suc k) y = refl

  -- As fuel, all numbers from `x` on give the same.
  digits_same : (x k l y : ℕ) → x ≤ k → x ≤ l → digits last join k x y ≡ digits last join l x y
  digits_same zero k l y hk hl = digits-zero k y ∙ sym (digits-zero l y)
  digits_same (suc x) zero l y hk hl = absurd (omega arith)
  digits_same (suc x) (suc k) zero y hk hl = absurd (omega arith)
  digits_same (suc x) (suc k) (suc l) y hk hl =
      ap (λ t. t * 2 + join (suc x % 2) (y % 2))
        (digits_same (suc x / 2) k l (y / 2) (omega arith) (omega arith))

pub bit_and-halves : (x y : ℕ) → bit_and x y ≡ bit_and (x / 2) (y / 2) * 2 + min (x % 2) (y % 2)
bit_and-halves zero y = rw (bit_and-bitwise 0 y, bit_and-bitwise 0 (y / 2)) (omega arith)
bit_and-halves (suc x) y = omega (
  arith,
  bit_and-bitwise (suc x) y,
  bit_and-bitwise (suc x / 2) (y / 2),
  digits_same (λ b. 0) min (suc x / 2) x (suc x / 2) (y / 2),
)

pub bit_or-halves : (x y : ℕ) → bit_or x y ≡ bit_or (x / 2) (y / 2) * 2 + max (x % 2) (y % 2)
bit_or-halves zero y = rw (bit_or-bitwise 0 y, bit_or-bitwise 0 (y / 2)) (omega arith)
bit_or-halves (suc x) y = omega (
  arith,
  bit_or-bitwise (suc x) y,
  bit_or-bitwise (suc x / 2) (y / 2),
  digits_same (λ b. b) max (suc x / 2) x (suc x / 2) (y / 2),
)

zero-bit_or : (y : ℕ) → bit_or 0 y ≡ y
zero-bit_or y = bit_or-bitwise 0 y

-- A shifted number on top of one of `k` digits.
pub bit_or_shifted : (k low high : ℕ) → low < 2 ^ k → bit_or low (high * 2 ^ k) ≡ low + high * 2 ^ k
bit_or_shifted zero low high h = ground (arith, zero-bit_or high)
bit_or_shifted (suc k) low high h =
    let twice = ap (λ (t : ℕ). high * t) (pow-suc 2 k) in
    ground (
      arith,
      twice,
      bit_or-halves low (high * 2 ^ suc k),
      bit_or_shifted k (low / 2) high (omega (arith, pow-suc 2 k)),
    )

bit_and_nothing : (k x : ℕ) → x ≤ k → bit_and x 0 ≡ 0
bit_and_nothing k zero h = bit_and-bitwise 0 0
bit_and_nothing zero (suc x) h = absurd (omega arith)
bit_and_nothing (suc k) (suc x) h =
    omega (arith, bit_and-halves (suc x) 0, bit_and_nothing k (suc x / 2) (omega arith))

pub div_two_pow : (k x : ℕ) → x / 2 ^ suc k ≡ x / 2 / 2 ^ k
div_two_pow k x = rw (div-div-eq-div-mul, pow-succ') refl

pub mod_two_pow : (k x : ℕ) → x % 2 ^ suc k ≡ x / 2 % 2 ^ k * 2 + x % 2
mod_two_pow k x =
    let high : ℕ = x / 2 / 2 ^ k in
    omega (
      arith,
      mod-add-div x (2 ^ suc k),
      mod-add-div (x / 2) (2 ^ k),
      ap (λ t. 2 ^ suc k * t) (div_two_pow k x),
      ap (λ t. t * high) (pow-suc 2 k),
      mul_assoc 2 (2 ^ k) high,
    )

-- `x & (2 ^ k - 1)`
pub bit_and_ones : (k x : ℕ) → bit_and x (2 ^ k - 1) ≡ x % 2 ^ k
bit_and_ones zero x = omega (arith, bit_and_nothing x x (omega arith))
bit_and_ones (suc k) x = ground (
  arith,
  pow-suc 2 k,
  one-le-pow k 2,
  bit_and-halves x (2 ^ suc k - 1),
  bit_and_ones k (x / 2),
  mod_two_pow k x,
)
