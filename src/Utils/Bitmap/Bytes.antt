-- ===== src/Utils/Bitmap/Bytes.antt =====
-- Facts about single bits of a byte, as tables checked by evaluation.
use go_opera.Base.{ℕ, zero, suc, ◌-◌, ◌^◌, ◌<◌, ◌≡◌, refl, Bool, true, false, ◌&&◌, ◌||◌}
use go_opera.Base.{arith, nat_beq, nat_bne, ltb, if◌then◌else◌, Bool-cases, inl, inr}
use Prim.Native.Nat.{bit_and, bit_or}

unfoldable pub tested : ℕ → (ℕ → Bool) → Bool
tested zero test = true
tested (suc k) test = if test k then tested k test else false

pub tested_lem : (k : ℕ) (test : ℕ → Bool) → tested k test ≡ true → (i : ℕ) → i < k → test i ≡ true
unfolding tested
tested_lem zero test all_true i below = absurd (omega arith)
tested_lem (suc k) test all_true i below = elim (Bool-cases (test k)) [
  | inl last ↦ ground (arith, last, tested_lem k test (ground arith) i)
  | inr bad ↦ absurd (ground arith)
]

abbrev bit_at : ℕ → ℕ → Bool
bit_at y k = nat_bne (bit_and y (2 ^ k)) 0

abbrev same : Bool → Bool → Bool
same true b = b
same false true = false
same false false = true

put_test : ℕ → ℕ → ℕ → Bool
put_test y k j = same (bit_at (bit_or y (2 ^ k)) j) (nat_beq k j || bit_at y j)

del_test : ℕ → ℕ → ℕ → Bool
del_test y k j =
    same (bit_at (bit_and y (255 - 2 ^ k)) j) (if nat_beq k j then false else bit_at y j)

range_test : ℕ → ℕ → Bool
range_test y k = ltb (bit_or y (2 ^ k)) 256 && ltb (bit_and y (255 - 2 ^ k)) 256

abbrev put_table : Bool
put_table = tested 256 (λ y. tested 8 (λ k. tested 8 (put_test y k)))

put_table-true : put_table ≡ true
unfolding tested put_test
put_table-true = refl

del_table_true : tested 256 (λ y. tested 8 (λ k. tested 8 (del_test y k))) ≡ true
unfolding tested del_test
del_table_true = refl

range_table_true : tested 256 (λ y. tested 8 (range_test y)) ≡ true
unfolding tested range_test
range_table_true = refl

same→eq : (a b : Bool) → same a b ≡ true → a ≡ b
same→eq a b h = ground arith

-- Setting bit `k` changes that bit only.
pub bit_or_bit :
    (y k j : ℕ)
    → y < 256
    → k < 8
    → j < 8
    → nat_bne (bit_and (bit_or y (2 ^ k)) (2 ^ j)) 0
      ≡ (nat_beq k j || nat_bne (bit_and y (2 ^ j)) 0)
unfolding put_test
bit_or_bit y k j hy hk hj = same→eq _ _ (
    tested_lem 8 (put_test y k)
      (tested_lem 8 (λ k. tested 8 (put_test y k))
        (tested_lem 256 (λ y. tested 8 (λ k. tested 8 (put_test y k))) put_table-true y hy) k hk)
      j hj)

-- Clearing bit `k` changes that bit only.
pub bit_and_bit :
    (y k j : ℕ)
    → y < 256
    → k < 8
    → j < 8
    → nat_bne (bit_and (bit_and y (255 - 2 ^ k)) (2 ^ j)) 0
      ≡ (if nat_beq k j then false else nat_bne (bit_and y (2 ^ j)) 0)
unfolding del_test
bit_and_bit y k j hy hk hj = same→eq _ _ (
    tested_lem 8 (del_test y k)
      (tested_lem 8 (λ k. tested 8 (del_test y k))
        (tested_lem 256 (λ y. tested 8 (λ k. tested 8 (del_test y k))) del_table_true y hy) k hk)
      j hj)

and_range :
    (y k : ℕ) → range_test y k ≡ true → (bit_or y (2 ^ k) < 256) × (bit_and y (255 - 2 ^ k) < 256)
unfolding range_test
and_range y k h = ground arith

pub bits_in_range :
    (y k : ℕ) → y < 256 → k < 8 → (bit_or y (2 ^ k) < 256) × (bit_and y (255 - 2 ^ k) < 256)
bits_in_range y k hy hk = and_range y k (
    tested_lem 8 (range_test y)
      (tested_lem 256 (λ y. tested 8 (range_test y)) range_table_true y hy) k hk)

-- A zero byte has no bits.
zero_table : tested 8 (λ j. nat_beq (bit_and 0 (2 ^ j)) 0) ≡ true
unfolding tested
zero_table = refl

pub zero_bit : (j : ℕ) → j < 8 → nat_bne (bit_and 0 (2 ^ j)) 0 ≡ false
zero_bit j h = ground (arith, tested_lem 8 (λ j. nat_beq (bit_and 0 (2 ^ j)) 0) zero_table j h)
