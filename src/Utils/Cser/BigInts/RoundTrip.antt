-- ===== src/Utils/Cser/BigInts/RoundTrip.antt =====
-- utils/cser/read_writer.go: big integers are read back.
use go_opera.Base.{ℕ, zero, suc, ◌+◌, ◌-◌, ◌/◌, ◌%◌, ◌^◌, ◌≤◌, ◌<◌, ◌≡◌, ◌≢◌, refl, arith, ap, ◌∙◌}
use go_opera.Base.{
  List, [], ◌∷◌, ◌++◌, replicate, true, false, inl, inr, Bool-cases, if◌then◌else◌, leb,
}
use go_opera.Base.{
  nat_beq, length, length-append, length-replicate, ℤ, pos, negsuc, pos_part, neg_part, ok,
}
use go_opera.Utils.Cser.{Writer, write_slice_bytes}
use go_opera.Utils.Cser.BigInts.{
  digits_fuel, be_bytes, set_bytes, padded_bytes, write_big_int, read_big_int,
}
use go_opera.Utils.Cser.Codec.{Coded, Coded-as, Coded-post}
use go_opera.Utils.Cser.Fields.{slice_bytes-Coded}
use native.Mathlib.Nat.{pow-suc}

set_bytes-digits_fuel :
    (fuel n : ℕ) (acc : List ℕ) → n ≤ fuel → set_bytes (digits_fuel fuel n acc) 0 ≡ set_bytes acc n
unfolding digits_fuel set_bytes
set_bytes-digits_fuel zero n acc h = ap (set_bytes acc) (omega arith)
set_bytes-digits_fuel (suc fuel) n acc h = elim (Bool-cases (nat_beq n 0)) [
  | inl none_left ↦ rw none_left (ap (set_bytes acc) (ground arith))
  | inr some_left ↦
      let positive : n ≢ 0 = ground arith in
      rw some_left (
        set_bytes-digits_fuel fuel (n / 256) ((n % 256) ∷ acc) (omega arith)
        ∙ ap (set_bytes acc) (omega arith))
]

length-digits_fuel :
    (fuel k n : ℕ) (acc : List ℕ) → n < 256 ^ k → length (digits_fuel fuel n acc) ≤ k + length acc
unfolding digits_fuel
length-digits_fuel zero k n acc h = omega arith
length-digits_fuel (suc fuel) zero n acc h =
    let none_left : nat_beq n 0 ≡ true = ground (arith, h) in rw none_left (omega arith)
length-digits_fuel (suc fuel) (suc k) n acc h = elim (Bool-cases (nat_beq n 0)) [
  | inl none_left ↦ rw none_left (omega arith)
  | inr some_left ↦ rw some_left (
      omega (
        arith,
        length-digits_fuel fuel k (n / 256) ((n % 256) ∷ acc) (omega (arith, pow-suc 256 k)),
      ))
]

pub set_bytes-be_bytes : (n : ℕ) → set_bytes (be_bytes n) 0 ≡ n
unfolding be_bytes set_bytes
set_bytes-be_bytes n = set_bytes-digits_fuel n n [] (omega arith)

pub length-be_bytes : (k n : ℕ) → n < 256 ^ k → length (be_bytes n) ≤ k
unfolding be_bytes
length-be_bytes k n h = omega (arith, length-digits_fuel n k n [] h)

set_bytes-replicate : (k : ℕ) (b : List ℕ) → set_bytes (replicate k 0 ++ b) 0 ≡ set_bytes b 0
unfolding set_bytes
set_bytes-replicate zero b = refl
set_bytes-replicate (suc k) b = set_bytes-replicate k b

pub set_bytes-padded_bytes : (b : List ℕ) (n : ℕ) → set_bytes (padded_bytes b n) 0 ≡ set_bytes b 0
unfolding padded_bytes
set_bytes-padded_bytes b n = elim (Bool-cases (leb n (length b))) [
  | inl long ↦ rw long refl
  | inr short ↦ rw short (set_bytes-replicate (n - length b) b)
]

pub length-padded_bytes : (b : List ℕ) (n : ℕ) → length b ≤ n → length (padded_bytes b n) ≡ n
unfolding padded_bytes
length-padded_bytes b n h = elim (Bool-cases (leb n (length b))) [
  | inl long ↦ let reached : n ≤ length b = ground arith in rw long (omega arith)
  | inr short ↦ rw short (
      omega (
        arith,
        length-append (replicate (n - length b) 0) b,
        length-replicate {A = ℕ} (n - length b) 0,
      ))
]

-- The bytes of no number at all are the number 0.
set_bytes-empty : (b : List ℕ) → (if nat_beq (length b) 0 then 0 else set_bytes b 0) ≡ set_bytes b 0
unfolding set_bytes
set_bytes-empty [] = refl
set_bytes-empty (x ∷ xs) =
    let longer : nat_beq (length (x ∷ xs)) 0 ≡ false = ground arith in rw longer refl

be_bytes-zero : (n : ℕ) → (if nat_beq n 0 then [] else be_bytes n) ≡ be_bytes n
unfolding be_bytes digits_fuel
be_bytes-zero zero = refl
be_bytes-zero (suc n) = let positive : nat_beq (suc n) 0 ≡ false = ground arith in rw positive refl

write_big_int_lem :
    (w : Writer) (n : ℕ) → write_big_int w (pos n) ≡ write_slice_bytes w (be_bytes n)
unfolding write_big_int
write_big_int_lem w n =
    let same : pos_part (pos n) + neg_part (pos n) ≡ n = omega arith in
    ap (λ t. write_slice_bytes w (if nat_beq t 0 then [] else be_bytes t)) same
    ∙ ap (write_slice_bytes w) (be_bytes-zero n)

-- A big integer that a reader takes: not negative, in at most 512 bytes.
unfoldable pub IsBigInt : ℤ → Type 0
IsBigInt (pos n) = n < 256 ^ 512
IsBigInt (negsuc n) = ⊥

pub big_int-Coded : (v : ℤ) → IsBigInt v → Coded (λ w. write_big_int w v) read_big_int v
unfolding read_big_int IsBigInt
big_int-Coded (pos n) h =
    let few = length-be_bytes 512 n h in
    Coded-as (λ w. write_big_int_lem w n) (λ r. refl)
      (Coded-post _ (slice_bytes-Coded (be_bytes n) 512 few (omega arith))
        (λ r. ap (λ t. ok (pos t, r)) (set_bytes-empty (be_bytes n) ∙ set_bytes-be_bytes n)))
big_int-Coded (negsuc n) h = elim h [ ]
