-- ===== src/Utils/Bits/Stream.antt =====
-- A bit array as the sequence of its bits, the lowest bit of each byte first.
use go_opera.Base.{ℕ, zero, suc, ◌+◌, ◌*◌, ◌/◌, ◌%◌, ◌^◌, ◌<◌, ◌≡◌, refl, sym, arith, ap, ◌∙◌}
use go_opera.Base.{List, [], ◌∷◌, ◌++◌, Bool, nat_bne, length}
use go_opera.Utils.Bits.Masks.{div_two_pow, mod_two_pow}
use mathlib.Core.List.{append-nil, append_assoc, head-eq_of_cons-eq, tail-eq_of_cons-eq}
use mathlib.Core.Path.{ap₂}
use native.Mathlib.Nat.{
  pow-suc, mul_assoc, one-le-pow, add-mul-div_right, div-lt_iff_lt-mul, div-eq_of_lt, mod-eq_of_lt,
  add-mul-mod_self_right,
}

-- The `n` lowest bits of a number.
unfoldable pub low_bits : ℕ → ℕ → List Bool
low_bits zero v = []
low_bits (suc n) v = nat_bne (v % 2) 0 ∷ low_bits n (v / 2)

unfoldable pub bits_of : List ℕ → List Bool
bits_of [] = []
bits_of (b ∷ bs) = low_bits 8 b ++ bits_of bs

abbrev pub IsByte : ℕ → Type 0
IsByte b = b < 256

pub length-low_bits : (n v : ℕ) → length (low_bits n v) ≡ n
unfolding low_bits
length-low_bits zero v = refl
length-low_bits (suc n) v = ap suc (length-low_bits n (v / 2))

-- The bits of two fields in one number.
pub low_bits_split :
    (n m k v : ℕ) → n + m ≡ k → low_bits k v ≡ low_bits n v ++ low_bits m (v / 2 ^ n)
unfolding low_bits
low_bits_split zero m k v e = ap₂ low_bits (omega arith) (omega arith)
low_bits_split (suc n) m zero v e = absurd (omega arith)
low_bits_split (suc n) m (suc k) v e =
    ap (λ t. nat_bne (v % 2) 0 ∷ t)
      (low_bits_split n m k (v / 2) (omega arith)
        ∙ ap (λ t. low_bits n (v / 2) ++ low_bits m t) (sym (div_two_pow n v)))

pub low_bits-mod : (n v : ℕ) → low_bits n (v % 2 ^ n) ≡ low_bits n v
unfolding low_bits
low_bits-mod zero v = refl
low_bits-mod (suc n) v =
    let low = mod_two_pow n v in
    let digit : v % 2 ^ suc n % 2 ≡ v % 2 = omega arith in
    let more : v % 2 ^ suc n / 2 ≡ v / 2 % 2 ^ n = omega arith in
    ap₂ (λ (b rest : ℕ). nat_bne b 0 ∷ low_bits n rest) digit more
    ∙ ap (λ t. nat_bne (v % 2) 0 ∷ t) (low_bits-mod n (v / 2))

same_digit : (v w : ℕ) → nat_bne (v % 2) 0 ≡ nat_bne (w % 2) 0 → v % 2 ≡ w % 2
same_digit v w e = ground arith

pub low_bits-injective :
    (n v w : ℕ) (s t : List Bool)
    → v < 2 ^ n
    → w < 2 ^ n
    → low_bits n v ++ s ≡ low_bits n w ++ t
    → (v ≡ w) × (s ≡ t)
unfolding low_bits
low_bits-injective zero v w s t hv hw e = (omega arith, e)
low_bits-injective (suc n) v w s t hv hw e =
    let double = pow-suc 2 n in
    let (halves, rest) =
      low_bits-injective n (v / 2) (w / 2) s t (omega arith) (omega arith) (tail-eq_of_cons-eq e) in
    (omega (arith, same_digit v w (head-eq_of_cons-eq e)), rest)

pub bits_of-append : (xs ys : List ℕ) → bits_of (xs ++ ys) ≡ bits_of xs ++ bits_of ys
unfolding bits_of
bits_of-append [] ys = refl
bits_of-append (x ∷ xs) ys = rw (bits_of-append xs ys) (sym (append_assoc (low_bits 8 x) _ _))

pub power_pos : (k : ℕ) → 0 < 2 ^ k
power_pos k = omega (arith, one-le-pow k 2)

pub two_pow-add : (n m k : ℕ) → n + m ≡ k → 2 ^ k ≡ 2 ^ m * 2 ^ n
two_pow-add zero m k e = let same : k ≡ m = omega arith in omega (arith, ap (λ t. 2 ^ t) same)
two_pow-add (suc n) m zero e = absurd (omega arith)
two_pow-add (suc n) m (suc k) e = omega (
  arith,
  two_pow-add n m k (omega arith),
  pow-suc 2 k,
  ap (λ t. 2 ^ m * t) (pow-suc 2 n),
  mul_assoc (2 ^ m) (2 ^ n) 2,
)

-- A field of `m` bits on top of one of `n` bits.
pub low_bits_fields :
    (n m k low high : ℕ)
    → n + m ≡ k
    → low < 2 ^ n
    → low_bits k (low + high * 2 ^ n) ≡ low_bits n low ++ low_bits m high
low_bits_fields n m k low high e h =
    let over : (low + high * 2 ^ n) / 2 ^ n ≡ high =
      omega (arith, add-mul-div_right low high (power_pos n), div-eq_of_lt h) in
    let under : (low + high * 2 ^ n) % 2 ^ n ≡ low =
      omega (arith, add-mul-mod_self_right low high (2 ^ n), mod-eq_of_lt h) in
    low_bits_split n m k _ e
    ∙ ap₂ ◌++◌ (sym (low_bits-mod n _) ∙ ap (low_bits n) under) (ap (low_bits m) over)

pub fields_lt :
    (n m k low high : ℕ) → n + m ≡ k → low < 2 ^ n → high < 2 ^ m → low + high * 2 ^ n < 2 ^ k
fields_lt n m k low high e hl hh =
    let over : (low + high * 2 ^ n) / 2 ^ n ≡ high =
      omega (arith, add-mul-div_right low high (power_pos n), div-eq_of_lt hl) in
    let below : low + high * 2 ^ n < 2 ^ m * 2 ^ n =
      (div-lt_iff_lt-mul (power_pos n)).0 (omega arith) in
    omega (arith, two_pow-add n m k e)

pub bits_of_last :
    (bs : List ℕ) (b : ℕ) → bits_of (bs ++ (b ∷ [])) ++ low_bits 0 0 ≡ bits_of bs ++ low_bits 8 b
unfolding bits_of low_bits
bits_of_last bs b =
    append-nil _ ∙ bits_of-append bs (b ∷ []) ∙ ap (λ t. bits_of bs ++ t) (append-nil _)
