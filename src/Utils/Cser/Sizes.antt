-- ===== src/Utils/Cser/Sizes.antt =====
-- utils/cser/read_writer.go: numbers in as few bytes as they need, and at least `min_size`.
use go_opera.Base.{
  ℕ, zero, suc, ◌+◌, ◌-◌, ◌*◌, ◌/◌, ◌%◌, ◌^◌, ◌≤◌, ◌<◌, ◌≡◌, ◌⊎◌, refl, sym, arith, ap, ◌∙◌,
}
use go_opera.Base.{List, [], ◌∷◌, ◌++◌, true, false, inl, inr, length, ok}
use go_opera.Base.{nat_beq, nat_bne, ltb, ◌&&◌, ◌||◌, Bool-cases, u64}
use go_opera.Utils.Bits.Masks.{bit_or_shifted}
use go_opera.Utils.Bits.Stream.{two_pow-add, fields_lt}
use go_opera.Utils.Fast
use go_opera.Utils.Fast.{write_byte}
use go_opera.Utils.Fast.Cursor.{Ahead, read_lem}
use go_opera.Utils.Cser.{
  bit_compact_fuel, write_uint64_bit_compact, join_bytes, read_uint64_bit_compact,
}
use Prim.Native.Nat.{bit_or}
use mathlib.Core.Path.{ap₂, subst}
use mathlib.Core.List.{append_assoc, append-nil}
use native.Mathlib.Nat.{pow-le-pow_right, pow-suc, mul_assoc, add-mul}

-- The `n` lowest bytes of a number.
unfoldable pub le_bytes : ℕ → ℕ → List ℕ
le_bytes zero v = []
le_bytes (suc n) v = (v % 256) ∷ le_bytes n (v / 256)

pub length-le_bytes : (n v : ℕ) → length (le_bytes n v) ≡ n
unfolding le_bytes
length-le_bytes zero v = refl
length-le_bytes (suc n) v = ap suc (length-le_bytes n (v / 256))

-- `n` bytes hold `v`, and with one less they would not, unless `least` are asked for.
pub record Fits (n least v : ℕ) : Type 0 where
  pub below : v < 256 ^ n
  pub enough : least ≤ n
  pub needed : (n ≤ least) ⊎ ((m : ℕ) × (n ≡ suc m) × (256 ^ m ≤ v))

needed_power : (n m v : ℕ) → n ≡ suc m → 256 ^ m ≤ v / 256 → 256 ^ n ≤ v
needed_power n m v e high = omega (arith, ap (λ t. 256 ^ t) e, pow-suc 256 m)

Fits-next :
    (n least v : ℕ) → (0 < least) ⊎ (0 < v) → Fits n (least - 1) (v / 256) → Fits (suc n) least v
Fits-next n least v more f = record {
  below = omega (arith, f.below, pow-suc 256 n);
  enough = omega (arith, f.enough);
  needed = elim f.needed [
    | inl few ↦ elim more [
      | inl wanted ↦ inl (omega arith)
      | inr positive ↦ elim (Bool-cases (ltb n least)) [
        | inl under ↦ inl (ground arith)
        | inr over ↦ let none : n ≡ 0 = ground arith in inr (0, ap suc none, positive)
      ]
    ]
    | inr (m, e, high) ↦ inr (n, refl, needed_power n m v e high)
  ];
}

wide_enough : (v least : ℕ) → v < 2 ^ 64 → v < 256 ^ (8 + least)
wide_enough v least h =
    omega (arith, pow-le-pow_right {n = 256} (omega arith) {i = 8} {j = 8 + least} (omega arith))

bit_compact_round :
    (fuel : ℕ) (bytes : List ℕ) (v least size n : ℕ)
    → (ltb size least || nat_bne v 0) ≡ true
    → bit_compact_fuel fuel (bytes ++ ((v % 256) ∷ [])) (v / 256) least (size + 1)
      ≡ ok (size + 1 + n, (bytes ++ ((v % 256) ∷ [])) ++ le_bytes n (v / 256))
    → bit_compact_fuel (suc fuel) bytes v least size
      ≡ ok (size + suc n, bytes ++ le_bytes (suc n) v)
unfolding bit_compact_fuel write_byte le_bytes
bit_compact_round fuel bytes v least size n more run =
    let count : size + 1 + n ≡ size + suc n = omega arith in
    rw (more, run, count) (ap (λ t. ok (size + suc n, t)) (append_assoc bytes ((v % 256) ∷ []) _))

nothing_more :
    (v least size : ℕ) (bytes : List ℕ)
    → least ≤ size
    → v ≡ 0
    → ((ltb size least || nat_bne v 0) ≡ false)
      × (size ≡ size + 0)
      × (bytes ≡ bytes ++ le_bytes 0 v)
      × Fits 0 (least - size) v
unfolding le_bytes
nothing_more v least size bytes enough none = (
  ground arith,
  omega arith,
  sym (append-nil bytes),
  record { below = omega arith; enough = omega arith; needed = inl (omega arith) },
)

bit_compact_fuel-Fits :
    (fuel v least size : ℕ)
    → v < 256 ^ fuel
    → least ≤ size + fuel
    → (n : ℕ) × Fits n (least - size) v
      × ((bytes : List ℕ)
          → bit_compact_fuel fuel bytes v least size ≡ ok (size + n, bytes ++ le_bytes n v))
unfolding bit_compact_fuel
bit_compact_fuel-Fits zero v least size below room =
    let none = λ (bytes : List ℕ). nothing_more v least size bytes (omega arith) (omega arith) in
    (
      0,
      (none []).3,
      λ bytes. rw (none bytes).0 (ap₂ (λ n t. ok (n, t)) (none bytes).1 (none bytes).2),
    )
bit_compact_fuel-Fits (suc fuel) v least size below room =
    elim (Bool-cases (ltb size least || nat_bne v 0)) [
      | inl more ↦
          let (n, f, run) =
            bit_compact_fuel-Fits fuel (v / 256) least (size + 1) (omega (arith, pow-suc 256 fuel))
              (omega arith) in
          let left : least - (size + 1) ≡ least - size - 1 = omega arith in
          (
            suc n,
            Fits-next n (least - size) v (ground arith) (subst (λ t. Fits n t (v / 256)) left f),
            λ bytes.
                bit_compact_round fuel bytes v least size n more (run (bytes ++ ((v % 256) ∷ []))),
          )
      | inr stop ↦
          let none =
            λ (bytes : List ℕ). nothing_more v least size bytes (ground arith) (ground arith) in
          (0, (none []).3, λ bytes. rw stop (ap₂ (λ n t. ok (n, t)) (none bytes).1 (none bytes).2))
    ]

-- A number is written in as many bytes as it needs.
pub write_uint64_bit_compact-Fits :
    (v least : ℕ)
    → v < 2 ^ 64
    → (n : ℕ) × Fits n least v
      × ((bytes : List ℕ) → write_uint64_bit_compact bytes v least ≡ ok (n, bytes ++ le_bytes n v))
unfolding write_uint64_bit_compact
write_uint64_bit_compact-Fits v least h =
    let (n, f, run) =
      bit_compact_fuel-Fits (8 + least) v least 0 (wide_enough v least h) (omega arith) in
    let start : least - 0 ≡ least = omega arith in
    (
      n,
      subst (λ t. Fits n t v) start f,
      λ bytes. run bytes ∙ ap (λ t. ok (t, bytes ++ le_bytes n v)) (omega arith),
    )

-- A number is its low byte and the others.
spread : (v p : ℕ) → v * p ≡ v % 256 * p + v / 256 * (256 * p)
spread v p =
    let parts : v ≡ v % 256 + v / 256 * 256 = omega arith in
    ap (λ t. t * p) parts
    ∙ add-mul (v % 256) (v / 256 * 256) p
    ∙ ap (λ t. v % 256 * p + t) (mul_assoc (v / 256) 256 p)

next_power : (i : ℕ) → 2 ^ (8 * (i + 1)) ≡ 256 * 2 ^ (8 * i)
next_power i = two_pow-add (8 * i) 8 (8 * (i + 1)) (omega arith)

join_bytes-le_bytes :
    (n i v acc last : ℕ)
    → v < 256 ^ n
    → acc < 2 ^ (8 * i)
    → acc + v * 2 ^ (8 * i) < 2 ^ 64
    → (join_bytes (le_bytes n v) i acc last).0 ≡ acc + v * 2 ^ (8 * i)
unfolding join_bytes le_bytes
join_bytes-le_bytes zero i v acc last below low total =
    let none : v ≡ 0 = omega arith in rw none (omega arith)
join_bytes-le_bytes (suc n) i v acc last below low total =
    let p = 2 ^ (8 * i) in
    let c = v % 256 in
    let whole = spread v p in
    let fits : u64 (c * p) ≡ c * p = omega arith in
    let acc_lt = fields_lt (8 * i) 8 (8 * (i + 1)) acc c (omega arith) low (omega arith) in
    let high : v / 256 * 2 ^ (8 * (i + 1)) ≡ v / 256 * (256 * p) =
      ap (λ t. v / 256 * t) (next_power i) in
    let joined : bit_or acc (u64 (c * p)) ≡ acc + c * p =
      rw fits (bit_or_shifted (8 * i) acc c low) in
    ap (λ t. (join_bytes (le_bytes n (v / 256)) (i + 1) t c).0) joined
    ∙ join_bytes-le_bytes n (i + 1) (v / 256) (acc + c * p) c (omega (arith, pow-suc 256 n)) acc_lt
        (omega arith)
    ∙ omega arith

last_byte :
    (m i v acc last : ℕ)
    → 256 ^ m ≤ v
    → v < 256 ^ suc m
    → 0 < (join_bytes (le_bytes (suc m) v) i acc last).1
unfolding join_bytes le_bytes
last_byte zero i v acc last high below = omega arith
last_byte (suc m) i v acc last high below =
    last_byte m (i + 1) (v / 256) _ (v % 256) (omega (arith, pow-suc 256 m))
      (omega (arith, pow-suc 256 (suc m)))

canonical :
    (n least v : ℕ)
    → least ≤ 1
    → Fits n least v
    → (ltb 1 n && nat_beq (join_bytes (le_bytes n v) 0 0 0).1 0) ≡ false
canonical n least v small f = elim f.needed [
  | inl few ↦ ground arith
  | inr (m, e, high) ↦
      let last : 0 < (join_bytes (le_bytes n v) 0 0 0).1 =
        subst (λ t. 0 < (join_bytes (le_bytes t v) 0 0 0).1) (sym e)
          (last_byte m 0 v 0 0 high (subst (λ t. v < 256 ^ t) e f.below)) in
      ground arith
]

-- What was written in that way is read back.
pub read_uint64_bit_compact-Fits :
    (r : Fast.Reader) (n least v : ℕ) (rest : List ℕ)
    → v < 2 ^ 64
    → least ≤ 1
    → Fits n least v
    → Ahead r (le_bytes n v ++ rest)
    → (r' : Fast.Reader) × (read_uint64_bit_compact r n ≡ ok (v, r')) × Ahead r' rest
unfolding read_uint64_bit_compact
read_uint64_bit_compact-Fits r n least v rest h64 small f h =
    let (r', run, h') = read_lem r (le_bytes n v) rest n (sym (length-le_bytes n v)) h in
    let value = join_bytes-le_bytes n 0 v 0 0 f.below (omega arith) (omega arith) in
    (r', rw (run, canonical n least v small f, value) (ap (λ t. ok (t, r')) (omega arith)), h')
