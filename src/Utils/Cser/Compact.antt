-- ===== src/Utils/Cser/Compact.antt =====
-- utils/cser/read_writer.go: numbers in groups of seven bits, with a stop flag on the last group.
use go_opera.Base.{ℕ, zero, suc, ◌+◌, ◌*◌, ◌/◌, ◌%◌, ◌^◌, ◌≤◌, ◌<◌, ◌≡◌, ◌⊎◌, refl, arith, ap, ◌∙◌}
use go_opera.Base.{List, [], ◌∷◌, ◌++◌, Bool, true, false, inl, inr, length, ok}
use go_opera.Base.{nat_beq, nat_bne, ltb, ◌&&◌, nat_beq_iff, Bool-cases, u8, u64}
use go_opera.Utils.Bits.Masks.{bit_or_shifted, bit_and_ones}
use go_opera.Utils.Bitmap.Bytes.{tested, tested_lem}
use go_opera.Utils.Fast
use go_opera.Utils.Fast.{write_byte}
use go_opera.Utils.Fast.Cursor.{Ahead, read_byte_lem}
use go_opera.Utils.Cser.{compact_fuel, write_uint64_compact, read_compact_fuel, read_uint64_compact}
use go_opera.Utils.Bits.Stream.{two_pow-add, fields_lt}
use Prim.Native.Nat.{bit_and, bit_or}
use mathlib.Core.List.{append_assoc}
use native.Mathlib.Nat.{pow-suc, mul_assoc, add-mul}

-- The groups of a number, lowest first.
pub data Groups : ℕ → List ℕ → Type 0 where
  last : {v : ℕ} → v < 128 → Groups v ((v + 128) ∷ [])
  next : {v : ℕ} {gs : List ℕ} → 128 ≤ v → Groups (v / 128) gs → Groups v ((v % 128) ∷ gs)

pub length-Groups_pos : {v : ℕ} {gs : List ℕ} → Groups v gs → 0 < length gs
length-Groups_pos (last h) = omega arith
length-Groups_pos (next h rest) = omega arith

-- `k` groups hold a number below 128 ^ k.
pub length-Groups_le :
    (k : ℕ) {v : ℕ} {gs : List ℕ} → 0 < k → v < 128 ^ k → Groups v gs → length gs ≤ k
length-Groups_le zero pos below g = absurd (omega arith)
length-Groups_le (suc k) pos below (last h) = omega arith
length-Groups_le (suc zero) pos below (next h rest) = absurd (omega arith)
length-Groups_le (suc (suc k)) pos below (next h rest) =
    omega (arith, length-Groups_le (suc k) (omega arith) (omega (arith, pow-suc 128 (suc k))) rest)

pub low_group : (v : ℕ) → bit_and v 127 ≡ v % 128
low_group v = bit_and_ones 7 v

stop_flag : (c : ℕ) → c < 128 → bit_or c 128 ≡ c + 128
stop_flag c h = bit_or_shifted 7 c 1 h

flag_table : tested 256 (λ c. nat_beq (bit_and c 128) (c / 128 * 128)) ≡ true
unfolding tested
flag_table = refl

pub flag_lem : (c : ℕ) → c < 256 → bit_and c 128 ≡ c / 128 * 128
flag_lem c h =
    (nat_beq_iff _ _).0
      (tested_lem 256 (λ c. nat_beq (bit_and c 128) (c / 128 * 128)) flag_table c h)

pos_fuel : (fuel v : ℕ) → 128 ≤ v → v < 128 ^ suc fuel → 0 < fuel
pos_fuel zero v big below = absurd (omega arith)
pos_fuel (suc fuel) v big below = omega arith

compact_round :
    (fuel : ℕ) (bytes : List ℕ) (v : ℕ) (gs : List ℕ)
    → nat_beq (v / 2 ^ 7) 0 ≡ false
    → compact_fuel fuel (bytes ++ ((v % 128) ∷ [])) (v / 128)
      ≡ ok ((bytes ++ ((v % 128) ∷ [])) ++ gs)
    → compact_fuel (suc fuel) bytes v ≡ ok (bytes ++ ((v % 128) ∷ gs))
unfolding compact_fuel write_byte
compact_round fuel bytes v gs more run =
    let byte : u8 (bit_and v 127) ≡ v % 128 = omega (arith, low_group v) in
    rw (more, byte, run) (ap ok (append_assoc bytes ((v % 128) ∷ []) gs))

compact_fuel-Groups :
    (fuel : ℕ) (bytes : List ℕ) (v : ℕ)
    → 0 < fuel
    → v < 128 ^ fuel
    → (gs : List ℕ) × (compact_fuel fuel bytes v ≡ ok (bytes ++ gs)) × Groups v gs
unfolding compact_fuel write_byte
compact_fuel-Groups zero bytes v pos below = absurd (omega arith)
compact_fuel-Groups (suc fuel) bytes v pos below = elim (Bool-cases (nat_beq (v / 2 ^ 7) 0)) [
  | inl stop ↦
      let small : v < 128 = ground (arith, nat_beq_iff (v / 2 ^ 7) 0) in
      let byte : u8 (bit_or (bit_and v 127) 128) ≡ v + 128 =
        omega (arith, low_group v, stop_flag (bit_and v 127) (omega (arith, low_group v))) in
      ((v + 128) ∷ [], rw (stop, byte) refl, last small)
  | inr more ↦
      let big : 128 ≤ v = ground (arith, nat_beq_iff (v / 2 ^ 7) 0) in
      let (gs, run, g) =
        compact_fuel-Groups fuel (bytes ++ ((v % 128) ∷ [])) (v / 128) (pos_fuel fuel v big below)
          (omega (arith, pow-suc 128 fuel)) in
      ((v % 128) ∷ gs, compact_round fuel bytes v gs more run, next big g)
]

-- Every uint64 is written, as its groups.
pub write_uint64_compact-Groups :
    (bytes : List ℕ) (v : ℕ)
    → v < 2 ^ 64
    → (gs : List ℕ) × (write_uint64_compact bytes v ≡ ok (bytes ++ gs)) × Groups v gs
unfolding write_uint64_compact
write_uint64_compact-Groups bytes v h = compact_fuel-Groups 10 bytes v (omega arith) (omega arith)

-- A number is its low group and the others.
pub spread : (v p : ℕ) → v * p ≡ v % 128 * p + v / 128 * (128 * p)
spread v p =
    let parts : v ≡ v % 128 + v / 128 * 128 = omega arith in
    ap (λ t. t * p) parts
    ∙ add-mul (v % 128) (v / 128 * 128) p
    ∙ ap (λ t. v % 128 * p + t) (mul_assoc (v / 128) 128 p)

pub next_power : (i : ℕ) → 2 ^ ((i + 1) * 7) ≡ 128 * 2 ^ (i * 7)
next_power i = two_pow-add (i * 7) 7 ((i + 1) * 7) (omega arith)

-- A round of the loop adds a group.
pub add_group :
    (acc w i : ℕ)
    → acc < 2 ^ (i * 7)
    → w * 2 ^ (i * 7) < 2 ^ 64
    → bit_or acc (u64 (w * 2 ^ (i * 7))) ≡ acc + w * 2 ^ (i * 7)
add_group acc w i low fits =
    let whole : u64 (w * 2 ^ (i * 7)) ≡ w * 2 ^ (i * 7) = omega arith in
    rw whole (bit_or_shifted (i * 7) acc w low)

pub and_false : (a b : Bool) → (a && false && b) ≡ false
and_false true b = refl
and_false false b = refl

read_round :
    (fuel : ℕ) (r r' : Fast.Reader) (i acc v : ℕ) {x : ℕ}
    → Fast.read_byte r ≡ ok (v % 128, record r { offset = r.offset + 1 })
    → acc < 2 ^ (i * 7)
    → v % 128 * 2 ^ (i * 7) < 2 ^ 64
    → read_compact_fuel fuel
        (record r { offset = r.offset + 1 })
        (i + 1)
        (acc + v % 128 * 2 ^ (i * 7))
      ≡ ok (x, r')
    → read_compact_fuel (suc fuel) r i acc ≡ ok (x, r')
unfolding read_compact_fuel
read_round fuel r r' i acc v take_one low fits run =
    let c = v % 128 in
    let flag : nat_bne (bit_and c 128) 0 ≡ false = ground (arith, flag_lem c (omega arith)) in
    let word : bit_and c 127 ≡ c = omega (arith, low_group c) in
    rw (take_one, flag, word, and_false (ltb 0 i) (nat_beq c 0), add_group acc c i low fits) run

read_compact_fuel-Groups :
    (fuel : ℕ) (r : Fast.Reader) (i acc : ℕ) {v : ℕ} {gs : List ℕ} (rest : List ℕ)
    → Groups v gs
    → length gs ≤ fuel
    → acc < 2 ^ (i * 7)
    → acc + v * 2 ^ (i * 7) < 2 ^ 64
    → (i ≡ 0) ⊎ (0 < v)
    → Ahead r (gs ++ rest)
    → (r' : Fast.Reader) × (read_compact_fuel fuel r i acc ≡ ok (acc + v * 2 ^ (i * 7), r'))
      × Ahead r' rest
      × (r'.offset ≡ r.offset + length gs)
      × (r'.buf ≡ r.buf)
unfolding read_compact_fuel
read_compact_fuel-Groups zero r i acc rest g enough low total front h =
    absurd (omega (arith, length-Groups_pos g))
read_compact_fuel-Groups (suc fuel) r i acc {v} rest (last small) enough low total front h =
    let (take_one, h') = read_byte_lem r (v + 128) rest h in
    let flag : nat_bne (bit_and (v + 128) 128) 0 ≡ true =
      ground (arith, flag_lem (v + 128) (omega arith)) in
    let word : bit_and (v + 128) 127 ≡ v = omega (arith, low_group (v + 128)) in
    let canonical : (ltb 0 i && true && nat_beq v 0) ≡ false = ground arith in
    (
      record r { offset = r.offset + 1 },
      rw (take_one, flag, word, canonical, add_group acc v i low (omega arith)) refl,
      h',
      refl,
      refl,
    )
read_compact_fuel-Groups (suc fuel) r i acc {v} rest (next {gs = gs} big more) enough low total
      front h =
    let p = 2 ^ (i * 7) in
    let (take_one, h') = read_byte_lem r (v % 128) (gs ++ rest) h in
    let whole = spread v p in
    let acc_lt = fields_lt (i * 7) 7 ((i + 1) * 7) acc (v % 128) (omega arith) low (omega arith) in
    let high : v / 128 * 2 ^ ((i + 1) * 7) ≡ v / 128 * (128 * p) =
      ap (λ t. v / 128 * t) (next_power i) in
    let (r', run, h'', position, buf) =
      read_compact_fuel-Groups fuel (record r { offset = r.offset + 1 }) (i + 1) (acc + v % 128 * p)
        rest more (omega arith) acc_lt (omega arith) (inr (omega arith)) h' in
    (
      r',
      read_round fuel r r' i acc v take_one low (omega arith)
          (run ∙ ap (λ t. ok (t, r')) (omega arith)),
      h'',
      omega arith,
      buf,
    )

-- What was written as groups is read back.
pub read_uint64_compact-Groups :
    (r : Fast.Reader) {v : ℕ} {gs : List ℕ} (rest : List ℕ)
    → v < 2 ^ 64
    → length gs ≤ length r.buf
    → Groups v gs
    → Ahead r (gs ++ rest)
    → (r' : Fast.Reader) × (read_uint64_compact r ≡ ok (v, r'))
      × Ahead r' rest
      × (r'.offset ≡ r.offset + length gs)
      × (r'.buf ≡ r.buf)
unfolding read_uint64_compact
read_uint64_compact-Groups r {v} rest fits room g h =
    let (r', run, h', position, buf) =
      read_compact_fuel-Groups (suc (length r.buf)) r 0 0 rest g (omega arith) (omega arith)
        (omega arith) (inl refl) h in
    (r', run ∙ ap (λ t. ok (t, r')) (omega arith), h', position, buf)
