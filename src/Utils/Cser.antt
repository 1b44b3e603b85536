-- ===== src/Utils/Cser.antt =====
-- utils/cser/read_writer.go: numbers, byte strings and Booleans over a bit array and a byte array.
-- A reader and a writer are passed on explicitly; a panic with an error value is `panic`, since
-- every use recovers it as one error.
pub mod BigInts
pub mod Binary
pub mod Compact
pub mod Sizes
pub mod Codec
pub mod Fields
pub mod Adapter
pub mod Arrays
pub mod Canonical
use go_opera.Base.{
  ℕ, zero, suc, ◌+◌, ◌-◌, ◌*◌, ◌/◌, ◌%◌, ◌^◌, List, [], ◌∷◌, ◌++◌, Bool, true, false,
}
use go_opera.Base.{◌&&◌, ◌||◌, if◌then◌else◌, leb, ltb, nat_beq, nat_bne, u8, u64, length}
use go_opera.Base.{err, out_of_fuel}
use go_opera.Base.{Result, ok, panic, ◌>>=◌, ◌>>◌, ℤ, pos, negsuc}
use go_opera.Utils.Bits
use go_opera.Utils.Fast
use Prim.Native.Nat.{bit_and, bit_or}

pub record Writer : Type 0 where
  pub bits_w : Bits.Writer
  pub bytes_w : List ℕ

pub record Reader : Type 0 where
  pub bits_r : Bits.Reader
  pub bytes_r : Fast.Reader

abbrev pub new_writer : Writer
new_writer = record { bits_w = Bits.new_writer; bytes_w = [] }

-- Seven bits a round, lowest first, with a stop flag on the last. 64 bits need ten rounds.
unfoldable pub compact_fuel : ℕ → List ℕ → ℕ → Result (List ℕ)
compact_fuel zero bytes v = panic
compact_fuel (suc fuel) bytes v =
    let chunk = bit_and v 127 in
    let last = Fast.write_byte bytes (u8 (bit_or chunk 128)) in
    let more = compact_fuel fuel (Fast.write_byte bytes (u8 chunk)) (v / 2 ^ 7) in
    if nat_beq (v / 2 ^ 7) 0 then ok last else more

unfoldable pub write_uint64_compact : List ℕ → ℕ → Result (List ℕ)
write_uint64_compact bytes v = compact_fuel 10 bytes v

-- `v |= word << (i * 7)`. Every round takes a byte, so the bytes and one round are enough; the loop
-- has no other error than out of fuel, since its own refusals are panics.
unfoldable pub read_compact_fuel : ℕ → Fast.Reader → (i v : ℕ) → Result (ℕ × Fast.Reader)
read_compact_fuel zero r i v = err out_of_fuel
read_compact_fuel (suc fuel) r i v = do
  (chunk, r') ← Fast.read_byte r
  let stop = nat_bne (bit_and chunk 128) 0
  let word = bit_and chunk 127
  let v' = bit_or v (u64 (word * 2 ^ (i * 7)))
  let more = read_compact_fuel fuel r' (i + 1) v'
  if ltb 0 i && stop && nat_beq word 0 then panic else if stop then ok (v', r') else more

unfoldable pub read_uint64_compact : Fast.Reader → Result (ℕ × Fast.Reader)
read_uint64_compact r = read_compact_fuel (suc (length r.buf)) r 0 0

-- `for size < minSize || v != 0`: with 64 bits, eight rounds or `min_size`.
unfoldable pub bit_compact_fuel : ℕ → List ℕ → (v min_size size : ℕ) → Result (ℕ × List ℕ)
bit_compact_fuel zero bytes v min_size size =
    if ltb size min_size || nat_bne v 0 then panic else ok (size, bytes)
bit_compact_fuel (suc fuel) bytes v min_size size =
    let more =
      bit_compact_fuel fuel (Fast.write_byte bytes (u8 v)) (v / 2 ^ 8) min_size (size + 1) in
    if ltb size min_size || nat_bne v 0 then more else ok (size, bytes)

-- The size, and the bytes.
unfoldable pub write_uint64_bit_compact : List ℕ → (v min_size : ℕ) → Result (ℕ × List ℕ)
write_uint64_bit_compact bytes v min_size = bit_compact_fuel (8 + min_size) bytes v min_size 0

-- The loop over the bytes read: the number and the last byte.
unfoldable pub join_bytes : List ℕ → (i v last : ℕ) → ℕ × ℕ
join_bytes [] i v last = (v, last)
join_bytes (b ∷ bs) i v last = join_bytes bs (i + 1) (bit_or v (u64 (b * 2 ^ (8 * i)))) b

unfoldable pub read_uint64_bit_compact : Fast.Reader → ℕ → Result (ℕ × Fast.Reader)
read_uint64_bit_compact r size = do
  (buf, r') ← Fast.read r size
  let joined = join_bytes buf 0 0 0
  if ltb 1 size && nat_beq joined.1 0 then panic else ok (joined.0, r')

unfoldable pub read_u8 : Reader → Result (ℕ × Reader)
read_u8 r = do (v, bytes) ← Fast.read_byte r.bytes_r; ok (v, record r { bytes_r = bytes })

unfoldable pub write_u8 : Writer → ℕ → Result Writer
write_u8 w v = ok (record w { bytes_w = Fast.write_byte w.bytes_w v })

unfoldable pub read_u64_bits : Reader → (min_size bits_for_size : ℕ) → Result (ℕ × Reader)
read_u64_bits r min_size bits_for_size = do
  (size, bits) ← Bits.read r.bits_r bits_for_size
  (v, bytes) ← read_uint64_bit_compact r.bytes_r (u64 (size + min_size))
  ok (v, record { bits_r = bits; bytes_r = bytes })

unfoldable pub write_u64_bits : Writer → (min_size bits_for_size v : ℕ) → Result Writer
write_u64_bits w min_size bits_for_size v = do
  (size, bytes) ← write_uint64_bit_compact w.bytes_w v min_size
  bits ← Bits.write w.bits_w bits_for_size (size - min_size)
  ok (record { bits_w = bits; bytes_w = bytes })

unfoldable pub read_u16 : Reader → Result (ℕ × Reader)
read_u16 r = do (v, r') ← read_u64_bits r 1 1; ok (v % 2 ^ 16, r')

unfoldable pub write_u16 : Writer → ℕ → Result Writer
write_u16 w v = write_u64_bits w 1 1 v

unfoldable pub read_u32 : Reader → Result (ℕ × Reader)
read_u32 r = do (v, r') ← read_u64_bits r 1 2; ok (v % 2 ^ 32, r')

unfoldable pub write_u32 : Writer → ℕ → Result Writer
write_u32 w v = write_u64_bits w 1 2 v

unfoldable pub read_u64 : Reader → Result (ℕ × Reader)
read_u64 r = read_u64_bits r 1 3

unfoldable pub write_u64 : Writer → ℕ → Result Writer
write_u64 w v = write_u64_bits w 1 3 v

unfoldable pub read_var_uint : Reader → Result (ℕ × Reader)
read_var_uint r = read_u64_bits r 1 3

unfoldable pub write_var_uint : Writer → ℕ → Result Writer
write_var_uint w v = write_u64_bits w 1 3 v

unfoldable pub read_u56 : Reader → Result (ℕ × Reader)
read_u56 r = read_u64_bits r 0 3

unfoldable pub write_u56 : Writer → ℕ → Result Writer
write_u56 w v =
    let written = write_u64_bits w 0 3 v in if ltb (2 ^ (8 * 7) - 1) v then panic else written

unfoldable pub read_bool : Reader → Result (Bool × Reader)
read_bool r = do (u, bits) ← Bits.read r.bits_r 1; ok (nat_bne u 0, record r { bits_r = bits })

unfoldable pub write_bool : Writer → Bool → Result Writer
write_bool w v = do
  bits ← Bits.write w.bits_w 1 (if v then 1 else 0)
  ok (record w { bits_w = bits })

-- An int64 is its two's complement: it is negative from 2 ^ 63 on.
abbrev pub neg64 : ℕ → ℕ
neg64 v = (2 ^ 64 - v) % 2 ^ 64

abbrev pub is_negative64 : ℕ → Bool
is_negative64 v = leb (2 ^ 63) v

unfoldable pub read_i64 : Reader → Result (ℕ × Reader)
read_i64 r = do
  (neg, r1) ← read_bool r
  (abs, r2) ← read_u64 r1
  if neg && nat_beq abs 0 then panic else ok (if neg then neg64 abs else abs, r2)

unfoldable pub write_i64 : Writer → ℕ → Result Writer
write_i64 w v = do
  w' ← write_bool w (is_negative64 v)
  write_u64 w' (if is_negative64 v then neg64 v else v)

-- `n` is the length of the slice that is filled.
unfoldable pub read_fixed_bytes : Reader → ℕ → Result (List ℕ × Reader)
read_fixed_bytes r n = do
  (buf, bytes) ← Fast.read r.bytes_r n
  ok (buf, record r { bytes_r = bytes })

unfoldable pub write_fixed_bytes : Writer → List ℕ → Result Writer
write_fixed_bytes w v = ok (record w { bytes_w = Fast.write w.bytes_w v })

unfoldable pub read_slice_bytes : Reader → (max_len : ℕ) → Result (List ℕ × Reader)
read_slice_bytes r max_len = do
  (size, r') ← read_u56 r
  if ltb max_len size then panic else read_fixed_bytes r' size

unfoldable pub write_slice_bytes : Writer → List ℕ → Result Writer
write_slice_bytes w v = do w' ← write_u56 w (length v); write_fixed_bytes w' v
