-- ===== src/Utils/Bits.antt =====
-- utils/bits/bits.go: numbers of a few bits each, packed into bytes from the lowest bit on. `uint`
-- has 64 bits.
pub mod Masks
pub mod Stream
pub mod Writing
pub mod Reading
pub mod RoundTrip
use go_opera.Base.{ℕ, zero, suc, ◌+◌, ◌-◌, ◌*◌, ◌/◌, ◌^◌, List, [], ◌∷◌, ◌++◌}
use go_opera.Base.{if◌then◌else◌, leb, nat_beq, u8, u64, length, get_elem?}
use go_opera.Base.{Result, ok, panic, ◌>>=◌, expect}
use Prim.Native.Nat.{bit_and, bit_or}

pub record Writer : Type 0 where
  pub bytes : List ℕ
  pub bit_offset : ℕ

pub record Reader : Type 0 where
  pub bytes : List ℕ
  pub byte_offset : ℕ
  pub bit_offset : ℕ

abbrev pub new_writer : Writer
new_writer = record { bytes = []; bit_offset = 0 }

abbrev pub new_reader : List ℕ → Reader
new_reader bytes = record { bytes = bytes; byte_offset = 0; bit_offset = 0 }

-- `a.Bytes[len(a.Bytes)-1] |= byte(v << a.bitOffset)`; with no byte it is a panic.
unfoldable pub or_last : List ℕ → ℕ → Result (List ℕ)
or_last [] x = panic
or_last (b ∷ []) x = ok (bit_or b x ∷ [])
or_last (b ∷ c ∷ bs) x = do rest ← or_last (c ∷ bs) x; ok (b ∷ rest)

unfoldable pub write_into_last_byte : Writer → ℕ → Result Writer
unfolding or_last
write_into_last_byte a v = do
  bytes ← or_last a.bytes (u8 (u64 (v * 2 ^ a.bit_offset)))
  ok (record a { bytes = bytes })

-- `v & (uint(0xff) >> bits)`
unfoldable pub zero_top_byte_bits : (v bits : ℕ) → ℕ
zero_top_byte_bits v bits = bit_and v (255 / 2 ^ bits)

-- `if a.bitOffset == 0 { a.Bytes = append(a.Bytes, byte(0)) }`
abbrev pub with_room : Writer → Writer
with_room a = if nat_beq a.bit_offset 0 then record a { bytes = a.bytes ++ (0 ∷ []) } else a

-- The branch for bits that fit into the last byte.
unfoldable pub write_last : Writer → (bits v : ℕ) → Result Writer
unfolding write_into_last_byte
write_last a bits v = do
  w ← write_into_last_byte a v
  ok (record w { bit_offset = if nat_beq bits (8 - a.bit_offset) then 0 else a.bit_offset + bits })

-- The other branch, up to the call that writes the rest.
unfoldable pub fill_last : Writer → ℕ → Result Writer
unfolding write_into_last_byte zero_top_byte_bits
fill_last a v = do
  w ← write_into_last_byte a (zero_top_byte_bits v a.bit_offset)
  ok (record w { bit_offset = 0 })

-- `Write` calls itself with fewer bits, and with at most eight it ends: `bits` calls are enough.
-- The fuel's end is shown as a panic.
unfoldable pub write_fuel : ℕ → Writer → (bits v : ℕ) → Result Writer
unfolding write_last fill_last
write_fuel zero a bits v = panic
write_fuel (suc fuel) a bits v =
    let free = 8 - a.bit_offset in
    let rest = (do w ← fill_last (with_room a) v; write_fuel fuel w (bits - free) (v / 2 ^ free)) in
    if leb bits free then write_last (with_room a) bits v else rest

unfoldable pub write : Writer → (bits v : ℕ) → Result Writer
unfolding write_fuel
write a bits v = write_fuel (suc bits) a bits v

-- The branch of `Read` for bits that lie in one byte.
unfoldable pub read_one : Reader → ℕ → Result (ℕ × Reader)
unfolding zero_top_byte_bits
read_one a bits = do
  b ← expect (get_elem? a.bytes a.byte_offset)
  let v = zero_top_byte_bits b (8 - (a.bit_offset + bits)) / 2 ^ a.bit_offset
  ok (
    v,
    (if nat_beq bits (8 - a.bit_offset)
        then record a { bit_offset = 0; byte_offset = a.byte_offset + 1 }
        else record a { bit_offset = a.bit_offset + bits }),
  )

-- `Read` calls itself with fewer bits, so `bits` calls are enough.
unfoldable pub read_fuel : ℕ → Reader → ℕ → Result (ℕ × Reader)
unfolding read_one
read_fuel zero a bits = if nat_beq bits 0 then ok (0, a) else panic
read_fuel (suc fuel) a bits =
    let free = 8 - a.bit_offset in
    let more = (do
      b ← expect (get_elem? a.bytes a.byte_offset)
      (rest, a') ←
          read_fuel fuel (record a { bit_offset = 0; byte_offset = a.byte_offset + 1 })
            (bits - free)
      ok (bit_or (b / 2 ^ a.bit_offset) (u64 (rest * 2 ^ free)), a')) in
    if nat_beq bits 0 then ok (0, a) else if leb bits free then read_one a bits else more

unfoldable pub read : Reader → ℕ → Result (ℕ × Reader)
unfolding read_fuel
read a bits = read_fuel bits a bits

-- `View` reads with a copy of the reader.
unfoldable pub view : Reader → ℕ → Result ℕ
view a bits = do (v, _) ← read a bits; ok v

unfoldable pub non_read_bytes : Reader → ℕ
non_read_bytes a = length a.bytes - a.byte_offset

unfoldable pub non_read_bits : Reader → ℕ
unfolding non_read_bytes
non_read_bits a = non_read_bytes a * 8 - a.bit_offset
