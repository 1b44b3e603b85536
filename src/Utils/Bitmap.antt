-- ===== src/Utils/Bitmap.antt =====
-- utils/bitmap/bitset.go: a set of small numbers, eight to a byte.
pub mod Bytes
pub mod Laws
use go_opera.Base.{ℕ, ◌+◌, ◌-◌, ◌/◌, ◌%◌, ◌^◌, List, Bool, false, if◌then◌else◌, nat_bne}
use go_opera.Base.{Result, ok, expect, ◌>>=◌, get_elem?, set, replicate, Option, some, none}
use Prim.Native.Nat.{bit_and, bit_or}

-- `New(max)`: enough zero bytes for `max` bits.
unfoldable pub new : ℕ → List ℕ
new max = replicate (if nat_bne (max % 8) 0 then max / 8 + 1 else max / 8) 0

-- `s[yi] |= 1 << bi`
unfoldable pub put : List ℕ → ℕ → Result (List ℕ)
put s i = do y ← expect (get_elem? s (i / 8)); ok (set s (i / 8) (bit_or y (2 ^ (i % 8))))

-- `s[yi] &= ^(1 << bi)`, the complement within a byte.
unfoldable pub del : List ℕ → ℕ → Result (List ℕ)
del s i = do y ← expect (get_elem? s (i / 8)); ok (set s (i / 8) (bit_and y (255 - 2 ^ (i % 8))))

-- `(s[yi] & (1 << bi)) != 0`
unfoldable pub has : List ℕ → ℕ → Result Bool
has s i = do y ← expect (get_elem? s (i / 8)); ok (nat_bne (bit_and y (2 ^ (i % 8))) 0)

-- The set that the bytes stand for: an index past the end is in no set.
unfoldable pub member : List ℕ → ℕ → Bool
member s i = elim (get_elem? s (i / 8)) [
  | none ↦ false
  | some y ↦ nat_bne (bit_and y (2 ^ (i % 8))) 0
]
