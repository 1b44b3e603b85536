-- ===== src/Utils/Fast.antt =====
-- utils/fast/buffer.go: a cursor over bytes. A writer is the bytes written so far.
pub mod Cursor
use go_opera.Base.{ℕ, ◌+◌, List, [], ◌∷◌, ◌++◌, Bool, if◌then◌else◌, leb, nat_beq, length}
use go_opera.Base.{get_elem?, take, drop, Result, ok, panic, ◌>>=◌, expect}

-- The slice `buf`, and in `spare` what its array holds between the slice's length and its capacity.
pub record Reader : Type 0 where
  pub buf : List ℕ
  pub spare : List ℕ
  pub offset : ℕ

-- `NewReader` of a slice with spare bytes, and of one without.
abbrev pub slice_reader : (bb spare : List ℕ) → Reader
slice_reader bb spare = record { buf = bb; spare = spare; offset = 0 }

abbrev pub new_reader : List ℕ → Reader
new_reader bb = slice_reader bb []

unfoldable pub write_byte : List ℕ → ℕ → List ℕ
write_byte buf v = buf ++ (v ∷ [])

unfoldable pub write : List ℕ → List ℕ → List ℕ
write buf v = buf ++ v

-- `b.buf[b.offset : b.offset+n]` goes up to the capacity, and is a panic past it.
unfoldable pub read : Reader → ℕ → Result (List ℕ × Reader)
read b n =
    let whole = b.buf ++ b.spare in
    if leb (b.offset + n) (length whole)
    then ok (take n (drop b.offset whole), record b { offset = b.offset + n })
    else panic

unfoldable pub read_byte : Reader → Result (ℕ × Reader)
read_byte b = do v ← expect (get_elem? b.buf b.offset); ok (v, record b { offset = b.offset + 1 })

unfoldable pub empty : Reader → Bool
empty b = nat_beq (length b.buf) b.offset
