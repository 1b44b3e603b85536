-- ===== src/Utils/Cser/BigInts.antt =====
-- utils/cser/read_writer.go: `big.Int` values. `Bytes` and `SetBytes` of math/big are the
-- big-endian digits to the base 256, without leading zeros.
pub mod RoundTrip
use go_opera.Base.{ℕ, zero, suc, ◌+◌, ◌-◌, ◌*◌, ◌/◌, ◌%◌, List, [], ◌∷◌, ◌++◌, replicate}
use go_opera.Base.{
  if◌then◌else◌, leb, nat_beq, length, ℤ, pos, pos_part, neg_part, Result, ok, ◌>>=◌,
}
use go_opera.Utils.Cser.{Writer, Reader, write_slice_bytes, read_slice_bytes}

-- The digits of `n` before `acc`; `n` is enough fuel.
unfoldable pub digits_fuel : ℕ → ℕ → List ℕ → List ℕ
digits_fuel zero n acc = acc
digits_fuel (suc fuel) n acc =
    let more = digits_fuel fuel (n / 256) ((n % 256) ∷ acc) in if nat_beq n 0 then acc else more

unfoldable pub be_bytes : ℕ → List ℕ
be_bytes n = digits_fuel n n []

unfoldable pub set_bytes : List ℕ → ℕ → ℕ
set_bytes [] acc = acc
set_bytes (b ∷ bs) acc = set_bytes bs (acc * 256 + b)

-- `append(make([]byte, n-len(b)), b...)`
unfoldable pub padded_bytes : List ℕ → ℕ → List ℕ
padded_bytes b n = if leb n (length b) then b else replicate (n - length b) 0 ++ b

-- `Bytes` forgets the sign.
unfoldable pub write_big_int : Writer → ℤ → Result Writer
write_big_int w v =
    let abs = pos_part v + neg_part v in
    write_slice_bytes w (if nat_beq abs 0 then [] else be_bytes abs)

unfoldable pub read_big_int : Reader → Result (ℤ × Reader)
read_big_int r = do
  (buf, r') ← read_slice_bytes r 512
  ok (pos (if nat_beq (length buf) 0 then 0 else set_bytes buf 0), r')
