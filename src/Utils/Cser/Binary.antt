-- ===== src/Utils/Cser/Binary.antt =====
-- utils/cser/binary.go: the byte array, the bit array and its size in one byte string, and the
-- adapters that encode and decode a value of any type. An encoder is its action on the writer;
-- `recover` turns every panic of a decoder into one error.
use go_opera.Base.{ℕ, ◌-◌, List, [], ◌∷◌, ◌++◌, if◌then◌else◌, ltb, nat_bne, length}
use go_opera.Base.{not, take, drop, Result, ok, err, panic, ◌>>=◌, ◌>>◌, fail_if}
use go_opera.Base.{non_canonical_encoding, malformed_encoding}
use go_opera.Utils.Bits
use go_opera.Utils.Fast
use go_opera.Utils.Cser.{Writer, Reader, new_writer, write_uint64_compact, read_uint64_compact}

unfoldable pub tail : List ℕ → ℕ → List ℕ
tail b cap = if ltb cap (length b) then drop (length b - cap) b else b

unfoldable pub reversed : List ℕ → List ℕ
reversed [] = []
reversed (b ∷ bs) = reversed bs ++ (b ∷ [])

unfoldable pub binary_from_cser : (bbits bbytes : List ℕ) → Result (List ℕ)
binary_from_cser bbits bbytes = do
  size ← write_uint64_compact [] (length bbits)
  ok (Fast.write (Fast.write bbytes bbits) (reversed size))

-- The bits and the bytes. `raw[:n]` with a negative `n` is a panic; the position is at most the
-- length of the tail, so it is never negative.
unfoldable pub binary_to_cser : List ℕ → Result (List ℕ × List ℕ)
binary_to_cser raw = do
  (bits_size, size_r) ← read_uint64_compact (Fast.new_reader (reversed (tail raw 9)))
  let raw' = take (length raw - size_r.offset) raw
  let split = length raw' - bits_size
  if ltb (length raw') bits_size
      then err malformed_encoding
      else ok (drop split raw', take split raw')

unfoldable pub marshal_binary_adapter : (Writer → Result Writer) → Result (List ℕ)
marshal_binary_adapter marshal_cser = do
  w ← marshal_cser new_writer
  binary_from_cser w.bits_w.bytes w.bytes_w

-- `defer func() { if r := recover(); r != nil { err = ErrMalformedEncoding } }()`
abbrev pub recover {ℓ} : {A : Type ℓ} → Result A → Result A
recover panic = err malformed_encoding
recover (err e) = err e
recover (ok a) = ok a

-- What is checked after the decoder: nothing is left but padding.
unfoldable pub all_read : Reader → Result (Unit {0})
all_read r = do
  fail_if (ltb 1 (Bits.non_read_bytes r.bits_r)) non_canonical_encoding
  (rest, _) ← Bits.read r.bits_r (Bits.non_read_bits r.bits_r)
  fail_if (nat_bne rest 0) non_canonical_encoding
  fail_if (not (Fast.empty r.bytes_r)) non_canonical_encoding

-- The slice `raw` with the bytes up to its capacity; what follows the body in `raw` is within the
-- capacity of the body.
unfoldable pub unmarshal_binary_adapter {ℓ} :
    {A : Type ℓ} → (raw spare : List ℕ) → (Reader → Result (A × Reader)) → Result A
unmarshal_binary_adapter raw spare unmarshal_cser = recover (do
  (bbits, bbytes) ← binary_to_cser raw
  (a, r) ← unmarshal_cser (record {
    bits_r = Bits.new_reader bbits;
    bytes_r = Fast.slice_reader bbytes (drop (length bbytes) raw ++ spare);
  })
  all_read r
  ok a)
