-- ===== src/Utils/Cser/Arrays.antt =====
-- Go's byte arrays of a fixed length. The model keeps the value of such an array as a number,
-- big-endian; here are its bytes.
use go_opera.Base.{ℕ, zero, suc, ◌+◌, ◌*◌, ◌/◌, ◌%◌, ◌^◌, ◌<◌, ◌≡◌, refl, sym, arith, ap, ◌∙◌}
use go_opera.Base.{List, [], ◌∷◌, ◌++◌, length, length-append, Result, ok, ◌>>=◌}
use go_opera.Utils.Cser.{Writer, Reader, write_fixed_bytes, read_fixed_bytes}
use go_opera.Utils.Cser.BigInts.{set_bytes}
use go_opera.Utils.Cser.Codec.{Coded, Coded-post}
use go_opera.Utils.Cser.Fields.{fixed_bytes-Coded}
use native.Mathlib.Nat.{pow-suc}

-- `v[:]` of a `[n]byte`
unfoldable pub array_bytes : ℕ → ℕ → List ℕ
array_bytes zero v = []
array_bytes (suc n) v = array_bytes n (v / 256) ++ ((v % 256) ∷ [])

-- `w.FixedBytes(v[:])` and `r.FixedBytes(v[:])`
unfoldable pub write_array : ℕ → Writer → ℕ → Result Writer
write_array n w v = write_fixed_bytes w (array_bytes n v)

unfoldable pub read_array : ℕ → Reader → Result (ℕ × Reader)
read_array n r = do (buf, r') ← read_fixed_bytes r n; ok (set_bytes buf 0, r')

pub length-array_bytes : (n v : ℕ) → length (array_bytes n v) ≡ n
unfolding array_bytes
length-array_bytes zero v = refl
length-array_bytes (suc n) v = omega (
  arith,
  length-append (array_bytes n (v / 256)) ((v % 256) ∷ []),
  length-array_bytes n (v / 256),
)

set_bytes-append :
    (xs : List ℕ) (b acc : ℕ) → set_bytes (xs ++ (b ∷ [])) acc ≡ set_bytes xs acc * 256 + b
unfolding set_bytes
set_bytes-append [] b acc = refl
set_bytes-append (x ∷ xs) b acc = set_bytes-append xs b (acc * 256 + x)

pub set_bytes-array_bytes : (n v : ℕ) → v < 256 ^ n → set_bytes (array_bytes n v) 0 ≡ v
unfolding array_bytes set_bytes
set_bytes-array_bytes zero v h = omega arith
set_bytes-array_bytes (suc n) v h =
    set_bytes-append (array_bytes n (v / 256)) (v % 256) 0
    ∙ omega (arith, set_bytes-array_bytes n (v / 256) (omega (arith, pow-suc 256 n)))

pub array-Coded : (n v : ℕ) → v < 256 ^ n → Coded (λ w. write_array n w v) (read_array n) v
unfolding write_array read_array
array-Coded n v h =
    Coded-post _ (fixed_bytes-Coded (array_bytes n v) n (sym (length-array_bytes n v)))
      (λ r. ap (λ t. ok (t, r)) (set_bytes-array_bytes n v h))
