-- ===== src/Utils/Cser/Fields.antt =====
-- utils/cser/read_writer.go: every kind of field is read back as it was written.
use go_opera.Base.{ℕ, ◌+◌, ◌-◌, ◌*◌, ◌%◌, ◌^◌, ◌≤◌, ◌<◌, ◌≡◌, refl, sym, arith, ap, ◌∙◌}
use go_opera.Base.{
  List, [], ◌∷◌, ◌++◌, Bool, true, false, inl, inr, length, Result, ok, ◌>>=◌, >>=-ok, >>=-assoc,
}
use go_opera.Base.{nat_bne, ltb, leb, if◌then◌else◌, Bool-cases, u64}
use go_opera.Utils.Bits
use go_opera.Utils.Bits.Stream.{low_bits}
use go_opera.Utils.Bits.Writing.{write_lem}
use go_opera.Utils.Bits.Reading
use go_opera.Utils.Fast
use go_opera.Utils.Fast.Cursor
use go_opera.Utils.Cser.{
  Writer, Reader, read_uint64_bit_compact, write_uint64_bit_compact, read_u8, write_u8,
  read_u64_bits, write_u64_bits, read_u16, write_u16,
}
use go_opera.Utils.Cser.{
  read_u32, write_u32, read_u64, write_u64, read_u56, write_u56, read_bool, write_bool,
}
use go_opera.Utils.Cser.{
  read_i64, write_i64, is_negative64, neg64, read_fixed_bytes, write_fixed_bytes,
}
use go_opera.Utils.Cser.{read_slice_bytes, write_slice_bytes}
use go_opera.Utils.Cser.Sizes.{
  le_bytes, Fits, write_uint64_bit_compact-Fits, read_uint64_bit_compact-Fits,
}
use go_opera.Utils.Cser.Codec.{Holds, Coded, Coded-as, Coded-then, Coded-post}
use mathlib.Core.List.{append-nil}
use mathlib.Core.Path.{subst}
use native.Mathlib.Nat.{mod-eq_of_lt, pow-le-pow_right}

-- A field of the bit array.
put_bits :
    (w : Writer) (s : List Bool) (b : List ℕ) (m v : ℕ)
    → Holds w s b
    → 0 < m
    → v < 2 ^ m
    → (bits : Bits.Writer) × (Bits.write w.bits_w m v ≡ ok bits)
      × Holds (record w { bits_w = bits }) (s ++ low_bits m v) b
put_bits w s b m v h some_bits hv =
    let (bits, run, held) = write_lem w.bits_w s h.bits_Holds m v some_bits hv in
    (bits, run, record { bits_Holds = held; bytes_eq = h.bytes_eq })

-- The bytes that a number has in at most `cap` bytes.
size_le : (n least cap v : ℕ) → v < 256 ^ cap → least ≤ cap → Fits n least v → n ≤ cap
size_le n least cap v below room f = elim f.needed [
  | inl few ↦ omega arith
  | inr (m, e, high) ↦ elim (Bool-cases (leb cap m)) [
    | inl over ↦ absurd (
        omega (
          arith,
          high,
          below,
          pow-le-pow_right {n = 256} (omega arith) {i = cap} {j = m} (ground arith),
        ))
    | inr under ↦ ground arith
  ]
]

read_sized :
    (r : Reader) (least bits n v : ℕ) (bits_r : Bits.Reader) (bytes_r : Fast.Reader)
    → Bits.read r.bits_r bits ≡ ok (n - least, bits_r)
    → u64 (n - least + least) ≡ n
    → read_uint64_bit_compact r.bytes_r n ≡ ok (v, bytes_r)
    → read_u64_bits r least bits ≡ ok (v, record { bits_r = bits_r; bytes_r = bytes_r })
unfolding read_u64_bits
read_sized r least bits n v bits_r bytes_r reads total takes = rw (reads, total, takes) refl

write_sized :
    (w : Writer) (least bits n v : ℕ) (bits_w : Bits.Writer) (bytes : List ℕ)
    → write_uint64_bit_compact w.bytes_w v least ≡ ok (n, bytes)
    → Bits.write w.bits_w bits (n - least) ≡ ok bits_w
    → write_u64_bits w least bits v ≡ ok (record { bits_w = bits_w; bytes_w = bytes })
unfolding write_u64_bits
write_sized w least bits n v bits_w bytes run writes = rw (run, writes) refl

-- A number with its size in the bit array, and that size.
pub u64_bits-sized :
    (least bits most v : ℕ)
    → least ≤ 1
    → 0 < bits
    → bits < 64
    → least ≤ most
    → most ≤ 8
    → most - least < 2 ^ bits
    → v < 256 ^ most
    → (c : Coded (λ w. write_u64_bits w least bits v) (λ r. read_u64_bits r least bits) v)
      × ((n : ℕ) × Fits n least v × (n ≤ most) × (c.bits ≡ low_bits bits (n - least)))
u64_bits-sized least bits most v small some_bits bits_lt room most_le size_lt below =
    let wide = pow-le-pow_right {n = 256} (omega arith) {i = most} {j = 8} most_le in
    let h64 : v < 2 ^ 64 = omega (arith, wide) in
    let (n, f, run) = write_uint64_bit_compact-Fits v least h64 in
    let bounded = size_le n least most v below room f in
    let count_lt : n - least < 2 ^ bits = omega (arith, bounded) in
    let total : u64 (n - least + least) ≡ n = omega (arith, f.enough, bounded) in
    (
      record {
        bits = low_bits bits (n - least);
        bytes = le_bytes n v;
        puts = λ w s b h.
            let (bits_w, writes, held) = put_bits w s b bits (n - least) h some_bits count_lt in
            (
              record { bits_w = bits_w; bytes_w = w.bytes_w ++ le_bytes n v },
              write_sized w least bits n v bits_w _ (run w.bytes_w) writes,
              record {
                bits_Holds = held.bits_Holds;
                bytes_eq = ap (λ t. t ++ le_bytes n v) h.bytes_eq;
              },
            );
        gets = λ r s b h.
            let (bits_r, reads, ahead) =
              Reading.read_lem r.bits_r bits (n - least) s count_lt (omega (arith, bounded))
                h.bits_Ahead in
            let (bytes_r, takes, ahead') =
              read_uint64_bit_compact-Fits r.bytes_r n least v b h64 small f h.bytes_Ahead in
            (
              record { bits_r = bits_r; bytes_r = bytes_r },
              read_sized r least bits n v bits_r bytes_r reads total takes,
              record { bits_Ahead = ahead; bytes_Ahead = ahead' },
            );
      },
      (n, f, bounded, refl),
    )

pub u64_bits-Coded :
    (least bits most v : ℕ)
    → least ≤ 1
    → 0 < bits
    → bits < 64
    → least ≤ most
    → most ≤ 8
    → most - least < 2 ^ bits
    → v < 256 ^ most
    → Coded (λ w. write_u64_bits w least bits v) (λ r. read_u64_bits r least bits) v
u64_bits-Coded least bits most v small some_bits bits_lt room most_le size_lt below =
    (u64_bits-sized least bits most v small some_bits bits_lt room most_le size_lt below).0

-- A number of more than a byte has a size that is not zero in the bit array.
long_size : (n v : ℕ) → 256 ≤ v → v < 256 ^ n → 1 < n
long_size n v long below = elim (Bool-cases (leb n 1)) [
  | inl short ↦
      absurd
        (omega (arith, pow-le-pow_right {n = 256} (omega arith) {i = n} {j = 1} (ground arith)))
  | inr more ↦ ground arith
]

pub u32-Coded_long :
    (v : ℕ)
    → 256 ≤ v
    → v < 2 ^ 32
    → (c : Coded (λ w. write_u32 w v) read_u32 v) × ((k : ℕ) × (0 < k)
        × (k < 2 ^ 2)
        × (c.bits ≡ low_bits 2 k))
unfolding write_u32 read_u32
u32-Coded_long v long h =
    let (c, (n, f, few, bits)) =
      u64_bits-sized 1 2 4 v (omega arith) (omega arith) (omega arith) (omega arith) (omega arith)
        (omega arith) h in
    (
      record {
        bits = c.bits;
        bytes = c.bytes;
        puts = c.puts;
        gets = λ r s b h'.
            let (r', run, ahead) = c.gets r s b h' in
            (
              r',
              >>=-ok (λ p. ok (p.0 % 2 ^ 32, p.1)) run ∙ ap (λ t. ok (t, r')) (mod-eq_of_lt h),
              ahead,
            );
      },
      (n - 1, omega (arith, long_size n v long f.below), omega arith, bits),
    )

pub u64-Coded : (v : ℕ) → v < 2 ^ 64 → Coded (λ w. write_u64 w v) read_u64 v
unfolding write_u64 read_u64
u64-Coded v h =
    u64_bits-Coded 1 3 8 v (omega arith) (omega arith) (omega arith) (omega arith) (omega arith)
      (omega arith) h

-- A 64-bit number, with the field of its size; the field of a number above 255 is not zero.
pub u64-Coded_sized :
    (v : ℕ)
    → v < 2 ^ 64
    → (c : Coded (λ w. write_u64 w v) read_u64 v) × ((k : ℕ) × (k < 2 ^ 3)
        × (256 ≤ v → 0 < k)
        × (c.bits ≡ low_bits 3 k))
unfolding write_u64 read_u64
u64-Coded_sized v h =
    let (c, (n, f, few, bits)) =
      u64_bits-sized 1 3 8 v (omega arith) (omega arith) (omega arith) (omega arith) (omega arith)
        (omega arith) h in
    (c, (n - 1, omega arith, (λ long. omega (arith, long_size n v long f.below)), bits))

pub u32-Coded : (v : ℕ) → v < 2 ^ 32 → Coded (λ w. write_u32 w v) read_u32 v
unfolding write_u32 read_u32
u32-Coded v h =
    Coded-post _
      (u64_bits-Coded 1 2 4 v (omega arith) (omega arith) (omega arith) (omega arith) (omega arith)
        (omega arith) h)
      (λ r. ap (λ t. ok (t, r)) (mod-eq_of_lt h))

pub u16-Coded : (v : ℕ) → v < 2 ^ 16 → Coded (λ w. write_u16 w v) read_u16 v
unfolding write_u16 read_u16
u16-Coded v h =
    Coded-post _
      (u64_bits-Coded 1 1 2 v (omega arith) (omega arith) (omega arith) (omega arith) (omega arith)
        (omega arith) h)
      (λ r. ap (λ t. ok (t, r)) (mod-eq_of_lt h))

pub u56-Coded : (v : ℕ) → v < 2 ^ 56 → Coded (λ w. write_u56 w v) read_u56 v
unfolding write_u56 read_u56
u56-Coded v h =
    let fits : ltb (2 ^ (8 * 7) - 1) v ≡ false = ground arith in
    rw fits (
      u64_bits-Coded 0 3 7 v (omega arith) (omega arith) (omega arith) (omega arith) (omega arith)
        (omega arith) h)

bit : Bool → ℕ
bit v = if v then 1 else 0

bit_lt : (v : Bool) → bit v < 2 ^ 1
unfolding bit
bit_lt true = omega arith
bit_lt false = omega arith

bit_back : (v : Bool) → nat_bne (bit v) 0 ≡ v
unfolding bit
bit_back true = refl
bit_back false = refl

abbrev pub put_field : (m v : ℕ) → Writer → Result Writer
put_field m v w = Bits.write w.bits_w m v >>= (λ bits. ok (record w { bits_w = bits }))

abbrev pub get_field : ℕ → Reader → Result (ℕ × Reader)
get_field m r = Bits.read r.bits_r m >>= (λ p. ok (p.0, record r { bits_r = p.1 }))

-- A field of the bit array alone.
pub field-Coded :
    (m v : ℕ)
    → 0 < m
    → m < 64
    → v < 2 ^ m
    → (c : Coded (put_field m v) (get_field m) v) × (c.bits ≡ low_bits m v)
field-Coded m v some_bits small below =
    let wide = pow-le-pow_right {n = 2} (omega arith) {i = m} {j = 64} (omega arith) in
    (
      record {
        bits = low_bits m v;
        bytes = [];
        puts = λ w s b h.
            let (bits_w, writes, held) = put_bits w s b m v h some_bits below in
            (
              record w { bits_w = bits_w },
              >>=-ok _ writes,
              record { bits_Holds = held.bits_Holds; bytes_eq = h.bytes_eq ∙ sym (append-nil b) },
            );
        gets = λ r s b h.
            let (bits_r, reads, ahead) =
              Reading.read_lem r.bits_r m v s below (omega (arith, wide)) h.bits_Ahead in
            (
              record r { bits_r = bits_r },
              >>=-ok _ reads,
              record { bits_Ahead = ahead; bytes_Ahead = h.bytes_Ahead },
            );
      },
      refl,
    )

pub bool-Coded : (v : Bool) → Coded (λ w. write_bool w v) read_bool v
unfolding write_bool read_bool bit
bool-Coded v =
    Coded-as (λ w. refl)
      (λ r. sym (>>=-assoc (Bits.read r.bits_r 1) _ (λ p. ok (nat_bne p.0 0, p.1))))
      (Coded-post _ (field-Coded 1 (bit v) (omega arith) (omega arith) (bit_lt v)).0
        (λ r. ap (λ t. ok (t, r)) (bit_back v)))

pub u8-Coded : (v : ℕ) → Coded (λ w. write_u8 w v) read_u8 v
unfolding write_u8 read_u8 Fast.write_byte
u8-Coded v = record {
  bits = [];
  bytes = v ∷ [];
  puts = λ w s b h. (
    _,
    refl,
    record {
      bits_Holds = subst (Bits.Writing.Holds w.bits_w) (sym (append-nil s)) h.bits_Holds;
      bytes_eq = ap (λ t. t ++ (v ∷ [])) h.bytes_eq;
    },
  );
  gets = λ r s b h.
      let (reads, ahead) = Cursor.read_byte_lem r.bytes_r v b h.bytes_Ahead in
      (
        record r { bytes_r = record r.bytes_r { offset = r.bytes_r.offset + 1 } },
        >>=-ok _ reads,
        record { bits_Ahead = h.bits_Ahead; bytes_Ahead = ahead },
      );
}

-- The bytes `v`, read into an array of their length.
pub fixed_bytes-Coded :
    (v : List ℕ) (n : ℕ)
    → n ≡ length v
    → Coded (λ w. write_fixed_bytes w v) (λ r. read_fixed_bytes r n) v
unfolding write_fixed_bytes read_fixed_bytes Fast.write
fixed_bytes-Coded v n e = record {
  bits = [];
  bytes = v;
  puts = λ w s b h. (
    _,
    refl,
    record {
      bits_Holds = subst (Bits.Writing.Holds w.bits_w) (sym (append-nil s)) h.bits_Holds;
      bytes_eq = ap (λ t. t ++ v) h.bytes_eq;
    },
  );
  gets = λ r s b h.
      let (bytes_r, reads, ahead) = Cursor.read_lem r.bytes_r v b n e h.bytes_Ahead in
      (
        record r { bytes_r = bytes_r },
        >>=-ok _ reads,
        record { bits_Ahead = h.bits_Ahead; bytes_Ahead = ahead },
      );
}

-- A byte string of at most `max_len` bytes.
pub slice_bytes-Coded :
    (v : List ℕ) (max_len : ℕ)
    → length v ≤ max_len
    → length v < 2 ^ 56
    → Coded (λ w. write_slice_bytes w v) (λ r. read_slice_bytes r max_len) v
unfolding write_slice_bytes read_slice_bytes
slice_bytes-Coded v max_len room fits =
    let allowed : ltb max_len (length v) ≡ false = ground arith in
    Coded-then _ (u56-Coded (length v) fits) (rw allowed (fixed_bytes-Coded v (length v) refl))

pub i64-Coded : (v : ℕ) → v < 2 ^ 64 → Coded (λ w. write_i64 w v) read_i64 v
unfolding write_i64 read_i64
i64-Coded v h =
    let abs = if is_negative64 v then neg64 v else v in
    Coded-then _ (bool-Coded (is_negative64 v))
      (Coded-post _ (u64-Coded abs (ground arith)) (λ r. ground arith))
