-- ===== src/Utils/Bits/Reading.antt =====
-- utils/bits/bits.go, Reader.Read: the bits ahead of a reader, and what it takes of them.
use go_opera.Base.{
  ◌⊎◌, ℕ, zero, suc, ◌+◌, ◌-◌, ◌*◌, ◌/◌, ◌%◌, ◌^◌, ◌≤◌, ◌<◌, ◌≡◌, refl, sym, arith, ap, ◌∙◌,
}
use go_opera.Base.{List, [], ◌∷◌, ◌++◌, Bool, inl, inr, All, ok, >>=-ok}
use go_opera.Base.{
  nat_beq, nat_beq_iff, leb, if◌then◌else◌, Bool-cases, u64, drop, get_elem?, length, length-append,
  some,
}
use go_opera.Utils.Bits.{
  Reader, zero_top_byte_bits, read_one, read_fuel, read, view, non_read_bytes, non_read_bits,
}
use go_opera.Utils.Bits.Masks.{div_two_pow, mod_two_pow, bit_or_shifted}
use go_opera.Utils.Bits.Stream.{
  low_bits, bits_of, IsByte, low_bits_split, low_bits-mod, low_bits-injective, length-low_bits,
  two_pow-add, power_pos,
}
use go_opera.Utils.Bits.Writing.{zero_top_byte_bits_lem, apart}
use Prim.Native.Nat.{bit_or}
use native.Mathlib.Nat.{
  div-one, mul_comm, div-div-eq-div-mul, mod-add-div', div-mul-le_self, div-le_self, mod-lt,
  div-lt_iff_lt-mul,
}
use mathlib.Core.Path.{subst, ap₂}
use mathlib.Core.List.{cons≢nil, append_assoc}

-- The reader's bytes, and the bits not read yet.
pub record Ahead (r : Reader) (s : List Bool) : Type 0 where
  pub bytes_IsByte : All IsByte r.bytes
  pub offset_lt : r.bit_offset < 8
  pub stream : drop r.bit_offset (bits_of (drop r.byte_offset r.bytes)) ≡ s

length-drop {ℓ} : {A : Type ℓ} (n : ℕ) (xs : List A) → length (drop n xs) ≡ length xs - n
length-drop zero xs = omega arith
length-drop (suc n) [] = omega arith
length-drop (suc n) (x ∷ xs) = omega (arith, length-drop n xs)

pub byte_at :
    (bs : List ℕ) (i : ℕ)
    → All IsByte bs
    → (drop i bs ≡ [])
      ⊎ ((b : ℕ) × (get_elem? bs i ≡ some b) × (b < 256) × (drop i bs ≡ b ∷ drop (suc i) bs))
byte_at [] zero bytes = inl refl
byte_at [] (suc i) bytes = inl refl
byte_at (b ∷ bs) zero bytes = inr (b, refl, bytes.0, refl)
byte_at (b ∷ bs) (suc i) bytes = byte_at bs i bytes.1

-- The bits of a byte from position `o` on.
drop-low_bits :
    (o m k b : ℕ) (rest : List Bool)
    → o + m ≡ k
    → drop o (low_bits k b ++ rest) ≡ low_bits m (b / 2 ^ o) ++ rest
unfolding low_bits
drop-low_bits zero m k b rest e = ap (λ t. t ++ rest) (ap₂ low_bits (omega arith) (omega arith))
drop-low_bits (suc o) m zero b rest e = absurd (omega arith)
drop-low_bits (suc o) m (suc k) b rest e =
    drop-low_bits o m k (b / 2) rest (omega arith)
    ∙ ap (λ t. low_bits m t ++ rest) (sym (div_two_pow o b))

-- The bits `o` to `k` of a number.
mod-div-two_pow : (o m k b : ℕ) → o + m ≡ k → b % 2 ^ k / 2 ^ o ≡ b / 2 ^ o % 2 ^ m
mod-div-two_pow zero m k b e =
    let same : k ≡ m = omega arith in
    div-one (b % 2 ^ k) ∙ ap (λ t. b % 2 ^ t) same ∙ ap (λ t. t % 2 ^ m) (sym (div-one b))
mod-div-two_pow (suc o) m zero b e = absurd (omega arith)
mod-div-two_pow (suc o) m (suc k) b e =
    let half : b % 2 ^ suc k / 2 ≡ b / 2 % 2 ^ k = omega (arith, mod_two_pow k b) in
    div_two_pow o (b % 2 ^ suc k)
    ∙ ap (λ t. t / 2 ^ o) half
    ∙ mod-div-two_pow o m k (b / 2) (omega arith)
    ∙ ap (λ t. t % 2 ^ m) (sym (div_two_pow o b))

-- The byte under the reader and what follows it.
record Under (r : Reader) (s : List Bool) : Type 0 where
  byte : ℕ
  found : get_elem? r.bytes r.byte_offset ≡ some byte
  byte_lt : byte < 256
  ahead :
      s
      ≡ low_bits (8 - r.bit_offset) (byte / 2 ^ r.bit_offset)
        ++ bits_of (drop (suc r.byte_offset) r.bytes)
  dropped : drop r.byte_offset r.bytes ≡ byte ∷ drop (suc r.byte_offset) r.bytes

drop-nil : (i : ℕ) → drop {A = Bool} i [] ≡ []
drop-nil zero = refl
drop-nil (suc i) = refl

under :
    (r : Reader) (m v : ℕ) (rest : List Bool)
    → 0 < m
    → Ahead r (low_bits m v ++ rest)
    → Under r (low_bits m v ++ rest)
unfolding low_bits bits_of
under r zero v rest some_bits h = absurd (omega arith)
under r (suc m) v rest some_bits h = elim (byte_at r.bytes r.byte_offset h.bytes_IsByte) [
  | inl over ↦ absurd (
      cons≢nil
        (sym h.stream ∙ ap (λ t. drop r.bit_offset (bits_of t)) over ∙ drop-nil r.bit_offset))
  | inr (b, found, below, dropped) ↦ record {
    byte = b;
    found = found;
    byte_lt = below;
    ahead =
        sym h.stream
        ∙ ap (λ t. drop r.bit_offset (bits_of t)) dropped
        ∙ drop-low_bits r.bit_offset (8 - r.bit_offset) 8 b _ (omega (arith, h.offset_lt));
    dropped = dropped;
  }
]

-- A field at the front of a wider one.
field_split :
    (m k v x : ℕ) (rest tail : List Bool)
    → m ≤ k
    → v < 2 ^ m
    → low_bits m v ++ rest ≡ low_bits k x ++ tail
    → (v ≡ x % 2 ^ m) × (rest ≡ low_bits (k - m) (x / 2 ^ m) ++ tail)
field_split m k v x rest tail le hv e =
    let front =
      low_bits_split m (k - m) k x (omega arith)
      ∙ ap (λ t. t ++ low_bits (k - m) (x / 2 ^ m)) (sym (low_bits-mod m x)) in
    low_bits-injective m v (x % 2 ^ m) rest _ hv (mod-lt x (power_pos m))
      (e ∙ ap (λ t. t ++ tail) front ∙ append_assoc (low_bits m (x % 2 ^ m)) _ _)

masked_lem :
    (b o m : ℕ) → 0 < m → o + m ≤ 8 → zero_top_byte_bits b (8 - (o + m)) / 2 ^ o ≡ b / 2 ^ o % 2 ^ m
masked_lem b o m some_bits room =
    let width : 8 - (8 - (o + m)) ≡ o + m = omega arith in
    ap (λ t. t / 2 ^ o)
      (zero_top_byte_bits_lem b (8 - (o + m)) (omega arith) ∙ ap (λ t. b % 2 ^ t) width)
    ∙ mod-div-two_pow o m (o + m) b refl

abbrev after_one : Reader → ℕ → Reader
after_one r m =
    if nat_beq m (8 - r.bit_offset)
    then record r { bit_offset = 0; byte_offset = r.byte_offset + 1 }
    else record r { bit_offset = r.bit_offset + m }

abbrev next_byte : Reader → Reader
next_byte r = record r { bit_offset = 0; byte_offset = r.byte_offset + 1 }

next_byte-Ahead :
    (r : Reader)
    → All IsByte r.bytes
    → Ahead (next_byte r) (bits_of (drop (suc r.byte_offset) r.bytes))
next_byte-Ahead r bytes = record {
  bytes_IsByte = bytes;
  offset_lt = omega arith;
  stream = ap (λ k. bits_of (drop k r.bytes)) {y = suc r.byte_offset} (omega arith);
}

div-div-two_pow : (o m b : ℕ) → b / 2 ^ o / 2 ^ m ≡ b / 2 ^ (o + m)
div-div-two_pow o m b =
    div-div-eq-div-mul b (2 ^ o) (2 ^ m)
    ∙ ap (λ t. b / t) (mul_comm (2 ^ o) (2 ^ m) ∙ sym (two_pow-add o m (o + m) refl))

after_one-Ahead :
    (r : Reader) (m v : ℕ) (rest : List Bool)
    → 0 < m
    → r.bit_offset + m ≤ 8
    → Ahead r (low_bits m v ++ rest)
    → (u : Under r (low_bits m v ++ rest))
    → rest
      ≡ low_bits (8 - r.bit_offset - m) (u.byte / 2 ^ r.bit_offset / 2 ^ m)
        ++ bits_of (drop (suc r.byte_offset) r.bytes)
    → Ahead (after_one r m) rest
unfolding bits_of low_bits
after_one-Ahead r m v rest some_bits room h u more =
    let o = r.bit_offset in
    let tail = bits_of (drop (suc r.byte_offset) r.bytes) in
    elim (Bool-cases (nat_beq m (8 - o))) [
      | inl closed ↦
          let none_left : 8 - o - m ≡ 0 = ground (arith, nat_beq_iff m (8 - o)) in
          rw closed (
            subst (Ahead (next_byte r))
              (sym (more ∙ ap (λ k. low_bits k (u.byte / 2 ^ o / 2 ^ m) ++ tail) none_left))
              (next_byte-Ahead r h.bytes_IsByte))
      | inr open_byte ↦ rw open_byte record {
        bytes_IsByte = h.bytes_IsByte;
        offset_lt = ground (arith, nat_beq_iff m (8 - o), h.offset_lt);
        stream =
            ap (λ t. drop (o + m) (bits_of t)) u.dropped
            ∙ drop-low_bits (o + m) (8 - o - m) 8 u.byte tail (omega arith)
            ∙ ap (λ t. low_bits (8 - o - m) t ++ tail) (sym (div-div-two_pow o m u.byte))
            ∙ sym more;
      }
    ]

-- A field inside the byte under the reader.
read_one_lem :
    (r : Reader) (m v : ℕ) (rest : List Bool)
    → 0 < m
    → r.bit_offset + m ≤ 8
    → v < 2 ^ m
    → Ahead r (low_bits m v ++ rest)
    → (read_one r m ≡ ok (v, after_one r m)) × Ahead (after_one r m) rest
unfolding read_one
read_one_lem r m v rest some_bits room hv h =
    let u = under r m v rest some_bits h in
    let o = r.bit_offset in
    let x = u.byte / 2 ^ o in
    let tail = bits_of (drop (suc r.byte_offset) r.bytes) in
    let (value, more) = field_split m (8 - o) v x rest tail (omega arith) hv u.ahead in
    let masked : zero_top_byte_bits u.byte (8 - (o + m)) / 2 ^ o ≡ v =
      masked_lem u.byte o m some_bits room ∙ sym value in
    (rw (u.found, masked) refl, after_one-Ahead r m v rest some_bits room h u more)

read-zero : (fuel : ℕ) (r : Reader) → read_fuel fuel r 0 ≡ ok (0, r)
unfolding read_fuel
read-zero zero r = refl
read-zero (suc fuel) r = refl

together : (k v low : ℕ) → low ≡ v % 2 ^ k → v < 2 ^ 64 → bit_or low (u64 (v / 2 ^ k * 2 ^ k)) ≡ v
together k v low e h64 =
    let parts = mod-add-div' v (2 ^ k) in
    let fits : u64 (v / 2 ^ k * 2 ^ k) ≡ v / 2 ^ k * 2 ^ k =
      omega (arith, div-mul-le_self v (2 ^ k)) in
    rw (fits, e, bit_or_shifted k (v % 2 ^ k) (v / 2 ^ k) (mod-lt v (power_pos k))) parts

read_fuel_lem :
    (fuel : ℕ) (r : Reader) (m v : ℕ) (rest : List Bool)
    → m ≤ fuel
    → v < 2 ^ m
    → v < 2 ^ 64
    → Ahead r (low_bits m v ++ rest)
    → (r' : Reader) × (read_fuel fuel r m ≡ ok (v, r')) × Ahead r' rest
unfolding read_fuel low_bits
read_fuel_lem fuel r zero v rest hf hv h64 h =
    let nothing : v ≡ 0 = omega arith in (r, rw nothing (read-zero fuel r), h)
read_fuel_lem zero r (suc m) v rest hf hv h64 h = absurd (omega arith)
read_fuel_lem (suc fuel) r (suc m) v rest hf hv h64 h =
    elim (Bool-cases (leb (suc m) (8 - r.bit_offset))) [
      | inl fits ↦
          let (run, ahead) =
            read_one_lem r (suc m) v rest (omega arith) (ground (arith, h.offset_lt)) hv h in
          (after_one r (suc m), rw (apart (suc m) (omega arith), fits) run, ahead)
      | inr wide ↦
          let o = r.bit_offset in
          let free = 8 - o in
          let u = under r (suc m) v rest (omega arith) h in
          let tail = bits_of (drop (suc r.byte_offset) r.bytes) in
          let below : u.byte / 2 ^ o < 2 ^ free =
            (div-lt_iff_lt-mul (power_pos o)).1
              (omega (arith, u.byte_lt, two_pow-add o free 8 (omega (arith, h.offset_lt)))) in
          let (front, back) =
            field_split free (suc m) (u.byte / 2 ^ o) v tail rest (ground arith) below
              (sym u.ahead) in
          let split : free + (suc m - free) ≡ suc m = ground (arith, h.offset_lt) in
          let high_lt : v / 2 ^ free < 2 ^ (suc m - free) =
            (div-lt_iff_lt-mul (power_pos free)).1
              (omega (arith, two_pow-add free (suc m - free) (suc m) split)) in
          let (r', run, ahead) =
            read_fuel_lem fuel (next_byte r) (suc m - free) (v / 2 ^ free) rest
              (ground (arith, h.offset_lt)) high_lt (omega (arith, div-le_self v (2 ^ free)))
              (subst (Ahead (next_byte r)) back (next_byte-Ahead r h.bytes_IsByte)) in
          (
            r',
            rw (apart (suc m) (omega arith), wide, u.found, run)
                (ap (λ t. ok (t, r')) (together free v (u.byte / 2 ^ o) front h64)),
            ahead,
          )
    ]

-- `Read` takes the next bits as a number.
pub read_lem :
    (r : Reader) (m v : ℕ) (rest : List Bool)
    → v < 2 ^ m
    → v < 2 ^ 64
    → Ahead r (low_bits m v ++ rest)
    → (r' : Reader) × (read r m ≡ ok (v, r')) × Ahead r' rest
unfolding read
read_lem r m v rest hv h64 h = read_fuel_lem m r m v rest (omega arith) hv h64 h

pub length-bits_of : (bs : List ℕ) → length (bits_of bs) ≡ length bs * 8
unfolding bits_of
length-bits_of [] = refl
length-bits_of (b ∷ bs) =
    omega (arith, length-append (low_bits 8 b) (bits_of bs), length-low_bits 8 b, length-bits_of bs)

-- `NonReadBits` counts the bits ahead.
pub non_read_bits_lem : (r : Reader) (s : List Bool) → Ahead r s → non_read_bits r ≡ length s
unfolding non_read_bits non_read_bytes
non_read_bits_lem r s h = omega (
  arith,
  ap length h.stream,
  length-drop r.bit_offset (bits_of (drop r.byte_offset r.bytes)),
  length-bits_of (drop r.byte_offset r.bytes),
  length-drop r.byte_offset r.bytes,
)

-- `View` gives the next bits, and the reader stays.
pub view_lem :
    (r : Reader) (m v : ℕ) (rest : List Bool)
    → v < 2 ^ m
    → v < 2 ^ 64
    → Ahead r (low_bits m v ++ rest)
    → view r m ≡ ok v
unfolding view
view_lem r m v rest hv h64 h =
    let (r', run, _) = read_lem r m v rest hv h64 h in >>=-ok (λ p. ok p.0) run
