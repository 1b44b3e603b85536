-- ===== src/Utils/Bits/Writing.antt =====
-- utils/bits/bits.go, Writer.Write: what it adds to the bits written before.
use go_opera.Base.{
  ℕ, zero, suc, ◌+◌, ◌-◌, ◌*◌, ◌/◌, ◌%◌, ◌^◌, ◌≤◌, ◌<◌, ◌≡◌, refl, sym, arith, ap, ◌∙◌,
}
use go_opera.Base.{List, [], ◌∷◌, ◌++◌, Bool, true, false, inl, inr, All, ok}
use go_opera.Base.{nat_beq, nat_beq_iff, leb, if◌then◌else◌, Bool-cases, u8, u64}
use go_opera.Utils.Bits.{Writer, or_last, write_into_last_byte, zero_top_byte_bits, with_room}
use go_opera.Utils.Bits.{write_last, fill_last, write_fuel, write}
use go_opera.Utils.Bits.Masks.{bit_or_shifted, bit_and_ones}
use go_opera.Utils.Bits.Stream.{
  low_bits, bits_of, IsByte, bits_of_last, low_bits_fields, two_pow-add, fields_lt, low_bits_split,
  low_bits-mod, power_pos,
}
use go_opera.Utils.Bitmap.Bytes.{tested, tested_lem}
use Prim.Native.Nat.{bit_and, bit_or}
use native.Mathlib.Nat.{one-le-pow, mod-lt, div-lt_iff_lt-mul, pow-le-pow_right}
use mathlib.Core.Path.{subst}
use mathlib.Core.List.{append_assoc}

-- The full bytes of a writer, and the byte under way with `bit_offset` bits in it.
pub record Holds (w : Writer) (s : List Bool) : Type 0 where
  pub full : List ℕ
  pub last : ℕ
  pub full_IsByte : All IsByte full
  pub offset_lt : w.bit_offset < 8
  pub last_lt : last < 2 ^ w.bit_offset
  pub layout : w.bytes ≡ (if nat_beq w.bit_offset 0 then full else full ++ (last ∷ []))
  pub stream : s ≡ bits_of full ++ low_bits w.bit_offset last

or_last-append : (xs : List ℕ) (b x : ℕ) → or_last (xs ++ (b ∷ [])) x ≡ ok (xs ++ (bit_or b x ∷ []))
unfolding or_last
or_last-append [] b x = refl
or_last-append (y ∷ []) b x = refl
or_last-append (y ∷ z ∷ ys) b x = rw (or_last-append (z ∷ ys) b x) refl

first_bit :
    (w : Writer) (s : List Bool) (h : Holds w s) → nat_beq w.bit_offset 0 ≡ true → h.last ≡ 0
first_bit w s h fresh =
    let start : w.bit_offset ≡ 0 = ground (arith, nat_beq_iff w.bit_offset 0) in
    let below = subst (λ o. h.last < 2 ^ o) start h.last_lt in omega arith

abbrev opened : (w : Writer) → (full : List ℕ) → ℕ → Writer
opened w full last = record w { bytes = full ++ (last ∷ []) }

-- Room for at least one bit.
with_room_lem : (w : Writer) (s : List Bool) (h : Holds w s) → with_room w ≡ opened w h.full h.last
with_room_lem w s h = elim (Bool-cases (nat_beq w.bit_offset 0)) [
  | inl fresh ↦
      rw (fresh, first_bit w s h fresh)
        (ap (λ t. record w { bytes = t ++ (0 ∷ []) }) (h.layout ∙ rw fresh refl))
  | inr open_byte ↦ rw open_byte (ap (λ t. record w { bytes = t }) (h.layout ∙ rw open_byte refl))
]

high_lt : (o m v : ℕ) → o + m ≤ 8 → v < 2 ^ m → v * 2 ^ o < 256
high_lt o m v e h = omega (
  arith,
  fields_lt o m (o + m) 0 v refl (one-le-pow o 2 (omega arith)) h,
  pow-le-pow_right {n = 2} (omega arith) e,
)

-- Adding a field to the last byte.
write_into_last_byte_lem :
    (w : Writer) (full : List ℕ) (last m v : ℕ)
    → w.bit_offset + m ≤ 8
    → last < 2 ^ w.bit_offset
    → v < 2 ^ m
    → write_into_last_byte (opened w full last) v ≡ ok (opened w full (last + v * 2 ^ w.bit_offset))
unfolding write_into_last_byte
write_into_last_byte_lem w full last m v room hl hv =
    let small = high_lt w.bit_offset m v room hv in
    let wrapped : u8 (u64 (v * 2 ^ w.bit_offset)) ≡ v * 2 ^ w.bit_offset = omega arith in
    rw
      (
        wrapped,
        or_last-append full last (v * 2 ^ w.bit_offset),
        bit_or_shifted w.bit_offset last v hl,
      )
      refl

pub same : (k : ℕ) → nat_beq k k ≡ true
same k = ground arith

pub apart : (k : ℕ) → 0 < k → nat_beq k 0 ≡ false
apart k h = ground arith

abbrev with_field : Writer → (full : List ℕ) → (last m v : ℕ) → Writer
with_field w full last m v = record {
  bytes = full ++ ((last + v * 2 ^ w.bit_offset) ∷ []);
  bit_offset = if nat_beq m (8 - w.bit_offset) then 0 else w.bit_offset + m;
}

pub All-append_one : (xs : List ℕ) (x : ℕ) → All IsByte xs → IsByte x → All IsByte (xs ++ (x ∷ []))
All-append_one [] x all px = (px, tt)
All-append_one (y ∷ ys) x (py, all) px = (py, All-append_one ys x all px)

with_field-Holds :
    (w : Writer) (s : List Bool) (h : Holds w s) (m v : ℕ)
    → w.bit_offset + m ≤ 8
    → 0 < m
    → v < 2 ^ m
    → Holds (with_field w h.full h.last m v) (s ++ low_bits m v)
with_field-Holds w s h m v room some_bits hv =
    let o = w.bit_offset in
    let new = h.last + v * 2 ^ o in
    let joined =
      ap (λ t. t ++ low_bits m v) h.stream
      ∙ append_assoc (bits_of h.full) _ _
      ∙ ap (λ t. bits_of h.full ++ t) (sym (low_bits_fields o m (o + m) h.last v refl h.last_lt)) in
    let new_lt = fields_lt o m (o + m) h.last v refl h.last_lt hv in
    elim (Bool-cases (nat_beq m (8 - o))) [
      | inl closed ↦
          let filled : o + m ≡ 8 = ground (arith, nat_beq_iff m (8 - o)) in
          rw closed record {
            full = h.full ++ (new ∷ []);
            last = 0;
            full_IsByte =
                All-append_one h.full new h.full_IsByte (subst (λ k. new < 2 ^ k) filled new_lt);
            offset_lt = omega arith;
            last_lt = omega arith;
            layout = refl;
            stream =
                joined
                ∙ ap (λ k. bits_of h.full ++ low_bits k new) filled
                ∙ sym (bits_of_last h.full new);
          }
      | inr open_byte ↦ rw open_byte record {
        full = h.full;
        last = new;
        full_IsByte = h.full_IsByte;
        offset_lt = ground (arith, nat_beq_iff m (8 - o));
        last_lt = new_lt;
        layout = rw (apart (o + m) (omega arith)) refl;
        stream = joined;
      }
    ]

write_last_lem :
    (w : Writer) (s : List Bool) (h : Holds w s) (m v : ℕ)
    → w.bit_offset + m ≤ 8
    → v < 2 ^ m
    → write_last (with_room w) m v ≡ ok (with_field w h.full h.last m v)
unfolding write_last
write_last_lem w s h m v room hv =
    rw (with_room_lem w s h, write_into_last_byte_lem w h.full h.last m v room h.last_lt hv) refl

ones_table : tested 8 (λ o. nat_beq (255 / 2 ^ o) (2 ^ (8 - o) - 1)) ≡ true
unfolding tested
ones_table = refl

pub zero_top_byte_bits_lem : (v o : ℕ) → o < 8 → zero_top_byte_bits v o ≡ v % 2 ^ (8 - o)
unfolding zero_top_byte_bits
zero_top_byte_bits_lem v o h =
    let ones = tested_lem 8 (λ o. nat_beq (255 / 2 ^ o) (2 ^ (8 - o) - 1)) ones_table o h in
    ap (bit_and v) ((nat_beq_iff _ _).0 ones) ∙ bit_and_ones (8 - o) v

fill_last_lem :
    (w : Writer) (s : List Bool) (h : Holds w s) (v : ℕ)
    → fill_last (with_room w) v
      ≡ ok (with_field w h.full h.last (8 - w.bit_offset) (v % 2 ^ (8 - w.bit_offset)))
unfolding fill_last
fill_last_lem w s h v =
    let free = 8 - w.bit_offset in
    let low_lt = mod-lt v (power_pos free) in
    rw
      (
        with_room_lem w s h,
        zero_top_byte_bits_lem v w.bit_offset h.offset_lt,
        write_into_last_byte_lem w h.full h.last free (v % 2 ^ free) (omega (arith, h.offset_lt))
            h.last_lt low_lt,
        same free,
      )
      refl

joined :
    (s : List Bool) (free m v : ℕ)
    → free + (m - free) ≡ m
    → (s ++ low_bits free (v % 2 ^ free)) ++ low_bits (m - free) (v / 2 ^ free) ≡ s ++ low_bits m v
joined s free m v split =
    append_assoc s _ _
    ∙ ap (λ t. s ++ t)
        (ap (λ t. t ++ low_bits (m - free) (v / 2 ^ free)) (low_bits-mod free v)
          ∙ sym (low_bits_split free (m - free) m v split))

write_fuel_lem :
    (fuel : ℕ) (w : Writer) (s : List Bool) (h : Holds w s) (m v : ℕ)
    → m < fuel
    → 0 < m
    → v < 2 ^ m
    → (w' : Writer) × (write_fuel fuel w m v ≡ ok w') × Holds w' (s ++ low_bits m v)
unfolding write_fuel
write_fuel_lem zero w s h m v hf some_bits hv = absurd (omega arith)
write_fuel_lem (suc fuel) w s h m v hf some_bits hv =
    let free = 8 - w.bit_offset in
    elim (Bool-cases (leb m free)) [
      | inl fits ↦
          let room : w.bit_offset + m ≤ 8 = ground (arith, h.offset_lt) in
          (
            with_field w h.full h.last m v,
            rw fits (write_last_lem w s h m v room hv),
            with_field-Holds w s h m v room some_bits hv,
          )
      | inr more ↦
          let filled = with_field w h.full h.last free (v % 2 ^ free) in
          let whole : w.bit_offset + free ≤ 8 = omega (arith, h.offset_lt) in
          let held =
            with_field-Holds w s h free (v % 2 ^ free) whole (omega (arith, h.offset_lt))
              (mod-lt v (power_pos free)) in
          let split : free + (m - free) ≡ m = ground (arith, h.offset_lt) in
          let high_lt : v / 2 ^ free < 2 ^ (m - free) =
            (div-lt_iff_lt-mul (power_pos free)).1
              (omega (arith, two_pow-add free (m - free) m split)) in
          let (w', run, held') =
            write_fuel_lem fuel filled _ held (m - free) (v / 2 ^ free)
              (ground (arith, h.offset_lt)) (ground arith) high_lt in
          (
            w',
            rw (more, fill_last_lem w s h v) run,
            subst (Holds w') (joined s free m v split) held',
          )
    ]

-- `Write` of a number that fits its bits never fails, and adds these bits.
pub write_lem :
    (w : Writer) (s : List Bool)
    → Holds w s
    → (m v : ℕ) → 0 < m
    → v < 2 ^ m
    → (w' : Writer) × (write w m v ≡ ok w') × Holds w' (s ++ low_bits m v)
unfolding write
write_lem w s h m v some_bits hv = write_fuel_lem (suc m) w s h m v (omega arith) some_bits hv
