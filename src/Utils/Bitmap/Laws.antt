-- ===== src/Utils/Bitmap/Laws.antt =====
-- The bitmap implements a set of numbers.
use go_opera.Base.{ℕ, zero, suc, ◌+◌, ◌-◌, ◌*◌, ◌/◌, ◌%◌, ◌^◌, ◌<◌, ◌≤◌, ◌≡◌, ◌≢◌, refl, sym, ◌∙◌}
use go_opera.Base.{false, ◌||◌, List, length, arith, nat_beq, nat_bne}
use go_opera.Base.{ok, get_elem?, set, replicate, some}
use go_opera.Base.{get_elem?-set_self, get_elem?-set_ne, get_elem?-lt, Option-cases}
use go_opera.Base.{length-replicate, length-set, lt-length_of_get_elem?, if◌then◌else◌, inl, inr}
use go_opera.Utils.Bitmap.{new, put, del, has, member}
use go_opera.Utils.Bitmap.Bytes.{bit_or_bit, bit_and_bit, bits_in_range, zero_bit}
use native.Mathlib.Decide.{ℕ_discrete}
use Prim.Native.Nat.{bit_and, bit_or}

abbrev pub IsBytes : List ℕ → Type 0
IsBytes s = (i : ℕ) (y : ℕ) → get_elem? s i ≡ some y → y < 256

-- A bitmap with room for the indices below `n`.
pub record IsBitmap (s : List ℕ) (n : ℕ) : Type 0 where
  pub bytes : IsBytes s
  pub room : n ≤ 8 * length s

byte_at : (s : List ℕ) (i n : ℕ) → IsBitmap s n → i < n → (y : ℕ) × (get_elem? s (i / 8) ≡ some y)
byte_at s i n b h = get_elem?-lt s (i / 8) (omega (arith, b.room))

-- `Has` of an index in range answers, and answers membership.
pub has-member : (s : List ℕ) (i n : ℕ) → IsBitmap s n → i < n → has s i ≡ ok (member s i)
unfolding has member
has-member s i n b h = let (y, e) = byte_at s i n b h in rw (e, member)

put_byte :
    (s : List ℕ) (i y : ℕ)
    → get_elem? s (i / 8) ≡ some y
    → put s i ≡ ok (set s (i / 8) (bit_or y (2 ^ (i % 8))))
unfolding put
put_byte s i y e = rw e

set-IsBitmap :
    (s : List ℕ) (n q v : ℕ) → IsBitmap s n → v < 256 → q < length s → IsBitmap (set s q v) n
set-IsBitmap s n q v b hv hq = record {
  bytes = λ i y e. elim (ℕ_discrete q i) [
    | yes p ↦ ground (arith, get_elem?-set_self s q v hq, p)
    | no p ↦ b.bytes i y (sym (get_elem?-set_ne s q i v p) ∙ e)
  ];
  room = omega (arith, b.room, length-set s q v);
}

member-set_ne : (s : List ℕ) (i j v : ℕ) → i / 8 ≢ j / 8 → member (set s (i / 8) v) j ≡ member s j
unfolding member
member-set_ne s i j v h = rw (get_elem?-set_ne s (i / 8) (j / 8) v h, member)

member-set_eq :
    (s : List ℕ) (q j v : ℕ)
    → q ≡ j / 8
    → q < length s
    → member (set s q v) j ≡ nat_bne (bit_and v (2 ^ (j % 8))) 0
unfolding member
member-set_eq s q j v e h = ground (arith, get_elem?-set_self s q v h)

member_byte :
    (s : List ℕ) (q j y : ℕ)
    → q ≡ j / 8
    → get_elem? s q ≡ some y
    → member s j ≡ nat_bne (bit_and y (2 ^ (j % 8))) 0
unfolding member
member_byte s q j y e h = ground arith

-- What `Put` of an index in range does: it returns a bitmap of the same room that has the
-- index, and of the other indices those that it had.
pub put_lem :
    (s : List ℕ) (i n : ℕ)
    → IsBitmap s n
    → i < n
    → (t : List ℕ) × (put s i ≡ ok t)
      × IsBitmap t n
      × ((j : ℕ) → member t j ≡ (nat_beq i j || member s j))
put_lem s i n b h =
    let (y, e) = byte_at s i n b h in
    let small : y < 256 = b.bytes _ y e in
    let inside : i / 8 < length s = lt-length_of_get_elem? s _ y e in
    let t : List ℕ = set s (i / 8) (bit_or y (2 ^ (i % 8))) in
    (
      t,
      put_byte s i y e,
      set-IsBitmap s n _ _ b (bits_in_range y (i % 8) small (omega arith)).0 inside,
      λ j. elim (ℕ_discrete (i / 8) (j / 8)) [
        | yes p ↦ ground (
          arith,
          member-set_eq s (i / 8) j (bit_or y (2 ^ (i % 8))) p inside,
          member_byte s (i / 8) j y p e,
          bit_or_bit y (i % 8) (j % 8) small (omega arith) (omega arith),
        )
        | no p ↦ ground (arith, member-set_ne s i j (bit_or y (2 ^ (i % 8))) p)
      ],
    )

del_byte :
    (s : List ℕ) (i y : ℕ)
    → get_elem? s (i / 8) ≡ some y
    → del s i ≡ ok (set s (i / 8) (bit_and y (255 - 2 ^ (i % 8))))
unfolding del
del_byte s i y e = rw e

-- What `Del` of an index in range does: the index is gone, and the others stay.
pub del_lem :
    (s : List ℕ) (i n : ℕ)
    → IsBitmap s n
    → i < n
    → (t : List ℕ) × (del s i ≡ ok t)
      × IsBitmap t n
      × ((j : ℕ) → member t j ≡ (if nat_beq i j then false else member s j))
del_lem s i n b h =
    let (y, e) = byte_at s i n b h in
    let small : y < 256 = b.bytes _ y e in
    let inside : i / 8 < length s = lt-length_of_get_elem? s _ y e in
    let t : List ℕ = set s (i / 8) (bit_and y (255 - 2 ^ (i % 8))) in
    (
      t,
      del_byte s i y e,
      set-IsBitmap s n _ _ b (bits_in_range y (i % 8) small (omega arith)).1 inside,
      λ j. elim (ℕ_discrete (i / 8) (j / 8)) [
        | yes p ↦ ground (
          arith,
          member-set_eq s (i / 8) j (bit_and y (255 - 2 ^ (i % 8))) p inside,
          member_byte s (i / 8) j y p e,
          bit_and_bit y (i % 8) (j % 8) small (omega arith) (omega arith),
        )
        | no p ↦ ground (arith, member-set_ne s i j (bit_and y (255 - 2 ^ (i % 8))) p)
      ],
    )

-- The number of bytes that `New` makes.
count : ℕ → ℕ
count max = if nat_bne (max % 8) 0 then max / 8 + 1 else max / 8

new-replicate : (max : ℕ) → new max ≡ replicate (count max) 0
unfolding new count
new-replicate max = refl

count_room : (max : ℕ) → max ≤ 8 * count max
unfolding count
count_room max = ground arith

zero_byte : (k i y : ℕ) → get_elem? (replicate {A = ℕ} k 0) i ≡ some y → y ≡ 0
zero_byte zero i y e = absurd (cc)
zero_byte (suc k) zero y e = ground arith
zero_byte (suc k) (suc i) y e = zero_byte k i y e

member_zeros : (k j : ℕ) → member (replicate k 0) j ≡ false
unfolding member
member_zeros k j = elim (Option-cases (get_elem? (replicate {A = ℕ} k 0) (j / 8))) [
  | inl e ↦ rw (e, member)
  | inr (y, e) ↦ ground (
    arith,
    member_byte (replicate k 0) (j / 8) j y refl e,
    zero_byte k (j / 8) y e,
    zero_bit (j % 8) (omega arith),
  )
]

-- A new bitmap has room for `max` indices and holds none.
pub new_lem : (max : ℕ) → IsBitmap (new max) max × ((j : ℕ) → member (new max) j ≡ false)
new_lem max = rw new-replicate (
  record {
    bytes = λ i y e. omega (arith, zero_byte (count max) i y e);
    room = omega (arith, count_room max, length-replicate {A = ℕ} (count max) 0);
  },
  member_zeros (count max),
)
