-- ===== src/Utils/Cser/Canonical.antt =====
-- utils/cser/read_writer.go: the loop over groups of seven bits ends, and what it accepts is what
-- the writer writes.
use go_opera.Base.{
  ℕ, zero, suc, ◌+◌, ◌-◌, ◌*◌, ◌/◌, ◌%◌, ◌^◌, ◌≤◌, ◌<◌, ◌≡◌, ◌⊎◌, refl, sym, arith, ap, ◌∙◌,
}
use go_opera.Base.{
  List, [], ◌∷◌, ◌++◌, true, false, inl, inr, All, length, length-append, take, drop, get_elem?,
  get_elem?-lt,
}
use go_opera.Base.{◌≢◌, Bool, Result, err, panic, if◌then◌else◌, out_of_fuel}
use go_opera.Base.{ok, ok-injective, leb, ltb, ◌&&◌, nat_beq, nat_bne, Bool-cases, u64, none}
use go_opera.Utils.Fast
use go_opera.Utils.Fast.Cursor.{length-drop, take-append}
use go_opera.Utils.Bits.Stream.{IsByte, fields_lt, power_pos}
use go_opera.Utils.Bits.Reading.{byte_at}
use go_opera.Utils.Cser.{read_compact_fuel, read_uint64_compact, write_uint64_compact}
use go_opera.Utils.Cser.Compact.{
  low_group, flag_lem, spread, next_power, add_group, and_false, length-Groups_pos, Groups, last,
  next, write_uint64_compact-Groups,
}
use mathlib.Core.Path.{subst, ap₂}
use native.Mathlib.Nat.{pow-le-pow_right, pow-suc, one-le-pow}
use Prim.Native.Nat.{bit_and, bit_or}

-- The bytes not read yet.
abbrev pub unread : Fast.Reader → ℕ
unread r = length r.buf - r.offset

beyond : (bs : List ℕ) (i : ℕ) → length bs ≤ i → get_elem? bs i ≡ none
beyond [] i h = refl
beyond (b ∷ bs) zero h = absurd (omega arith)
beyond (b ∷ bs) (suc i) h = beyond bs i (omega arith)

-- More fuel than there are bytes left makes no difference.
more_fuel :
    (k l : ℕ) (r : Fast.Reader) (i v : ℕ)
    → unread r < k
    → unread r < l
    → read_compact_fuel k r i v ≡ read_compact_fuel l r i v
unfolding read_compact_fuel Fast.read_byte
more_fuel zero l r i v hk hl = absurd (omega arith)
more_fuel (suc k) zero r i v hk hl = absurd (omega arith)
more_fuel (suc k) (suc l) r i v hk hl = elim (Bool-cases (ltb r.offset (length r.buf))) [
  | inl some_left ↦
      let (chunk, found) = get_elem?-lt r.buf r.offset (ground arith) in
      let v' = bit_or v (u64 (bit_and chunk 127 * 2 ^ (i * 7))) in
      let rest =
        more_fuel k l (record r { offset = r.offset + 1 }) (i + 1) v' (ground arith)
          (ground arith) in
      rw (found, rest) refl
  | inr over ↦ rw (beyond r.buf r.offset (ground arith)) refl
]

-- A round that does not run out of fuel, if the next one does not.
round_ends :
    (refused stop : Bool) (v : ℕ) (r : Fast.Reader) (rest : Result (ℕ × Fast.Reader))
    → rest ≢ err out_of_fuel
    → (if refused then panic else if stop then ok (v, r) else rest) ≢ err out_of_fuel
round_ends true stop v r rest ends = λ h. cc
round_ends false true v r rest ends = λ h. cc
round_ends false false v r rest ends = ends

never_out_of_fuel :
    (k : ℕ) (r : Fast.Reader) (i v : ℕ) → unread r < k → read_compact_fuel k r i v ≢ err out_of_fuel
unfolding read_compact_fuel Fast.read_byte
never_out_of_fuel zero r i v h = absurd (omega arith)
never_out_of_fuel (suc k) r i v h = elim (Bool-cases (ltb r.offset (length r.buf))) [
  | inl some_left ↦
      let (chunk, found) = get_elem?-lt r.buf r.offset (ground arith) in
      let v' = bit_or v (u64 (bit_and chunk 127 * 2 ^ (i * 7))) in
      let r' : Fast.Reader = record r { offset = r.offset + 1 } in
      rw found (round_ends _ _ v' r' _ (never_out_of_fuel k r' (i + 1) v' (ground arith)))
  | inr over ↦ rw (beyond r.buf r.offset (ground arith)) (λ stuck. cc)
]

-- The loop of `readUint64Compact` ends on every input: with more fuel than there are bytes left it
-- never runs out of it, and any such fuel gives the same result.
pub read_compact_fuel_enough :
    (k l : ℕ) (r : Fast.Reader) (i v : ℕ)
    → unread r < k
    → unread r < l
    → (read_compact_fuel k r i v ≢ err out_of_fuel)
      × (read_compact_fuel k r i v ≡ read_compact_fuel l r i v)
read_compact_fuel_enough k l r i v hk hl = (never_out_of_fuel k r i v hk, more_fuel k l r i v hk hl)

-- A number has one sequence of groups.
Groups-unique : {v : ℕ} {gs gs' : List ℕ} → Groups v gs → Groups v gs' → gs ≡ gs'
Groups-unique (last h) (last h') = refl
Groups-unique (last h) (next big g) = absurd (omega arith)
Groups-unique (next big g) (last h) = absurd (omega arith)
Groups-unique (next {v} big g) (next big' g') = ap (λ t. (v % 128) ∷ t) (Groups-unique g g')

Groups-lt : (k : ℕ) {v : ℕ} {gs : List ℕ} → Groups v gs → length gs ≤ k → v < 128 ^ k
Groups-lt zero g few = absurd (omega (arith, length-Groups_pos g))
Groups-lt (suc k) (last h) few = omega (arith, pow-suc 128 k, one-le-pow k 128)
Groups-lt (suc k) (next big g) few = omega (arith, pow-suc 128 k, Groups-lt k g (omega arith))

-- The groups that the loop took, of a number above the `acc` read before.
record Taken (r r' : Fast.Reader) (i acc v : ℕ) : Type 0 where
  number : ℕ
  groups : List ℕ
  rest : List ℕ
  is_groups : Groups number groups
  sum : v ≡ acc + number * 2 ^ (i * 7)
  positive : (i ≡ 0) ⊎ (0 < number)
  bytes : drop r.offset r.buf ≡ groups ++ rest
  position : r'.offset ≡ r.offset + length groups

of_last_group :
    (r r' : Fast.Reader) (i acc v c : ℕ)
    → 128 ≤ c
    → c < 256
    → (i ≡ 0) ⊎ (0 < c % 128)
    → drop r.offset r.buf ≡ c ∷ drop (suc r.offset) r.buf
    → v ≡ acc + c % 128 * 2 ^ (i * 7)
    → r' ≡ record r { offset = r.offset + 1 }
    → Taken r r' i acc v
of_last_group r r' i acc v c flagged c_lt positive dropped sum e =
    let byte : c % 128 + 128 ≡ c = omega arith in
    record {
      number = c % 128;
      groups = c ∷ [];
      rest = drop (suc r.offset) r.buf;
      is_groups = subst (λ t. Groups (c % 128) (t ∷ [])) byte (last (omega arith));
      sum = sum;
      positive = positive;
      bytes = dropped;
      position = ap (λ (t : Fast.Reader). t.offset) e;
    }

of_next_group :
    (r r' : Fast.Reader) (i acc v c : ℕ)
    → c < 128
    → drop r.offset r.buf ≡ c ∷ drop (suc r.offset) r.buf
    → Taken (record r { offset = r.offset + 1 }) r' (i + 1) (acc + c * 2 ^ (i * 7)) v
    → Taken r r' i acc v
of_next_group r r' i acc v c c_lt dropped t =
    let n = c + 128 * t.number in
    let low : n % 128 ≡ c = omega arith in
    let high : n / 128 ≡ t.number = omega arith in
    let p = 2 ^ (i * 7) in
    let some_number : 0 < t.number = elim t.positive [
      | inl start ↦ absurd (omega arith)
      | inr h ↦ h
    ] in
    let tail : drop (suc r.offset) r.buf ≡ t.groups ++ t.rest =
      ap (λ k. drop k r.buf) {x = suc r.offset} {y = r.offset + 1} (omega arith) ∙ t.bytes in
    record {
      number = n;
      groups = c ∷ t.groups;
      rest = t.rest;
      is_groups =
          subst (λ k. Groups n (k ∷ t.groups)) low
            (next (omega arith) (subst (λ k. Groups k t.groups) (sym high) t.is_groups));
      sum = omega (
        arith,
        t.sum,
        spread n p,
        ap (λ k. k * p) low,
        ap (λ k. k * (128 * p)) high,
        ap (λ k. t.number * k) (next_power i),
      );
      positive = inr (omega arith);
      bytes = dropped ∙ ap (λ k. c ∷ k) tail;
      position = omega (arith, t.position);
    }

-- A group of the first nine does not wrap around.
group_fits : (i c : ℕ) → i < 9 → c < 128 → c * 2 ^ (i * 7) < 2 ^ 63
group_fits i c few small = omega (
  arith,
  fields_lt (i * 7) 7 ((i + 1) * 7) 0 c (omega arith) (power_pos (i * 7)) small,
  pow-le-pow_right {n = 2} (omega arith) {i = (i + 1) * 7} {j = 63} (omega arith),
)

read_compact_fuel-Taken :
    (fuel : ℕ) (r r' : Fast.Reader) (i acc v : ℕ)
    → All IsByte r.buf
    → i + unread r ≤ 9
    → acc < 2 ^ (i * 7)
    → read_compact_fuel fuel r i acc ≡ ok (v, r')
    → Taken r r' i acc v
unfolding read_compact_fuel Fast.read_byte
read_compact_fuel-Taken zero r r' i acc v bytes few low run = absurd (cc)
read_compact_fuel-Taken (suc fuel) r r' i acc v bytes few low run =
    elim (byte_at r.buf r.offset bytes) [
      | inl over ↦
          let none_left =
            beyond r.buf r.offset (omega (arith, ap length over, length-drop r.offset r.buf)) in
          let stuck = rw none_left at run in absurd (cc)
      | inr (c, found, c_lt, dropped) ↦
          let some_left : r.offset < length r.buf =
            omega (arith, ap length dropped, length-drop r.offset r.buf) in
          let word = low_group c in
          let fits = group_fits i (c % 128) (omega arith) (omega arith) in
          let added = add_group acc (c % 128) i low (omega arith) in
          elim (Bool-cases (leb 128 c)) [
            | inl flagged ↦
                let flag : nat_bne (bit_and c 128) 0 ≡ true = ground (arith, flag_lem c c_lt) in
                let run' = rw (found, flag, word, added) at run in
                elim (Bool-cases (ltb 0 i && true && nat_beq (c % 128) 0)) [
                  | inl padded ↦ let refused = rw padded at run' in absurd (cc)
                  | inr minimal ↦
                      let pair = ok-injective (rw minimal at run') in
                      of_last_group r r' i acc v c (ground arith) c_lt (ground arith) dropped
                        (ap (λ (t : ℕ × Fast.Reader). t.0) (sym pair))
                        (ap (λ (t : ℕ × Fast.Reader). t.1) (sym pair))
                ]
            | inr open_group ↦
                let small : c < 128 = ground arith in
                let flag : nat_bne (bit_and c 128) 0 ≡ false = ground (arith, flag_lem c c_lt) in
                let whole : c % 128 ≡ c = omega arith in
                let run' =
                  rw (found, flag, word, added, whole, and_false (ltb 0 i) (nat_beq c 0)) at run in
                of_next_group r r' i acc v c small dropped (
                  read_compact_fuel-Taken fuel (record r { offset = r.offset + 1 }) r' (i + 1)
                    (acc + c * 2 ^ (i * 7)) v bytes (omega arith)
                    (fields_lt (i * 7) 7 ((i + 1) * 7) acc c (omega arith) low small) run')
          ]
    ]

-- At most nine bytes are read as a number only if they begin with what the writer writes for this
-- number, and the reader is right behind it.
pub write_uint64_compact-read_uint64_compact :
    (buf : List ℕ) (v : ℕ) (r : Fast.Reader)
    → All IsByte buf
    → length buf ≤ 9
    → read_uint64_compact (Fast.new_reader buf) ≡ ok (v, r)
    → write_uint64_compact [] v ≡ ok (take r.offset buf)
unfolding read_uint64_compact
write_uint64_compact-read_uint64_compact buf v r bytes few run =
    let t =
      read_compact_fuel-Taken (suc (length buf)) (Fast.new_reader buf) r 0 0 v bytes (omega arith)
        (omega arith) run in
    let value : v ≡ t.number = omega (arith, t.sum) in
    let count : r.offset ≡ length t.groups = omega (arith, t.position) in
    let size = ap length t.bytes ∙ length-append t.groups t.rest in
    let below = Groups-lt 9 t.is_groups (omega arith) in
    let (gs, writes, g) = write_uint64_compact-Groups [] v (omega arith) in
    let same : gs ≡ t.groups =
      Groups-unique g (subst (λ k. Groups k t.groups) (sym value) t.is_groups) in
    let front : take r.offset buf ≡ t.groups =
      ap₂ take count t.bytes ∙ take-append t.groups t.rest in
    writes ∙ ap ok (same ∙ sym front)
