-- ===== src/Utils/Bits/RoundTrip.antt =====
-- utils/bits/bits.go: what is written number by number is read back, up to the padding.
use go_opera.Base.{ℕ, ◌+◌, ◌-◌, ◌*◌, ◌^◌, ◌<◌, ◌≡◌, refl, sym, arith, ap, ◌∙◌}
use go_opera.Base.{List, [], ◌∷◌, ◌++◌, map, Bool, inl, inr, All, Result, ok, ◌>>=◌, nat_beq}
use go_opera.Base.{Bool-cases, nat_beq_iff}
use go_opera.Utils.Bits.{Writer, Reader, new_writer, new_reader, write, read, non_read_bits}
use go_opera.Utils.Bits.Stream.{
  low_bits, bits_of, IsByte, length-low_bits, bits_of_last, power_pos, low_bits_fields,
}
use go_opera.Utils.Bits.Writing.{Holds, write_lem, All-append_one}
use go_opera.Utils.Bits.Reading.{Ahead, read_lem, non_read_bits_lem}
use mathlib.Core.Path.{subst}
use native.Mathlib.Nat.{pow-le-pow_right}
use mathlib.Core.List.{append-nil, append_assoc}

pub new_writer-Holds : Holds new_writer []
unfolding bits_of low_bits
new_writer-Holds = record {
  full = [];
  last = 0;
  full_IsByte = tt;
  offset_lt = omega arith;
  last_lt = omega arith;
  layout = refl;
  stream = refl;
}

-- The bytes of a writer: its bits, and less than a byte of zeros.
pub record Padded (bytes : List ℕ) (s : List Bool) : Type 0 where
  pub pad : ℕ
  pub pad_lt : pad < 8
  pub bytes_IsByte : All IsByte bytes
  pub bits : bits_of bytes ≡ s ++ low_bits pad 0

pub Holds-Padded : (w : Writer) (s : List Bool) → Holds w s → Padded w.bytes s
unfolding low_bits bits_of
Holds-Padded w s h = elim (Bool-cases (nat_beq w.bit_offset 0)) [
  | inl fresh ↦
      let layout : w.bytes ≡ h.full = h.layout ∙ rw fresh refl in
      let start : w.bit_offset ≡ 0 = (nat_beq_iff _ _).0 fresh in
      record {
        pad = 0;
        pad_lt = omega arith;
        bytes_IsByte = subst (All IsByte) (sym layout) h.full_IsByte;
        bits =
            ap bits_of layout
            ∙ sym (append-nil _)
            ∙ ap (λ k. bits_of h.full ++ low_bits k h.last) (sym start)
            ∙ sym h.stream
            ∙ sym (append-nil s);
      }
  | inr open_byte ↦
      let layout : w.bytes ≡ h.full ++ (h.last ∷ []) = h.layout ∙ rw open_byte refl in
      let o = w.bit_offset in
      let last_lt : h.last < 256 = omega (
        arith,
        h.last_lt,
        pow-le-pow_right {n = 2} (omega arith) {i = o} {j = 8} (omega (arith, h.offset_lt)),
      ) in
      let some_bits : 0 < o = ground (arith, nat_beq_iff o 0) in
      record {
        pad = 8 - o;
        pad_lt = omega arith;
        bytes_IsByte =
            subst (All IsByte) (sym layout) (All-append_one h.full h.last h.full_IsByte last_lt);
        bits =
            ap bits_of layout
            ∙ sym (append-nil _)
            ∙ bits_of_last h.full h.last
            ∙ ap (λ b. bits_of h.full ++ low_bits 8 b) {y = h.last + 0 * 2 ^ o} (omega arith)
            ∙ ap (λ t. bits_of h.full ++ t)
                (low_bits_fields o (8 - o) 8 h.last 0 (omega (arith, h.offset_lt)) h.last_lt)
            ∙ sym (append_assoc (bits_of h.full) _ _)
            ∙ ap (λ t. t ++ low_bits (8 - o) 0) (sym h.stream);
      }
]

-- The reader of a padded array.
pub new_reader-Ahead :
    (bytes : List ℕ) (s : List Bool)
    → (p : Padded bytes s) → Ahead (new_reader bytes) (s ++ low_bits p.pad 0)
new_reader-Ahead bytes s p = record {
  bytes_IsByte = p.bytes_IsByte;
  offset_lt = omega arith;
  stream = p.bits;
}

-- A number and its number of bits.
abbrev pub Field : Type 0
Field = ℕ × ℕ

abbrev pub IsField : Field → Type 0
IsField f = (0 < f.0) × (f.1 < 2 ^ f.0) × (f.1 < 2 ^ 64)

unfoldable pub write_fields : Writer → List Field → Result Writer
write_fields w [] = ok w
write_fields w ((m, v) ∷ fs) = do w' ← write w m v; write_fields w' fs

unfoldable pub read_fields : Reader → List ℕ → Result (List ℕ × Reader)
read_fields r [] = ok ([], r)
read_fields r (m ∷ ms) = do (v, r') ← read r m; (vs, last) ← read_fields r' ms; ok (v ∷ vs, last)

fields_bits : List Field → List Bool
fields_bits [] = []
fields_bits ((m, v) ∷ fs) = low_bits m v ++ fields_bits fs

write_fields-Holds :
    (w : Writer) (s : List Bool) (fs : List Field)
    → Holds w s
    → All IsField fs
    → (w' : Writer) × (write_fields w fs ≡ ok w') × Holds w' (s ++ fields_bits fs)
unfolding write_fields fields_bits
write_fields-Holds w s [] h tt = (w, refl, subst (Holds w) (sym (append-nil s)) h)
write_fields-Holds w s ((m, v) ∷ fs) h (f, rest) =
    let (w', run, h') = write_lem w s h m v f.0 f.1 in
    let (last, runs, held) = write_fields-Holds w' (s ++ low_bits m v) fs h' rest in
    (last, rw run runs, subst (Holds last) (append_assoc s _ _) held)

read_fields-Ahead :
    (r : Reader) (fs : List Field) (s : List Bool)
    → All IsField fs
    → Ahead r (fields_bits fs ++ s)
    → (r' : Reader) × (read_fields r (map (λ f. f.0) fs) ≡ ok (map (λ f. f.1) fs, r')) × Ahead r' s
unfolding read_fields fields_bits
read_fields-Ahead r [] s tt h = (r, refl, h)
read_fields-Ahead r ((m, v) ∷ fs) s (f, rest) h =
    let (r', run, h') =
      read_lem r m v (fields_bits fs ++ s) f.1 f.2
        (subst (Ahead r) (append_assoc (low_bits m v) _ _) h) in
    let (last, runs, ahead) = read_fields-Ahead r' fs s rest h' in
    (last, rw (run, runs) refl, ahead)

-- Less than a byte of zeros ahead.
pub padding_lem :
    (r : Reader) (pad : ℕ)
    → pad < 8
    → Ahead r (low_bits pad 0)
    → (non_read_bits r ≡ pad) × ((r' : Reader) × (read r pad ≡ ok (0, r')))
padding_lem r pad h ahead =
    let (r', run, done) =
      read_lem r pad 0 [] (power_pos pad) (omega arith)
        (subst (Ahead r) (sym (append-nil _)) ahead) in
    (non_read_bits_lem r _ ahead ∙ length-low_bits pad 0, (r', run))

-- Numbers that fit their bits, of at least one bit each, are written without a panic; a reader of
-- the array reads back the same numbers, and then less than a byte is left, which is zero.
pub read_fields-write_fields :
    (fs : List Field)
    → All IsField fs
    → (w : Writer) × (write_fields new_writer fs ≡ ok w)
      × ((r : Reader) × (read_fields (new_reader w.bytes) (map (λ f. f.0) fs)
            ≡ ok (map (λ f. f.1) fs, r))
          × (non_read_bits r < 8)
          × ((r' : Reader) × (read r (non_read_bits r) ≡ ok (0, r'))))
read_fields-write_fields fs fields =
    let (w, writes, held) = write_fields-Holds new_writer [] fs new_writer-Holds fields in
    let padded = Holds-Padded w _ held in
    let (r, reads, ahead) =
      read_fields-Ahead (new_reader w.bytes) fs _ fields (new_reader-Ahead w.bytes _ padded) in
    let (count, (r', zeros)) = padding_lem r padded.pad padded.pad_lt ahead in
    (w, writes, (r, reads, subst (λ k. k < 8) (sym count) padded.pad_lt, (r', rw count zeros)))
