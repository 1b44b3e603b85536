-- ===== src/Utils/Cser/Adapter.antt =====
-- utils/cser/binary.go: a value that is encoded to bytes is decoded from them.
use go_opera.Base.{ℕ, zero, suc, ◌-◌, ◌^◌, ◌≤◌, ◌<◌, ◌≡◌, refl, sym, arith, ap, ◌∙◌}
use go_opera.Base.{List, [], ◌∷◌, ◌++◌, false, inl, inr, length, length-append, take, drop}
use go_opera.Base.{Result, ok, >>=-ok, ltb, Bool-cases}
use go_opera.Utils.Bits
use go_opera.Utils.Bits.Stream.{low_bits}
use go_opera.Utils.Bits.RoundTrip.{new_writer-Holds, Holds-Padded, new_reader-Ahead, padding_lem}
use go_opera.Utils.Fast
use go_opera.Utils.Fast.Cursor
use go_opera.Utils.Cser.{Writer, Reader, new_writer, read_uint64_compact}
use go_opera.Utils.Cser.Binary.{
  tail, reversed, binary_from_cser, binary_to_cser, marshal_binary_adapter, all_read,
  unmarshal_binary_adapter,
}
use go_opera.Utils.Cser.Compact.{
  length-Groups_le, write_uint64_compact-Groups, read_uint64_compact-Groups,
}
use go_opera.Utils.Cser.Codec.{Ahead, Coded}
use mathlib.Core.List.{append_assoc, append-nil}

take-append_at : (xs ys : List ℕ) (n : ℕ) → n ≡ length xs → take n (xs ++ ys) ≡ xs
take-append_at xs ys n e = ap (λ t. take t (xs ++ ys)) e ∙ go xs
  where
    go : (xs : List ℕ) → take (length xs) (xs ++ ys) ≡ xs
    go [] = refl
    go (x ∷ xs) = ap (λ t. x ∷ t) (go xs)

drop-append_at : (xs ys : List ℕ) (n : ℕ) → n ≡ length xs → drop n (xs ++ ys) ≡ ys
drop-append_at xs ys n e = ap (λ t. drop t (xs ++ ys)) e ∙ Cursor.drop-append xs ys

reversed-append : (xs ys : List ℕ) → reversed (xs ++ ys) ≡ reversed ys ++ reversed xs
unfolding reversed
reversed-append [] ys = sym (append-nil _)
reversed-append (x ∷ xs) ys =
    ap (λ t. t ++ (x ∷ [])) (reversed-append xs ys)
    ∙ append_assoc (reversed ys) (reversed xs) (x ∷ [])

reversed-reversed : (xs : List ℕ) → reversed (reversed xs) ≡ xs
unfolding reversed
reversed-reversed [] = refl
reversed-reversed (x ∷ xs) =
    reversed-append (reversed xs) (x ∷ []) ∙ ap (λ t. x ∷ t) (reversed-reversed xs)

length-reversed : (xs : List ℕ) → length (reversed xs) ≡ length xs
unfolding reversed
length-reversed [] = refl
length-reversed (x ∷ xs) = omega (arith, length-append (reversed xs) (x ∷ []), length-reversed xs)

drop-append_le : (n : ℕ) (xs ys : List ℕ) → n ≤ length xs → drop n (xs ++ ys) ≡ drop n xs ++ ys
drop-append_le zero xs ys h = refl
drop-append_le (suc n) [] ys h = absurd (omega arith)
drop-append_le (suc n) (x ∷ xs) ys h = drop-append_le n xs ys (omega arith)

-- A short end of a byte string lies in its tail.
tail-append :
    (xs ys : List ℕ) (most : ℕ)
    → length ys ≤ most
    → (zs : List ℕ) × (tail (xs ++ ys) most ≡ zs ++ ys)
unfolding tail
tail-append xs ys most h = elim (Bool-cases (ltb most (length (xs ++ ys)))) [
  | inl long ↦ (
    drop (length (xs ++ ys) - most) xs,
    rw long (drop-append_le _ xs ys (ground (arith, length-append xs ys))),
  )
  | inr short ↦ (xs, rw short refl)
]

-- Without the size, the bytes are the two arrays.
split_arrays :
    (bbits bbytes size : List ℕ) (r : Fast.Reader)
    → read_uint64_compact (Fast.new_reader (reversed (tail ((bbytes ++ bbits) ++ size) 9)))
      ≡ ok (length bbits, r)
    → r.offset ≡ length size
    → binary_to_cser ((bbytes ++ bbits) ++ size) ≡ ok (bbits, bbytes)
unfolding binary_to_cser
split_arrays bbits bbytes size r reads position =
    let raw = (bbytes ++ bbits) ++ size in
    let total = length-append (bbytes ++ bbits) size in
    let arrays : take (length raw - r.offset) raw ≡ bbytes ++ bbits =
      take-append_at (bbytes ++ bbits) size _ (omega arith) in
    let both = length-append bbytes bbits in
    let holds : ltb (length (bbytes ++ bbits)) (length bbits) ≡ false = ground arith in
    let split : length (bbytes ++ bbits) - length bbits ≡ length bbytes = omega arith in
    rw
      (
        reads,
        arrays,
        holds,
        split,
        drop-append_at bbytes bbits (length bbytes) refl,
        take-append_at bbytes bbits (length bbytes) refl,
      )
      refl

-- The two arrays are got back from the bytes that hold them.
pub binary_to_cser-binary_from_cser :
    (bbits bbytes : List ℕ)
    → length bbits < 2 ^ 63
    → (raw : List ℕ) × (binary_from_cser bbits bbytes ≡ ok raw)
      × (binary_to_cser raw ≡ ok (bbits, bbytes))
unfolding binary_from_cser binary_to_cser Fast.write
binary_to_cser-binary_from_cser bbits bbytes fits =
    let (gs, run, g) = write_uint64_compact-Groups [] (length bbits) (omega arith) in
    let short = length-Groups_le 9 (omega arith) (omega arith) g in
    let body = bbytes ++ bbits in
    let raw = body ++ reversed gs in
    let (zs, tailed) = tail-append body (reversed gs) 9 (omega (arith, length-reversed gs)) in
    let size_bytes : reversed (tail raw 9) ≡ gs ++ reversed zs =
      ap reversed tailed
      ∙ reversed-append zs (reversed gs)
      ∙ ap (λ t. t ++ reversed zs) (reversed-reversed gs) in
    let start : Cursor.Ahead (Fast.new_reader (reversed (tail raw 9))) (gs ++ reversed zs) =
      record { offset_le = omega arith; stream = size_bytes } in
    let room = ap length size_bytes ∙ length-append gs (reversed zs) in
    let (r', reads, _, position, _) =
      read_uint64_compact-Groups (Fast.new_reader (reversed (tail raw 9))) (reversed zs)
        (omega arith) (omega arith) g start in
    (
      raw,
      >>=-ok _ run,
      split_arrays bbits bbytes (reversed gs) r' reads (omega (arith, length-reversed gs)),
    )

all_read-padding :
    (r : Reader) (pad : ℕ) → pad < 8 → Ahead r (low_bits pad 0) [] → all_read r ≡ ok tt
unfolding all_read Bits.non_read_bits
all_read-padding r pad h ahead =
    let (count, (r', zeros)) = padding_lem r.bits_r pad h ahead.bits_Ahead in
    let few : ltb 1 (Bits.non_read_bytes r.bits_r) ≡ false =
      ground (arith, count, ahead.bits_Ahead.offset_lt) in
    rw (few, count, zeros, Cursor.empty_lem r.bytes_r ahead.bytes_Ahead) refl

-- The reader that the adapter makes.
abbrev reader_of : (raw spare : List ℕ) → Writer → Reader
reader_of raw spare w = record {
  bits_r = Bits.new_reader w.bits_w.bytes;
  bytes_r = Fast.slice_reader w.bytes_w (drop (length w.bytes_w) raw ++ spare);
}

decodes {ℓ} :
    {A : Type ℓ} (raw spare : List ℕ) (w : Writer) (get : Reader → Result (A × Reader)) (a : A)
    (r : Reader)
    → binary_to_cser raw ≡ ok (w.bits_w.bytes, w.bytes_w)
    → get (reader_of raw spare w) ≡ ok (a, r)
    → all_read r ≡ ok tt
    → unmarshal_binary_adapter raw spare get ≡ ok a
unfolding unmarshal_binary_adapter
decodes raw spare w get a r unpacks reads nothing_left = rw (unpacks, reads, nothing_left) refl

-- What an encoder writes, its decoder reads back, and nothing is left, whatever the capacity of the
-- slice of bytes holds besides.
pub unmarshal-marshal {ℓ} :
    {A : Type ℓ} (put : Writer → Result Writer) (get : Reader → Result (A × Reader)) (a : A)
    (spare : List ℕ)
    → Coded put get a
    → ((w : Writer) → put new_writer ≡ ok w → length w.bits_w.bytes < 2 ^ 63)
    → (raw : List ℕ) × (marshal_binary_adapter put ≡ ok raw)
      × (unmarshal_binary_adapter raw spare get ≡ ok a)
unfolding marshal_binary_adapter unmarshal_binary_adapter
unmarshal-marshal put get a spare coded fits =
    let (w, writes, held) =
      coded.puts new_writer [] [] (record { bits_Holds = new_writer-Holds; bytes_eq = refl }) in
    let padded = Holds-Padded w.bits_w coded.bits held.bits_Holds in
    let (raw, packs, unpacks) =
      binary_to_cser-binary_from_cser w.bits_w.bytes w.bytes_w (fits w writes) in
    let start : Reader = reader_of raw spare w in
    let (r, reads, ahead) = coded.gets start (low_bits padded.pad 0) [] (record {
      bits_Ahead = new_reader-Ahead w.bits_w.bytes coded.bits padded;
      bytes_Ahead = record { offset_le = omega arith; stream = held.bytes_eq ∙ sym (append-nil _) };
    }) in
    (
      raw,
      >>=-ok _ writes ∙ packs,
      decodes raw spare w get a r unpacks reads (all_read-padding r padded.pad padded.pad_lt ahead),
    )
