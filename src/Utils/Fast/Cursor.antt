-- ===== src/Utils/Fast/Cursor.antt =====
-- utils/fast/buffer.go: what a reader takes of the bytes ahead of it.
use go_opera.Base.{
  ℕ, zero, suc, ◌+◌, ◌-◌, ◌≤◌, ◌≡◌, refl, arith, ap, ◌∙◌, List, [], ◌∷◌, ◌++◌, true,
}
use go_opera.Base.{length, length-append, take, drop, get_elem?, some, leb, nat_beq_iff}
use go_opera.Base.{ok}
use mathlib.Core.List.{append_assoc}
use go_opera.Utils.Fast.{Reader, read, read_byte, empty}

module _ {ℓ} {A : Type ℓ} where
  pub length-drop : (n : ℕ) (xs : List A) → length (drop n xs) ≡ length xs - n
  length-drop zero xs = omega arith
  length-drop (suc n) [] = omega arith
  length-drop (suc n) (x ∷ xs) = omega (arith, length-drop n xs)

  drop-drop : (m n k : ℕ) (xs : List A) → n + m ≡ k → drop k xs ≡ drop m (drop n xs)
  drop-drop m zero k xs e = ap (λ t. drop t xs) (omega arith)
  drop-drop m (suc n) zero xs e = absurd (omega arith)
  drop-drop zero (suc n) (suc k) [] e = refl
  drop-drop (suc m) (suc n) (suc k) [] e = refl
  drop-drop m (suc n) (suc k) (x ∷ xs) e = drop-drop m n k xs (omega arith)

  pub take-append : (xs ys : List A) → take (length xs) (xs ++ ys) ≡ xs
  take-append [] ys = refl
  take-append (x ∷ xs) ys = ap (λ t. x ∷ t) (take-append xs ys)

  pub drop-append : (xs ys : List A) → drop (length xs) (xs ++ ys) ≡ ys
  drop-append [] ys = refl
  drop-append (x ∷ xs) ys = drop-append xs ys

  get_elem?-drop :
      (n : ℕ) (xs : List A) (y : A) (ys : List A) → drop n xs ≡ y ∷ ys → get_elem? xs n ≡ some y
  get_elem?-drop zero [] y ys e = absurd (cc)
  get_elem?-drop (suc n) [] y ys e = absurd (cc)
  get_elem?-drop zero (x ∷ xs) y ys e = cc
  get_elem?-drop (suc n) (x ∷ xs) y ys e = get_elem?-drop n xs y ys e

-- The bytes not read yet.
pub record Ahead (r : Reader) (s : List ℕ) : Type 0 where
  pub offset_le : r.offset ≤ length r.buf
  pub stream : drop r.offset r.buf ≡ s

total_length : (r : Reader) (s : List ℕ) → Ahead r s → r.offset + length s ≡ length r.buf
total_length r s h = omega (arith, h.offset_le, ap length h.stream, length-drop r.offset r.buf)

after-Ahead :
    (r : Reader) (bs rest : List ℕ)
    → Ahead r (bs ++ rest)
    → Ahead (record r { offset = r.offset + length bs }) rest
after-Ahead r bs rest h = record {
  offset_le = omega (arith, total_length r (bs ++ rest) h, length-append bs rest);
  stream =
      drop-drop (length bs) r.offset _ r.buf refl
      ∙ ap (drop (length bs)) h.stream
      ∙ drop-append bs rest;
}

drop-append_short : (n : ℕ) (xs ys : List ℕ) → n ≤ length xs → drop n (xs ++ ys) ≡ drop n xs ++ ys
drop-append_short zero xs ys h = refl
drop-append_short (suc n) [] ys h = absurd (omega arith)
drop-append_short (suc n) (x ∷ xs) ys h = drop-append_short n xs ys (omega arith)

-- `Read` gives the next bytes, whatever lies between the slice's length and its capacity.
pub read_lem :
    (r : Reader) (bs rest : List ℕ) (n : ℕ)
    → n ≡ length bs
    → Ahead r (bs ++ rest)
    → (r' : Reader) × (read r n ≡ ok (bs, r')) × Ahead r' rest
unfolding read
read_lem r bs rest n e h =
    let room : leb (r.offset + length bs) (length (r.buf ++ r.spare)) ≡ true =
      ground (
        arith,
        total_length r (bs ++ rest) h,
        length-append bs rest,
        length-append r.buf r.spare,
      ) in
    let front : take (length bs) (drop r.offset (r.buf ++ r.spare)) ≡ bs =
      ap (take (length bs)) (
        drop-append_short r.offset r.buf r.spare h.offset_le
        ∙ ap (λ t. t ++ r.spare) h.stream
        ∙ append_assoc bs rest r.spare)
      ∙ take-append bs (rest ++ r.spare) in
    (record r { offset = r.offset + length bs }, rw (e, room, front) refl, after-Ahead r bs rest h)

pub read_byte_lem :
    (r : Reader) (b : ℕ) (rest : List ℕ)
    → Ahead r (b ∷ rest)
    → (read_byte r ≡ ok (b, record r { offset = r.offset + 1 }))
      × Ahead (record r { offset = r.offset + 1 }) rest
unfolding read_byte
read_byte_lem r b rest h =
    (rw (get_elem?-drop r.offset r.buf b rest h.stream) refl, after-Ahead r (b ∷ []) rest h)

pub empty_lem : (r : Reader) → Ahead r [] → empty r ≡ true
unfolding empty
empty_lem r h = (nat_beq_iff _ _).1 (omega (arith, total_length r [] h))
