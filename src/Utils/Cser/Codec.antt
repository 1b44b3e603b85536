-- ===== src/Utils/Cser/Codec.antt =====
-- Encoders with their decoders: what one adds to the two arrays, the other takes from them.
use go_opera.Base.{ℕ, ◌≡◌, refl, sym, ap, ◌∙◌}
use go_opera.Base.{
  List, [], ◌++◌, Bool, false, Result, ok, err, panic, Error, fail_if, ◌>>=◌, ◌>>◌, >>=-ok,
}
use go_opera.Utils.Bits.Writing
use go_opera.Utils.Bits.Reading
use go_opera.Utils.Bits.Stream.{low_bits}
use go_opera.Utils.Fast.Cursor
use go_opera.Utils.Cser.{Writer, Reader}
use mathlib.Core.List.{append_assoc, append-nil}
use mathlib.Core.Path.{subst, subst₂}

-- What a writer holds.
pub record Holds (w : Writer) (bits : List Bool) (bytes : List ℕ) : Type 0 where
  pub bits_Holds : Writing.Holds w.bits_w bits
  pub bytes_eq : w.bytes_w ≡ bytes

-- What is ahead of a reader.
pub record Ahead (r : Reader) (bits : List Bool) (bytes : List ℕ) : Type 0 where
  pub bits_Ahead : Reading.Ahead r.bits_r bits
  pub bytes_Ahead : Cursor.Ahead r.bytes_r bytes

Holds-assoc :
    {w : Writer} (s s1 s2 : List Bool) (b b1 b2 : List ℕ)
    → Holds w ((s ++ s1) ++ s2) ((b ++ b1) ++ b2)
    → Holds w (s ++ (s1 ++ s2)) (b ++ (b1 ++ b2))
Holds-assoc {w} s s1 s2 b b1 b2 h = subst₂ (Holds w) (append_assoc s s1 s2) (append_assoc b b1 b2) h

Ahead-assoc :
    {r : Reader} (s s1 s2 : List Bool) (b b1 b2 : List ℕ)
    → Ahead r ((s1 ++ s2) ++ s) ((b1 ++ b2) ++ b)
    → Ahead r (s1 ++ (s2 ++ s)) (b1 ++ (b2 ++ b))
Ahead-assoc {r} s s1 s2 b b1 b2 h = subst₂ (Ahead r) (append_assoc s1 s2 s) (append_assoc b1 b2 b) h

Holds-nil : {w : Writer} (s : List Bool) (b : List ℕ) → Holds w s b → Holds w (s ++ []) (b ++ [])
Holds-nil {w} s b h = subst₂ (Holds w) (sym (append-nil s)) (sym (append-nil b)) h

-- `put` writes `a`, and `get` reads it back, whatever comes before and after.
pub record Coded {ℓ} {A : Type ℓ} (put : Writer → Result Writer)
    (get : Reader → Result (A × Reader)) (a : A) : Type ℓ where
  pub bits : List Bool
  pub bytes : List ℕ
  pub puts :
      (w : Writer) (s : List Bool) (b : List ℕ)
      → Holds w s b
      → (w' : Writer) × (put w ≡ ok w') × Holds w' (s ++ bits) (b ++ bytes)
  pub gets :
      (r : Reader) (s : List Bool) (b : List ℕ)
      → Ahead r (bits ++ s) (bytes ++ b)
      → (r' : Reader) × (get r ≡ ok (a, r')) × Ahead r' s b

then_puts {ℓ κ} :
    {A : Type ℓ} {B : Type κ} {put1 put2 : Writer → Result Writer}
    {get1 : Reader → Result (A × Reader)} {get2 : Reader → Result (B × Reader)} {a : A} {b : B}
    (first : Coded put1 get1 a) (second : Coded put2 get2 b) (w : Writer) (s : List Bool)
    (bs : List ℕ)
    → Holds w s bs
    → (w' : Writer) × ((put1 w >>= put2) ≡ ok w')
      × Holds w' (s ++ (first.bits ++ second.bits)) (bs ++ (first.bytes ++ second.bytes))
then_puts first second w s b h =
    let (w1, run1, h1) = first.puts w s b h in
    let (w2, run2, h2) = second.puts w1 _ _ h1 in
    (w2, rw run1 run2, Holds-assoc s first.bits second.bits b first.bytes second.bytes h2)

-- One after the other.
pub Coded-then {ℓ κ} :
    {A : Type ℓ} {B : Type κ} {put1 put2 : Writer → Result Writer}
    {get1 : Reader → Result (A × Reader)} {a : A} {b : B} (next : A × Reader → Result (B × Reader))
    → Coded put1 get1 a
    → Coded put2 (λ r. next (a, r)) b
    → Coded (λ w. put1 w >>= put2) (λ r. get1 r >>= next) b
Coded-then next first second = record {
  bits = first.bits ++ second.bits;
  bytes = first.bytes ++ second.bytes;
  puts = then_puts first second;
  gets = λ r s b h.
      let (r1, run1, h1) =
        first.gets r (second.bits ++ s) (second.bytes ++ b)
          (Ahead-assoc s first.bits second.bits b first.bytes second.bytes h) in
      let (r2, run2, h2) = second.gets r1 s b h1 in (r2, rw run1 run2, h2);
}

-- The same encoder and decoder, written otherwise.
pub Coded-as {ℓ} :
    {A : Type ℓ} {put put' : Writer → Result Writer} {get get' : Reader → Result (A × Reader)}
    {a : A}
    → ((w : Writer) → put' w ≡ put w)
    → ((r : Reader) → get' r ≡ get r)
    → Coded put get a
    → Coded put' get' a
Coded-as same_put same_get c = record {
  bits = c.bits;
  bytes = c.bytes;
  puts = λ w s b h. let (w', run, held) = c.puts w s b h in (w', same_put w ∙ run, held);
  gets = λ r s b h. let (r', run, ahead) = c.gets r s b h in (r', same_get r ∙ run, ahead);
}

-- A check that passes, in a decoder.
pub Coded-check {ℓ} :
    {A : Type ℓ} {put : Writer → Result Writer} {get : Reader → Result (A × Reader)} {a : A}
    (b : Bool) (e : Error)
    → b ≡ false
    → Coded put get a
    → Coded put (λ r. fail_if b e >> get r) a
Coded-check b e passes c = Coded-as (λ w. refl) (λ r. rw passes refl) c

-- A decoder that goes on after `get` without reading.
pub Coded-post {ℓ κ} :
    {A : Type ℓ} {B : Type κ} {put : Writer → Result Writer} {get : Reader → Result (A × Reader)}
    {a : A} {b : B} (next : A × Reader → Result (B × Reader))
    → Coded put get a
    → ((r : Reader) → next (a, r) ≡ ok (b, r))
    → Coded put (λ r. get r >>= next) b
Coded-post next c goes_on = record {
  bits = c.bits;
  bytes = c.bytes;
  puts = c.puts;
  gets =
      λ r s b h. let (r', run, ahead) = c.gets r s b h in (r', >>=-ok next run ∙ goes_on r', ahead);
}

-- As `Coded-then`, for a decoder that first looks at the next bits.
pub Coded-marked {ℓ κ} :
    {A : Type ℓ} {B : Type κ} {put1 put2 : Writer → Result Writer}
    {get1 : Reader → Result (A × Reader)} {a : A} {b : B} (next : A × Reader → Result (B × Reader))
    (get : Reader → Result (B × Reader)) (m k : ℕ) (more : List Bool)
    → (first : Coded put1 get1 a) → first.bits ≡ low_bits m k ++ more
    → Coded put2 (λ r. next (a, r)) b
    → ((r : Reader) (s : List Bool)
        → Reading.Ahead r.bits_r (low_bits m k ++ s)
        → get r ≡ (get1 r >>= next))
    → Coded (λ w. put1 w >>= put2) get b
Coded-marked next get m k more first mark second looked = record {
  bits = first.bits ++ second.bits;
  bytes = first.bytes ++ second.bytes;
  puts = then_puts first second;
  gets = λ r s b h.
      let (r1, run1, h1) =
        first.gets r (second.bits ++ s) (second.bytes ++ b)
          (Ahead-assoc s first.bits second.bits b first.bytes second.bytes h) in
      let (r2, run2, h2) = second.gets r1 s b h1 in
      let front = (Ahead-assoc s first.bits second.bits b first.bytes second.bytes h).bits_Ahead in
      let marked =
        subst (Reading.Ahead r.bits_r)
          (ap (λ t. t ++ (second.bits ++ s)) mark
            ∙ append_assoc (low_bits m k) more (second.bits ++ s))
          front in
      (r2, looked r _ marked ∙ >>=-ok next run1 ∙ run2, h2);
}

-- Two values in a row, and what they are in the bit array.
pub Coded-pair {ℓ κ} :
    {A : Type ℓ} {B : Type κ} {put1 put2 : Writer → Result Writer}
    {get1 : Reader → Result (A × Reader)} {get2 : Reader → Result (B × Reader)} {a : A} {b : B}
    (first : Coded put1 get1 a) (second : Coded put2 get2 b)
    → (c : Coded {A = A × B}
        (λ w. put1 w >>= put2)
        (λ r. get1 r >>= (λ p. get2 p.1 >>= (λ q. ok ((p.0, q.0), q.1))))
        (a, b))
      × (c.bits ≡ first.bits ++ second.bits)
Coded-pair first second = (
  record {
    bits = first.bits ++ second.bits;
    bytes = first.bytes ++ second.bytes;
    puts = then_puts first second;
    gets = λ r s b h.
        let (r1, run1, h1) =
          first.gets r (second.bits ++ s) (second.bytes ++ b)
            (Ahead-assoc s first.bits second.bits b first.bytes second.bytes h) in
        let (r2, run2, h2) = second.gets r1 s b h1 in (r2, >>=-ok _ run1 ∙ >>=-ok _ run2, h2);
  },
  refl,
)

paired {ℓ κ μ} :
    {A : Type ℓ} {B : Type κ} {C : Type μ} (a : A) (m : Result (B × Reader))
    (next : (A × B) × Reader → Result C)
    → (m >>= (λ q. next ((a, q.0), q.1))) ≡ ((m >>= (λ q. ok ((a, q.0), q.1))) >>= next)
paired a (ok q) next = refl
paired a (err e) next = refl
paired a panic next = refl

-- A decoder that goes on after two values.
pub after_pair {ℓ κ μ} :
    {A : Type ℓ} {B : Type κ} {C : Type μ} (m : Result (A × Reader))
    (get2 : Reader → Result (B × Reader)) (next : (A × B) × Reader → Result C)
    → (m >>= (λ p. get2 p.1 >>= (λ q. next ((p.0, q.0), q.1))))
      ≡ ((m >>= (λ p. get2 p.1 >>= (λ q. ok ((p.0, q.0), q.1)))) >>= next)
after_pair (ok p) get2 next = paired p.0 (get2 p.1) next
after_pair (err e) get2 next = refl
after_pair panic get2 next = refl

-- Nothing is written.
pub Coded-pure {ℓ} : {A : Type ℓ} (a : A) → Coded (λ w. ok w) (λ r. ok (a, r)) a
Coded-pure a = record {
  bits = [];
  bytes = [];
  puts = λ w s b h. (w, refl, Holds-nil s b h);
  gets = λ r s b h. (r, refl, h);
}
