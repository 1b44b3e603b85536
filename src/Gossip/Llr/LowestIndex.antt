-- ===== src/Gossip/Llr/LowestIndex.antt =====
-- The search of `actualizeLowestIndex`: it ends, at the first index that is free.
use go_opera.Base.{ℕ, zero, suc, ◌+◌, ◌≤◌, ◌<◌, ◌^◌, List, [], ◌∷◌, Bool, true, false, ◌≡◌, ◌≢◌}
use go_opera.Base.{arith, length, if◌then◌else◌, leb, nat_beq, nat_beq_iff, u64}
use go_opera.Base.{is_some, lookup, nat_eq, Bool-cases, inl, inr}
use go_opera.Gossip.Llr.{skip_existing, actualize_lowest_index}

-- The entries with a key from `c` on.
unfoldable pub count_from : {V : Type 0} → List (ℕ × V) → ℕ → ℕ
count_from [] c = 0
count_from ((k, v) ∷ m) c = (if leb c k then 1 else 0) + count_from m c

pub count_from-le : {V : Type 0} (m : List (ℕ × V)) (c : ℕ) → count_from m c ≤ length m
unfolding count_from
count_from-le [] c = omega arith
count_from-le ((k, v) ∷ m) c = ground (arith, count_from-le m c)

count_from-suc_le : {V : Type 0} (m : List (ℕ × V)) (c : ℕ) → count_from m (suc c) ≤ count_from m c
unfolding count_from
count_from-suc_le [] c = omega arith
count_from-suc_le ((k, v) ∷ m) c = ground (arith, count_from-suc_le m c)

-- Past a key of the map there are fewer entries.
pub count_from-suc :
    {V : Type 0} (m : List (ℕ × V)) (c : ℕ)
    → is_some (lookup c m) ≡ true
    → count_from m (suc c) < count_from m c
unfolding count_from lookup
count_from-suc [] c h = cc
count_from-suc ((k, v) ∷ m) c h = ground (arith, count_from-suc_le m c, count_from-suc m c)

-- A search from `c` stopped at `r`.
pub record IsFirstFree (exists : ℕ → Bool) (c r : ℕ) : Type 0 where
  pub from : c ≤ r
  pub free : exists r ≡ false
  pub taken : (u : ℕ) → c ≤ u → u < r → exists u ≡ true

module _ (exists : ℕ → Bool) (measure : ℕ → ℕ) (lo hi : ℕ) (wide : hi ≤ 2 ^ 64)
    (falls : (u : ℕ) → lo ≤ u → u < hi → exists u ≡ true → measure (suc u) < measure u) where
  -- With more fuel than the measure of the start the search ends at the first free index.
  pub skip_existing_lem :
      (fuel c : ℕ)
      → lo ≤ c
      → measure c < fuel
      → c + measure c < hi
      → IsFirstFree exists c (skip_existing fuel c exists)
        × (skip_existing fuel c exists ≤ c + measure c)
  unfolding skip_existing
  skip_existing_lem zero c l f h = absurd (omega arith)
  skip_existing_lem (suc fuel) c l f h = elim (Bool-cases (exists c)) [
    | inr no_more ↦
        rw (no_more, skip_existing)
          (
            record { from = omega arith; free = no_more; taken = λ u a b. absurd (omega arith) },
            omega arith,
          )
    | inl found ↦
        let step = falls c l (omega arith) found in
        let e : u64 (c + 1) ≡ suc c = omega arith in
        let (rest, bound) =
          skip_existing_lem fuel (suc c) (omega arith) (omega arith) (omega arith) in
        rw (found, skip_existing)
          (rw e (
            record {
              from = omega (arith, rest.from);
              free = rest.free;
              taken = λ u a b. elim (Bool-cases (nat_beq c u)) [
                | inl same ↦ rw ((nat_beq_iff c u).0 same) at found
                | inr other ↦ rest.taken u (ground arith) b
              ];
            },
            omega arith,
          ))
  ]

  -- The current index stays, unless it is the updated one: then the first free index above it.
  pub actualize_lowest_index_lem :
      (fuel current upd : ℕ)
      → lo ≤ suc current
      → measure (suc current) < fuel
      → suc current + measure (suc current) < hi
      → (current ≢ upd → actualize_lowest_index fuel current upd exists ≡ current)
        × (current ≡ upd
            → IsFirstFree exists (suc current) (actualize_lowest_index fuel current upd exists))
  unfolding actualize_lowest_index
  actualize_lowest_index_lem fuel current upd l f h =
      let e : u64 (current + 1) ≡ suc current = omega arith in
      (
        λ ne. ground arith,
        λ same.
            rw ((nat_beq_iff current upd).1 same)
              (rw e (skip_existing_lem fuel (suc current) l f h).0),
      )
