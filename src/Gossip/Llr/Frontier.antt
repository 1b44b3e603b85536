-- ===== src/Gossip/Llr/Frontier.antt =====
-- The lowest undecided block: everything from the base up to it is decided, and it is not.
use go_opera.Base.{ℕ, suc, ◌+◌, ◌/◌, ◌≤◌, ◌<◌, ◌^◌, List, Bool, true, false, ◌≡◌, ◌≢◌, ◌∙◌, sym}
use go_opera.Base.{arith, length, [], ◌∷◌, leb, u32, ℕ}
use go_opera.Base.{is_some, lookup, insert, lookup-insert, nat_eq, Bool-cases, Option-cases}
use go_opera.Base.{Result, ok, ◌>>=◌, err, panic, inl, inr}
use go_opera.Pos.{Validators}
use go_opera.Gossip.VotesIndex.{VotesIndex}
use go_opera.Gossip.Store.{Store, get_llr_block_result, set_llr_block_result}
use go_opera.Gossip.Llr.{decide_block, process_block_vote, actualize_lowest_index}
use go_opera.Gossip.Llr.Voting.{after_weight}
use go_opera.Gossip.Llr.LowestIndex.{
  count_from, count_from-le, count_from-suc, IsFirstFree, actualize_lowest_index_lem,
}
use native.Mathlib.Decide.{ℕ_discrete, dec_lt}
use mathlib.Core.Path.{subst}

pub record IsFrontierOf (base : ℕ) (m : List (ℕ × ℕ)) (lowest : ℕ) : Type 0 where
  pub above_base : base ≤ lowest
  pub open_at : is_some (lookup lowest m) ≡ false
  pub decided : (b : ℕ) → base ≤ b → b < lowest → is_some (lookup b m) ≡ true

-- Of the blocks from `base` on, those below `LowestBlockToDecide` are decided, and it is not.
abbrev pub IsFrontier : ℕ → Store → Type 0
IsFrontier base s = IsFrontierOf base s.block_results s.llr_state.lowest_block_to_decide

-- The block numbers are far from the end of uint64.
abbrev pub HasRoom : Store → Type 0
HasRoom s = s.llr_state.lowest_block_to_decide + length s.block_results + 3 < 2 ^ 64

length-insert : (k v : ℕ) (m : List (ℕ × ℕ)) → length (insert k v m) ≤ length m + 1
unfolding insert
length-insert k v [] = omega arith
length-insert k v ((j, w) ∷ m) = ground (arith, length-insert k v m)

-- The results with a decision for `block`, and the search over them.
module _ (base : ℕ) (s : Store) (block bv : ℕ) (f : IsFrontier base s) (room : HasRoom s) where
  abbrev results' : List (ℕ × ℕ)
  results' = insert block bv s.block_results

  abbrev lowest : ℕ
  lowest = s.llr_state.lowest_block_to_decide

  abbrev has_result : ℕ → Bool
  has_result u = is_some (lookup u results')

  abbrev lowest' : ℕ
  lowest' = actualize_lowest_index (suc (length results')) lowest block has_result

  search_lem :
      (lowest ≢ block → lowest' ≡ lowest)
      × (lowest ≡ block → IsFirstFree has_result (suc lowest) lowest')
  search_lem =
      actualize_lowest_index_lem has_result (count_from results') 0 (2 ^ 64) (omega arith)
        (λ u l h e. count_from-suc results' u e) (suc (length results')) lowest block (omega arith)
        (omega (arith, count_from-le results' (suc lowest)))
        (omega (arith, count_from-le results' (suc lowest), length-insert block bv s.block_results))

  was_decided : (b : ℕ) → base ≤ b → b < lowest → has_result b ≡ true
  was_decided b l h = ground (arith, f.decided b l h, lookup-insert block b bv s.block_results)

  now_decided : has_result block ≡ true
  now_decided = ground (arith, lookup-insert block block bv s.block_results)

  still_open : lowest ≢ block → has_result lowest ≡ false
  still_open ne = ground (arith, f.open_at, lookup-insert block lowest bv s.block_results)

  moved_decided :
      lowest ≡ block
      → IsFirstFree has_result (suc lowest) lowest'
      → (b : ℕ) → base ≤ b
      → b < lowest'
      → has_result b ≡ true
  moved_decided same free b l h = elim (dec_lt b lowest) [
    | yes before ↦ was_decided b l before
    | no other ↦ elim (ℕ_discrete lowest b) [
      | yes here ↦ subst (λ c. has_result c ≡ true) (sym same ∙ here) now_decided
      | no after ↦ free.taken b (omega arith) h
    ]
  ]

  decided_frontier : IsFrontierOf base results' lowest'
  decided_frontier = elim (ℕ_discrete lowest block) [
    | no ne ↦
        rw (search_lem.0 ne)
          (record { above_base = f.above_base; open_at = still_open ne; decided = was_decided })
    | yes same ↦
        let free = search_lem.1 same in
        record {
          above_base = omega (arith, free.from, f.above_base);
          open_at = free.free;
          decided = moved_decided same free;
        }
  ]

  decide_block-IsFrontier : IsFrontier base (decide_block s block bv)
  unfolding decide_block get_llr_block_result set_llr_block_result
  decide_block-IsFrontier = decided_frontier

after_weight-IsFrontier :
    (base : ℕ) (s : Store) (ix : VotesIndex) (vals : Validators) (block bv weight : ℕ)
    → IsFrontier base s
    → HasRoom s
    → IsFrontier base (after_weight s ix vals block bv weight)
after_weight-IsFrontier base s ix vals block bv weight f room =
    let s' : Store = record s { block_votes_index = ix } in
    let moved = decide_block-IsFrontier base s' block bv f room in
    elim (Bool-cases (leb (u32 (vals.total_weight / 3 + 1)) weight)) [
      | inr few ↦ rw few f
      | inl enough ↦ elim (Option-cases (get_llr_block_result s' block)) [
        | inl first ↦ rw enough (rw first moved)
        | inr (won, second) ↦ rw enough (rw second f)
      ]
    ]

-- A vote that was processed left the state that its weight leads to.
process_inv :
    (s t : Store) (vals : Validators) (block bv : ℕ) (m : Result (ℕ × VotesIndex))
    → (m >>= λ p. ok (after_weight s p.1 vals block bv p.0)) ≡ ok t
    → (weight : ℕ) × (ix : VotesIndex) × (after_weight s ix vals block bv weight ≡ t)
process_inv s t vals block bv (ok (weight, ix)) e = (weight, ix, cc)
process_inv s t vals block bv (err x) e = cc
process_inv s t vals block bv panic e = cc

-- Every block vote that is processed keeps the frontier: all blocks from the base up to
-- `LowestBlockToDecide` are decided, and that block is not, whichever block was voted for.
pub process_block_vote-IsFrontier :
    (base : ℕ) (s t : Store) (block epoch bv val : ℕ) (vals : Validators)
    → IsFrontier base s
    → HasRoom s
    → process_block_vote s block epoch bv val vals ≡ ok t
    → IsFrontier base t
unfolding process_block_vote
process_block_vote-IsFrontier base s t block epoch bv val vals f room e =
    let (weight, ix, same) = process_inv s t vals block bv _ e in
    subst (IsFrontier base) same (after_weight-IsFrontier base s ix vals block bv weight f room)
