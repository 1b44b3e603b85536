-- ===== src/Gossip/Llr/Voting.antt =====
-- One LLR block vote: what it does to the weights, to the results and to the lowest undecided block.
use go_opera.Base.{ℕ, ◌+◌, ◌/◌, ◌<◌, Bool, true, false, ◌≡◌}
use go_opera.Base.{refl, sym, arith, if◌then◌else◌, leb, nat_beq, u32}
use go_opera.Base.{Option, some, none, insert, lookup-insert, nat_eq, Bool-cases}
use go_opera.Base.{ok, inl, inr, ◌&&◌}
use go_opera.Pos.{Validators, IsGroup}
use go_opera.Gossip.VotesIndex.{VotesCacheId, VotesIndex, id_eq, id_eq_iff, add_llr_vote_weight}
use go_opera.Gossip.VotesIndex.View.{view, IsCoherent}
use go_opera.Gossip.VotesIndex.Weights.{
  voted_sum, has_voted, IsCounted, VoteAdded, add_llr_vote_weight_lem,
}
use go_opera.Gossip.Store.{Store, get_llr_block_result, set_llr_block_result}
use go_opera.Gossip.Llr.{decide_block, process_block_vote}

-- The weight that decides: more than a third of the group's.
abbrev pub quorum : Validators → ℕ
quorum vals = vals.total_weight / 3 + 1

abbrev pub key_of : (block epoch bv : ℕ) → VotesCacheId
key_of block epoch bv = record { block = block; epoch = epoch; v = bv }

-- The validators whose votes for `bv` at a block, in an epoch, are counted, and their weight.
abbrev pub backers : Store → VotesCacheId → ℕ → Bool
backers s k = has_voted (view s.block_votes_index k)

abbrev pub backing : Validators → Store → VotesCacheId → ℕ
backing vals s k = voted_sum vals.get_weight_by_idx (backers s k) vals.len

-- The index of votes is sound for a group of validators.
pub record IsSound (vals : Validators) (s : Store) : Type 0 where
  pub coherent : IsCoherent s.block_votes_index
  pub counted :
      (k : VotesCacheId) → IsCounted vals.get_weight_by_idx vals.len (view s.block_votes_index k)

decide_block_results :
    (s : Store) (block bv : ℕ)
    → (decide_block s block bv).block_results ≡ insert block bv s.block_results
unfolding decide_block set_llr_block_result
decide_block_results s block bv = refl

decide_block_index :
    (s : Store) (block bv : ℕ) → (decide_block s block bv).block_votes_index ≡ s.block_votes_index
unfolding decide_block set_llr_block_result
decide_block_index s block bv = refl

-- The state after a vote whose new weight is known.
abbrev pub after_weight : Store → VotesIndex → Validators → (block bv weight : ℕ) → Store
after_weight s ix vals block bv weight =
    let s' : Store = record s { block_votes_index = ix } in
    if leb (u32 (vals.total_weight / 3 + 1)) weight
    then elim (get_llr_block_result s' block) [ none ↦ decide_block s' block bv | some _ ↦ s' ]
    else s'

process_block_vote_step :
    (s : Store) (block epoch bv val : ℕ) (vals : Validators) (weight : ℕ) (ix : VotesIndex)
    → add_llr_vote_weight s.block_votes_index
        (key_of block epoch bv)
        val
        vals.len
        (vals.get_weight_by_idx val)
      ≡ ok (weight, ix)
    → process_block_vote s block epoch bv val vals ≡ ok (after_weight s ix vals block bv weight)
unfolding process_block_vote
process_block_vote_step s block epoch bv val vals weight ix e = rw e

-- The result of a block after a vote: the vote's hash if the voted block was undecided and the
-- vote decides this block, else the result before.
unfoldable pub new_result : Option ℕ → Bool → ℕ → Option ℕ → Option ℕ
new_result none true bv old = some bv
new_result none false bv old = old
new_result (some _) _ bv old = old

after_weight_results :
    (s : Store) (ix : VotesIndex) (vals : Validators) (block bv weight b : ℕ)
    → vals.total_weight < 4294967296
    → get_llr_block_result (after_weight s ix vals block bv weight) b
      ≡ new_result
          (get_llr_block_result s block)
          (nat_beq block b && leb (quorum vals) weight)
          bv
          (get_llr_block_result s b)
unfolding new_result get_llr_block_result decide_block set_llr_block_result
after_weight_results s ix vals block bv weight b h =
    ground (arith, lookup-insert block b bv s.block_results)

after_weight_index :
    (s : Store) (ix : VotesIndex) (vals : Validators) (block bv weight : ℕ)
    → (after_weight s ix vals block bv weight).block_votes_index ≡ ix
after_weight_index s ix vals block bv weight =
    ground (arith, decide_block_index (record s { block_votes_index = ix }) block bv)

-- What a block vote of validator `val` does.
pub record BlockVoteProcessed (vals : Validators) (s : Store) (block epoch bv val : ℕ)
    : Type 0 where
  pub after : Store
  pub returns : process_block_vote s block epoch bv val vals ≡ ok after
  pub sound : IsSound vals after
  -- The vote is counted once, and no other vote changes.
  pub joined :
      (j : ℕ)
      → backers after (key_of block epoch bv) j
        ≡ (if nat_beq val j then true else backers s (key_of block epoch bv) j)
  pub others :
      (k : VotesCacheId)
      → id_eq (key_of block epoch bv) k ≡ false
      → view after.block_votes_index k ≡ view s.block_votes_index k
  -- An undecided block is decided exactly when the vote's weight reaches the quorum; all other
  -- results stay.
  pub results :
      (b : ℕ)
      → get_llr_block_result after b
        ≡ new_result
            (get_llr_block_result s block)
            (nat_beq block b && leb (quorum vals) (backing vals after (key_of block epoch bv)))
            bv
            (get_llr_block_result s b)

other-IsCounted :
    (vals : Validators) (s : Store) (k : VotesCacheId) (i : ℕ)
    → IsSound vals s
    → (added : VoteAdded vals.get_weight_by_idx vals.len s.block_votes_index k i)
    → (j : VotesCacheId) → IsCounted vals.get_weight_by_idx vals.len (view added.after j)
other-IsCounted vals s k i sound added j = elim (Bool-cases (id_eq k j)) [
  | inl e ↦ rw (sym ((id_eq_iff k j).0 e)) added.counted
  | inr e ↦ rw (added.others j e) (sound.counted j)
]

process_counted :
    (vals : Validators) (s : Store) (block epoch bv val : ℕ)
    → vals.total_weight < 4294967296
    → IsSound vals s
    → VoteAdded vals.get_weight_by_idx vals.len s.block_votes_index (key_of block epoch bv) val
    → BlockVoteProcessed vals s block epoch bv val
process_counted vals s block epoch bv val small sound added =
    let k = key_of block epoch bv in
    let t : Store = after_weight s added.after vals block bv added.weight in
    let same = after_weight_index s added.after vals block bv added.weight in
    let exact : backing vals t k ≡ added.weight = rw same (sym added.exact) in
    record {
      after = t;
      returns = process_block_vote_step s block epoch bv val vals _ _ added.returns;
      sound = record {
        coherent = rw same added.coherent;
        counted = λ j. rw same (other-IsCounted vals s k val sound added j);
      };
      joined = λ j. rw same (ground (arith, added.joined j));
      others = λ j ne. rw same (added.others j ne);
      results =
          λ b. rw exact (after_weight_results s added.after vals block bv added.weight b small);
    }

-- A block vote of a validator of the group is always processed: it joins the backers of its hash,
-- counted once, leaves the other votes alone, and decides an undecided block exactly when the
-- backers' weight reaches the quorum, while every other result stays.
pub process_block_vote_lem :
    (vals : Validators) (s : Store) (block epoch bv val : ℕ)
    → IsGroup vals
    → val < vals.len
    → IsSound vals s
    → BlockVoteProcessed vals s block epoch bv val
process_block_vote_lem vals s block epoch bv val group h sound =
    process_counted vals s block epoch bv val group.total_u32 sound (
      add_llr_vote_weight_lem vals.get_weight_by_idx vals.len s.block_votes_index
        (key_of block epoch bv) val h (omega (arith, group.total, group.total_u32)) sound.coherent
        (sound.counted (key_of block epoch bv)))
