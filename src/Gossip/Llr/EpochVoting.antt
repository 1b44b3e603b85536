-- ===== src/Gossip/Llr/EpochVoting.antt =====
-- One LLR epoch vote: what it does to the weights and to the results.
use go_opera.Base.{ℕ, ◌+◌, ◌/◌, ◌<◌, Bool, true, false, ◌≡◌, sym, arith}
use go_opera.Base.{if◌then◌else◌, leb, nat_beq, u32, ◌&&◌, some, none}
use go_opera.Base.{lookup-insert, nat_eq, ok}
use go_opera.Pos.{Validators, IsGroup}
use go_opera.Gossip.VotesIndex.{VotesCacheId, VotesIndex, id_eq, add_llr_vote_weight}
use go_opera.Gossip.VotesIndex.View.{view, IsCoherent}
use go_opera.Gossip.VotesIndex.Weights.{
  voted_sum, has_voted, IsCounted, VoteAdded, add_llr_vote_weight_lem,
}
use go_opera.Gossip.Store.{Store, get_llr_epoch_result, set_llr_epoch_result, ev_key_Eq}
use go_opera.Gossip.Llr.{decide_epoch, process_raw_epoch_vote}
use go_opera.Gossip.Llr.Voting.{quorum, key_of, new_result}

-- The validators whose votes `ev` for an epoch are counted, and their weight.
abbrev pub epoch_backers : Store → (epoch ev : ℕ) → ℕ → Bool
epoch_backers s epoch ev = has_voted (view s.epoch_votes_index (key_of 0 epoch ev))

abbrev pub epoch_backing : Validators → Store → (epoch ev : ℕ) → ℕ
epoch_backing vals s epoch ev = voted_sum vals.get_weight_by_idx (epoch_backers s epoch ev) vals.len

-- The index of epoch votes is coherent, and sound for a group at one vote.
pub record IsEpochSound (vals : Validators) (s : Store) (epoch ev : ℕ) : Type 0 where
  pub coherent : IsCoherent s.epoch_votes_index
  pub counted :
      IsCounted vals.get_weight_by_idx vals.len (view s.epoch_votes_index (key_of 0 epoch ev))

-- The state after an epoch vote whose new weight is known.
abbrev after_epoch_weight : Store → VotesIndex → Validators → (epoch ev weight : ℕ) → Store
after_epoch_weight s ix vals epoch ev weight =
    let s' : Store = record s { epoch_votes_index = ix } in
    if leb (u32 (vals.total_weight / 3 + 1)) weight
    then elim (get_llr_epoch_result s' epoch) [ none ↦ decide_epoch s' epoch ev | some _ ↦ s' ]
    else s'

process_raw_epoch_vote_step :
    (s : Store) (epoch ev val : ℕ) (vals : Validators) (weight : ℕ) (ix : VotesIndex)
    → add_llr_vote_weight s.epoch_votes_index
        (key_of 0 epoch ev)
        val
        vals.len
        (vals.get_weight_by_idx val)
      ≡ ok (weight, ix)
    → process_raw_epoch_vote s epoch ev val vals ≡ ok (after_epoch_weight s ix vals epoch ev weight)
unfolding process_raw_epoch_vote
process_raw_epoch_vote_step s epoch ev val vals weight ix e = rw e

after_epoch_weight_results :
    (s : Store) (ix : VotesIndex) (vals : Validators) (epoch ev weight n : ℕ)
    → vals.total_weight < 4294967296
    → get_llr_epoch_result (after_epoch_weight s ix vals epoch ev weight) n
      ≡ new_result
          (get_llr_epoch_result s epoch)
          (nat_beq epoch n && leb (quorum vals) weight)
          ev
          (get_llr_epoch_result s n)
unfolding new_result get_llr_epoch_result decide_epoch set_llr_epoch_result
after_epoch_weight_results s ix vals epoch ev weight n h =
    ground (arith, lookup-insert epoch n ev s.epoch_results)

after_epoch_weight_index :
    (s : Store) (ix : VotesIndex) (vals : Validators) (epoch ev weight : ℕ)
    → (after_epoch_weight s ix vals epoch ev weight).epoch_votes_index ≡ ix
unfolding decide_epoch set_llr_epoch_result
after_epoch_weight_index s ix vals epoch ev weight = ground arith

-- What an epoch vote of validator `val` does.
pub record EpochVoteProcessed (vals : Validators) (s : Store) (epoch ev val : ℕ) : Type 0 where
  pub after : Store
  pub returns : process_raw_epoch_vote s epoch ev val vals ≡ ok after
  pub sound : IsEpochSound vals after epoch ev
  pub joined :
      (j : ℕ)
      → epoch_backers after epoch ev j
        ≡ (if nat_beq val j then true else epoch_backers s epoch ev j)
  pub others :
      (k : VotesCacheId)
      → id_eq (key_of 0 epoch ev) k ≡ false
      → view after.epoch_votes_index k ≡ view s.epoch_votes_index k
  pub results :
      (n : ℕ)
      → get_llr_epoch_result after n
        ≡ new_result
            (get_llr_epoch_result s epoch)
            (nat_beq epoch n && leb (quorum vals) (epoch_backing vals after epoch ev))
            ev
            (get_llr_epoch_result s n)

epoch_vote_counted :
    (vals : Validators) (s : Store) (epoch ev val : ℕ)
    → vals.total_weight < 4294967296
    → VoteAdded vals.get_weight_by_idx vals.len s.epoch_votes_index (key_of 0 epoch ev) val
    → EpochVoteProcessed vals s epoch ev val
epoch_vote_counted vals s epoch ev val small added =
    let t : Store = after_epoch_weight s added.after vals epoch ev added.weight in
    let same = after_epoch_weight_index s added.after vals epoch ev added.weight in
    let exact : epoch_backing vals t epoch ev ≡ added.weight = rw same (sym added.exact) in
    record {
      after = t;
      returns = process_raw_epoch_vote_step s epoch ev val vals _ _ added.returns;
      sound = record { coherent = rw same added.coherent; counted = rw same added.counted };
      joined = λ j. rw same (ground (arith, added.joined j));
      others = λ j ne. rw same (added.others j ne);
      results = λ n.
          rw exact (after_epoch_weight_results s added.after vals epoch ev added.weight n small);
    }

-- An epoch vote of a validator of the group, where the votes for its hash are soundly counted, is
-- always processed: it joins the backers of its hash, counted once, leaves the other votes alone,
-- and decides an undecided epoch exactly when the backers' weight reaches the quorum, while every
-- other result stays.
pub process_raw_epoch_vote_lem :
    (vals : Validators) (s : Store) (epoch ev val : ℕ)
    → IsGroup vals
    → val < vals.len
    → IsEpochSound vals s epoch ev
    → EpochVoteProcessed vals s epoch ev val
process_raw_epoch_vote_lem vals s epoch ev val group h sound =
    epoch_vote_counted vals s epoch ev val group.total_u32 (
      add_llr_vote_weight_lem vals.get_weight_by_idx vals.len s.epoch_votes_index
        (key_of 0 epoch ev) val h (omega (arith, group.total, group.total_u32)) sound.coherent
        sound.counted)
