-- ===== src/Scenarios/Votes.antt =====
-- Two votes for a block of the three validators, with an eviction between them.
use go_opera.Base.{
  ℕ, ◌/◌, ◌≤◌, ◌<◌, List, [], ◌∷◌, Bool, true, false, ◌≡◌, ◌≢◌, refl, ap, arith, nat_beq,
}
use go_opera.Base.{some-injective, some, none, ok, lookup, insert, remove, nat_eq, if◌then◌else◌}
use go_opera.Utils.Bitmap.{new, put, has}
use go_opera.Inter.Llr.{LlrSignedBlockVotes}
use go_opera.Inter.Llr.{LlrSignedEpochVote}
use go_opera.Gossip.Llr.EpochVoting.{IsEpochSound, EpochVoteProcessed, process_raw_epoch_vote_lem}
use go_opera.Gossip.VotesIndex.{
  VotesCacheId, VotesCacheValue, VotesIndex, id_eq, get_llr_vote_weight, already_voted, set_or_new,
  add_llr_vote_weight, evict, flush_mutated, flush_llr_vote_weight,
}
use go_opera.Gossip.VotesIndex.View.{view, IsCoherent, evict_lem, flush_mutated_lem}
use go_opera.Gossip.VotesIndex.Weights.{voted_sum, IsCounted, VoteAdded, add_llr_vote_weight_lem}
use go_opera.Gossip.Store.{Store, get_llr_block_result, set_llr_block_result}
use go_opera.Gossip.Llr.{
  Hashing, process_block_vote, decide_block, actualize_lowest_index, skip_existing,
}
use go_opera.Gossip.Llr.Voting.{quorum, key_of, IsSound, BlockVoteProcessed, process_block_vote_lem}
use go_opera.Gossip.Llr.Frontier.{IsFrontier, process_block_vote-IsFrontier}
use go_opera.Gossip.Llr.Ballots.{Run, here, next, vote, evicted, with_index, ballots, gave}
use go_opera.Gossip.Llr.Runs.{
  IsStart, ballot_weight, Run-decides, decided_has_honest_backer, Run-keeps_result,
}
use go_opera.Scenarios.{group, group-IsGroup, empty_store}

abbrev pub key : VotesCacheId
key = key_of 1 1 77

abbrev one_vote : VotesIndex
one_vote = record {
  cache = (key, record { weight = 1; voters = 1 ∷ []; mutated = true }) ∷ [];
  table = [];
}

abbrev store1 : Store
store1 = record empty_store { block_votes_index = one_vote }

abbrev store2 : Store
store2 = record empty_store {
  block_votes_index = record { cache = []; table = (key, (1, 1 ∷ [])) ∷ [] };
}

abbrev pub store3 : Store
store3 = record empty_store {
  block_votes_index = record {
    cache = (key, record { weight = 2; voters = 3 ∷ []; mutated = true }) ∷ [];
    table = (key, (1, 1 ∷ [])) ∷ [];
  };
  block_results = (1, 77) ∷ [];
  llr_state = record {
    lowest_epoch_to_decide = 2;
    lowest_epoch_to_fill = 2;
    lowest_block_to_decide = 2;
    lowest_block_to_fill = 1;
  };
}

pub first_vote : process_block_vote empty_store 1 1 77 0 group ≡ ok store1
unfolding process_block_vote add_llr_vote_weight get_llr_vote_weight already_voted set_or_new lookup
    insert new put
first_vote = refl

pub first_evicted : store2 ≡ with_index store1 (evict one_vote key)
unfolding evict lookup remove insert flush_llr_vote_weight
first_evicted = refl

pub second_vote : process_block_vote store2 1 1 77 1 group ≡ ok store3
unfolding process_block_vote add_llr_vote_weight get_llr_vote_weight already_voted set_or_new lookup
    insert new put has decide_block actualize_lowest_index skip_existing get_llr_block_result
    set_llr_block_result
second_vote = refl

empty-IsCoherent : IsCoherent empty_store.block_votes_index
unfolding lookup
empty-IsCoherent k c found clean = absurd (cc)

pub empty-IsSound : IsSound group empty_store
unfolding view IsCounted lookup
empty-IsSound = record { coherent = empty-IsCoherent; counted = λ k. tt }

pub empty-IsStart : IsStart group empty_store
unfolding view lookup get_llr_block_result
empty-IsStart = record { sound = empty-IsSound; undecided = λ b. refl; nobody = λ k. refl }

abbrev pub run : Run group empty_store store3
run =
    next (next (next here (vote 1 1 77 0 (omega arith) first_vote)) (evicted key first_evicted))
      (vote 1 1 77 1 (omega arith) second_vote)

decided : get_llr_block_result store3 1 ≡ some 77
unfolding get_llr_block_result lookup
decided = refl

Run-decides_example :
    ((b v : ℕ)
      → get_llr_block_result store3 b ≡ some v
      → (epoch : ℕ) × (quorum group ≤ ballot_weight group (ballots run) (key_of b epoch v)))
    × ((k : VotesCacheId)
        → quorum group ≤ ballot_weight group (ballots run) k
        → get_llr_block_result store3 k.block ≢ none)
Run-decides_example = Run-decides group empty_store store3 group-IsGroup empty-IsStart run

-- Validator 3, at index 2, misbehaves.
few_bad : voted_sum group.get_weight_by_idx (nat_beq 2) group.len ≤ group.total_weight / 3
unfolding voted_sum
few_bad = omega arith

decided_has_honest_backer_example :
    (epoch i : ℕ) × (i < group.len)
    × (gave (ballots run) (key_of 1 epoch 77) i ≡ true)
    × (nat_beq 2 i ≡ false)
decided_has_honest_backer_example =
    decided_has_honest_backer group empty_store store3 (nat_beq 2) group-IsGroup empty-IsStart run
      few_bad 1 77 decided

process_block_vote_lem_example : BlockVoteProcessed group empty_store 1 1 77 0
process_block_vote_lem_example =
    process_block_vote_lem group empty_store 1 1 77 0 group-IsGroup (omega arith) empty-IsSound

-- Block 1 is decided for 77, and two validators vote for 88.
abbrev decided_store : Store
decided_store = record empty_store { block_results = (1, 77) ∷ [] }

abbrev other_vote : ℕ → List ℕ → Store
other_vote weight voters = record decided_store {
  block_votes_index = record {
    cache = (key_of 1 1 88, record { weight = weight; voters = voters; mutated = true }) ∷ [];
    table = [];
  };
}

decided-IsSound : IsSound group decided_store
unfolding view IsCounted lookup
decided-IsSound = record { coherent = empty-IsCoherent; counted = λ k. tt }

late_vote : process_block_vote decided_store 1 1 88 0 group ≡ ok (other_vote 1 (1 ∷ []))
unfolding process_block_vote add_llr_vote_weight get_llr_vote_weight already_voted set_or_new lookup
    insert new put
late_vote = refl

later_vote : process_block_vote (other_vote 1 (1 ∷ [])) 1 1 88 2 group ≡ ok (other_vote 2 (5 ∷ []))
unfolding process_block_vote add_llr_vote_weight get_llr_vote_weight already_voted set_or_new lookup
    insert new put has get_llr_block_result
later_vote = refl

was_decided : get_llr_block_result decided_store 1 ≡ some 77
unfolding get_llr_block_result lookup
was_decided = refl

late-Run : Run group decided_store (other_vote 2 (5 ∷ []))
late-Run =
    next (next here (vote 1 1 88 0 (omega arith) late_vote))
      (vote 1 1 88 2 (omega arith) later_vote)

Run-keeps_result_example : get_llr_block_result (other_vote 2 (5 ∷ [])) 1 ≡ some 77
Run-keeps_result_example =
    Run-keeps_result group decided_store (other_vote 2 (5 ∷ [])) 1 77 group-IsGroup decided-IsSound
      late-Run was_decided

store2-IsFrontier : IsFrontier 1 store2
unfolding lookup
store2-IsFrontier = record {
  above_base = omega arith;
  open_at = refl;
  decided = λ b l h. absurd (omega arith);
}

process_block_vote-IsFrontier_example : IsFrontier 1 store3
process_block_vote-IsFrontier_example =
    process_block_vote-IsFrontier 1 store2 store3 1 1 77 1 group store2-IsFrontier (omega arith)
      second_vote

only : (b : Bool) (x c : VotesCacheValue) → (if b then some x else none) ≡ some c → x ≡ c
only true x c h = some-injective h
only false x c h = absurd (cc)

-- Of the one cached vote, which is not in the table yet.
one_vote-IsCoherent : IsCoherent one_vote
unfolding lookup
one_vote-IsCoherent k c found clean = absurd (
    ground (
      arith,
      ap (λ v. v.mutated)
          (only (id_eq key k) (record { weight = 1; voters = 1 ∷ []; mutated = true }) c found),
    ))

evict_lem_example :
    ((j : VotesCacheId) → view (evict one_vote key) j ≡ view one_vote j)
    × IsCoherent (evict one_vote key)
evict_lem_example = evict_lem one_vote key one_vote-IsCoherent

flush_mutated_lem_example :
    ((j : VotesCacheId) → view (flush_mutated one_vote) j ≡ view one_vote j)
    × IsCoherent (flush_mutated one_vote)
flush_mutated_lem_example = flush_mutated_lem one_vote one_vote-IsCoherent

nobody-IsCounted :
    IsCounted group.get_weight_by_idx group.len (view empty_store.block_votes_index key)
unfolding IsCounted view lookup
nobody-IsCounted = tt

add_llr_vote_weight_lem_example :
    VoteAdded group.get_weight_by_idx group.len empty_store.block_votes_index key 2
add_llr_vote_weight_lem_example =
    add_llr_vote_weight_lem group.get_weight_by_idx group.len empty_store.block_votes_index key 2
      (omega arith) (omega arith) empty-IsCoherent nobody-IsCounted

-- Validator 1 votes for block 1 in an event of epoch 1.
abbrev pub block_votes : LlrSignedBlockVotes
block_votes = record {
  signed = record {
    locator = record {
      base_hash = 5;
      net_fork_id = 0;
      epoch = 1;
      seq = 1;
      lamport = 1;
      creator = 1;
      payload_hash = 6;
    };
    sig = [];
  };
  txs_and_misbehaviour_proofs_hash = 0;
  epoch_vote_hash = 0;
  val = record { start = 1; epoch = 1; votes = 77 ∷ 78 ∷ [] };
}

abbrev pub hashing : Hashing
hashing = record {
  locator_id = λ l. l.base_hash;
  block_record_hash = λ br. br.root;
  epoch_record_hash = λ er. er.idx;
  unwrap_receipts = λ receipts. receipts;
}

-- Validator 2 votes for the record of epoch 2.
abbrev epoch_vote : LlrSignedEpochVote
epoch_vote = record {
  signed = record block_votes.signed {
    locator = record block_votes.signed.locator { creator = 2; epoch = 2 };
  };
  txs_and_misbehaviour_proofs_hash = 0;
  block_votes_hash = 0;
  val = record { epoch = 2; vote = 44 };
}

empty-IsEpochSound : IsEpochSound group empty_store 2 44
unfolding view IsCounted lookup
empty-IsEpochSound = record { coherent = empty-IsCoherent; counted = tt }

process_raw_epoch_vote_lem_example : EpochVoteProcessed group empty_store 2 44 1
process_raw_epoch_vote_lem_example =
    process_raw_epoch_vote_lem group empty_store 2 44 1 group-IsGroup (omega arith)
      empty-IsEpochSound
