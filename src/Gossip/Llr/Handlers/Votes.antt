-- ===== src/Gossip/Llr/Handlers/Votes.antt =====
-- What `ProcessBlockVotes` promises: it never panics, and counts each vote of the record.
use go_opera.Base.{◌||◌}
use go_opera.Base.{ℕ, List, [], Bool, true, false, ◌≡◌}
use go_opera.Base.{some, none, ok, err, Error}
use go_opera.Inter.Llr.{LlrSignedBlockVotes, last_block}
use go_opera.Inter.BlockProc.{EpochState}
use go_opera.Gossip.Store.{
  Store, set_block_votes, has_block_votes, get_history_epoch_state, bvs_key_Eq,
}
use go_opera.Gossip.Llr.{Hashing, raise_last}
use go_opera.Gossip.Llr.Handlers.{process_block_votes}
use go_opera.Gossip.Llr.Voting.{backers}
use go_opera.Gossip.Llr.Ballots.{Run, Ballot, ballots, gave, record_ballots}
use go_opera.Gossip.VotesIndex.{VotesCacheId}

-- The store once all votes are counted.
abbrev pub recorded : Hashing → Store → LlrSignedBlockVotes → Store
recorded h s bvs =
    let id = h.locator_id bvs.signed.locator in
    let s' : Store = set_block_votes s id bvs in
    record s' { last_bvs = raise_last s'.last_bvs bvs.signed.locator.creator (last_block bvs.val) }

-- The record's votes were processed before.
abbrev pub is_processed : Hashing → Store → LlrSignedBlockVotes → Bool
is_processed h s bvs =
    has_block_votes s bvs.val.epoch (last_block bvs.val) (h.locator_id bvs.signed.locator)

-- The votes of the record by its creator.
abbrev pub cast_by : EpochState → LlrSignedBlockVotes → List Ballot
cast_by es bvs = record_ballots bvs.val (es.validators.get_idx bvs.signed.locator.creator)

-- What a record of block votes leads to, case by case.
pub data VotesOutcome (h : Hashing) (s : Store) (bvs : LlrSignedBlockVotes) : Type 0 where
  no_votes : bvs.val.votes ≡ [] → process_block_votes h s bvs ≡ ok s → VotesOutcome h s bvs
  known :
      is_processed h s bvs ≡ true
      → process_block_votes h s bvs ≡ err Error.already_processed_bvs
      → VotesOutcome h s bvs
  unknown_epoch :
      get_history_epoch_state s bvs.signed.locator.epoch ≡ none
      → process_block_votes h s bvs ≡ err Error.unknown_epoch_bvs
      → VotesOutcome h s bvs
  stranger :
      (es : EpochState)
      → get_history_epoch_state s bvs.signed.locator.epoch ≡ some es
      → es.validators.exists bvs.signed.locator.creator ≡ false
      → process_block_votes h s bvs ≡ err Error.validator_not_exist
      → VotesOutcome h s bvs
  counted :
      (es : EpochState) (t : Store)
      → get_history_epoch_state s bvs.signed.locator.epoch ≡ some es
      → is_processed h s bvs ≡ false
      → process_block_votes h s bvs ≡ ok t
      → (run : Run es.validators s t) → ballots run ≡ cast_by es bvs
      → ((k : VotesCacheId) (j : ℕ) → backers t k j ≡ (gave (cast_by es bvs) k j || backers s k j))
      → is_processed h t bvs ≡ true
      → VotesOutcome h s bvs
