-- ===== src/Gossip/Llr/Handlers/EpochVotes.antt =====
-- What `ProcessEpochVote` promises: it never panics, and it counts a vote once.
use go_opera.Base.{Bool, true, false, ◌≡◌}
use go_opera.Base.{Option, some, none, ok, err}
use go_opera.Base.{Error, sub32}
use go_opera.Inter.Llr.{LlrSignedEpochVote}
use go_opera.Inter.BlockProc.{EpochState}
use go_opera.Gossip.Store.{
  Store, set_epoch_vote, has_epoch_vote, get_history_epoch_state, ev_key_Eq,
}
use go_opera.Gossip.Llr.{Hashing, raise_last}
use go_opera.Gossip.Llr.Handlers.{process_epoch_vote}
use go_opera.Gossip.Llr.EpochVoting.{EpochVoteProcessed}

abbrev pub is_processed : Hashing → Store → LlrSignedEpochVote → Bool
is_processed h s ev = has_epoch_vote s ev.val.epoch (h.locator_id ev.signed.locator)

-- The state of the epoch before the voted one, whose group votes.
abbrev pub voting_epoch : Store → LlrSignedEpochVote → Option EpochState
voting_epoch s ev = get_history_epoch_state s (sub32 ev.val.epoch 1)

-- The store once the vote is counted.
abbrev recorded : Hashing → Store → LlrSignedEpochVote → Store
recorded h s ev =
    let s' : Store = set_epoch_vote s (h.locator_id ev.signed.locator) ev in
    record s' { last_evs = raise_last s'.last_evs ev.signed.locator.creator ev.val.epoch }

-- What an epoch vote leads to, case by case.
pub data EpochVoteOutcome (h : Hashing) (s : Store) (ev : LlrSignedEpochVote) : Type 0 where
  no_vote : ev.val.epoch ≡ 0 → process_epoch_vote h s ev ≡ ok s → EpochVoteOutcome h s ev
  known :
      is_processed h s ev ≡ true
      → process_epoch_vote h s ev ≡ err Error.already_processed_ev
      → EpochVoteOutcome h s ev
  unknown_epoch :
      voting_epoch s ev ≡ none
      → process_epoch_vote h s ev ≡ err Error.unknown_epoch_ev
      → EpochVoteOutcome h s ev
  stranger :
      (es : EpochState)
      → voting_epoch s ev ≡ some es
      → es.validators.exists ev.signed.locator.creator ≡ false
      → process_epoch_vote h s ev ≡ err Error.validator_not_exist
      → EpochVoteOutcome h s ev
  counted :
      (es : EpochState) (t : Store)
      → voting_epoch s ev ≡ some es
      → is_processed h s ev ≡ false
      → process_epoch_vote h s ev ≡ ok t
      → (done : EpochVoteProcessed es.validators s ev.val.epoch ev.val.vote
          (es.validators.get_idx ev.signed.locator.creator))
      → (t.epoch_results ≡ done.after.epoch_results)
        × (t.epoch_votes_index ≡ done.after.epoch_votes_index)
      → is_processed h t ev ≡ true
      → EpochVoteOutcome h s ev
