-- ===== src/EventCheck/Basic/Total.antt =====
-- The checks of misbehaviour proofs index the votes only within their range.
use go_opera.Base.{ℕ, Bool, true, false, ◌≡◌, ◌≢◌, arith, sub64}
use go_opera.Base.{ok, panic, >>-eq-ok, expect, Check}
use go_opera.Base.{>>-no_panic, Option, some, none}
use go_opera.Base.{get_elem?-lt}
use go_opera.Inter.Llr.{
  EventLocator, LlrBlockVotes, LlrEpochVote, LlrSignedBlockVotes, LlrSignedEpochVote,
}
use go_opera.Inter.Mps.{
  EventsDoublesign, BlockVoteDoublesign, WrongBlockVote, EpochVoteDoublesign, WrongEpochVote,
  MisbehaviourProof, get_vote,
}
use go_opera.EventCheck.Basic.{
  check_bvs, check_ev, validate_event_locator, validate_bvs, validate_ev,
}
use go_opera.EventCheck.Basic.Limits.{BlockVotesWithin, check_bvs_iff}
use go_opera.EventCheck.Basic.Mps.{
  is_outside, check_events_doublesign, check_block_vote_doublesign, check_block_pal_alone,
  check_same_vote, check_wrong_block_vote, check_epoch_vote_doublesign, check_wrong_epoch_vote,
  when_present, validate_mp,
}

validate_event_locator-no_panic : (e : EventLocator) → validate_event_locator e ≢ panic
unfolding validate_event_locator
validate_event_locator-no_panic e = ground arith

check_bvs-no_panic : (n : ℕ) (bvs : LlrBlockVotes) (greedy : Bool) → check_bvs n bvs greedy ≢ panic
unfolding check_bvs
check_bvs-no_panic n bvs greedy = ground arith

check_ev-no_panic : (n : ℕ) (ev : LlrEpochVote) (greedy : Bool) → check_ev n ev greedy ≢ panic
unfolding check_ev
check_ev-no_panic n ev greedy = ground arith

validate_bvs-no_panic : (bvs : LlrSignedBlockVotes) → validate_bvs bvs ≢ panic
unfolding validate_bvs
validate_bvs-no_panic bvs =
    >>-no_panic _ _ (validate_event_locator-no_panic bvs.signed.locator)
      (λ _ _. check_bvs-no_panic bvs.signed.locator.epoch bvs.val true)

validate_ev-no_panic : (ev : LlrSignedEpochVote) → validate_ev ev ≢ panic
unfolding validate_ev
validate_ev-no_panic ev =
    >>-no_panic _ _ (validate_event_locator-no_panic ev.signed.locator)
      (λ _ _. check_ev-no_panic ev.signed.locator.epoch ev.val true)

validate_bvs-within :
    (bvs : LlrSignedBlockVotes) (x : Unit {0})
    → validate_bvs bvs ≡ ok x
    → BlockVotesWithin bvs.signed.locator.epoch bvs.val true
unfolding validate_bvs
validate_bvs-within bvs x h =
    (check_bvs_iff bvs.signed.locator.epoch bvs.val true).0
      (>>-eq-ok (validate_event_locator bvs.signed.locator) _ h).1

-- A block that checked votes are for has a vote.
has_vote :
    (block : ℕ) (bvs : LlrSignedBlockVotes) (x : Unit {0})
    → validate_bvs bvs ≡ ok x
    → is_outside block bvs ≡ false
    → expect (get_vote block bvs) ≢ panic
unfolding get_vote
has_vote block bvs x valid inside =
    let w = validate_bvs-within bvs x valid in
    let (v, found) =
      get_elem?-lt bvs.val.votes (sub64 block bvs.val.start)
        (ground (arith, w.small_start, w.few)) in
    rw found (λ h. cc)

check_events_doublesign-no_panic :
    (n : ℕ) (proof : EventsDoublesign) → check_events_doublesign n proof ≢ panic
unfolding check_events_doublesign
check_events_doublesign-no_panic n proof = ground (
  arith,
  validate_event_locator-no_panic proof.pair.fst.locator,
  validate_event_locator-no_panic proof.pair.snd.locator,
)

check_block_vote_doublesign-no_panic :
    (n : ℕ) (proof : BlockVoteDoublesign) → check_block_vote_doublesign n proof ≢ panic
unfolding check_block_vote_doublesign
check_block_vote_doublesign-no_panic n proof = ground (
  arith,
  validate_bvs-no_panic proof.pair.fst,
  validate_bvs-no_panic proof.pair.snd,
  has_vote proof.block proof.pair.fst tt,
  has_vote proof.block proof.pair.snd tt,
)

check_wrong_block_vote-no_panic :
    (n : ℕ) (proof : WrongBlockVote) → check_wrong_block_vote n proof ≢ panic
unfolding check_wrong_block_vote check_block_pal_alone check_same_vote
check_wrong_block_vote-no_panic n proof = ground (
  arith,
  validate_bvs-no_panic proof.pals.fst,
  validate_bvs-no_panic proof.pals.snd,
  has_vote proof.block proof.pals.fst tt,
  has_vote proof.block proof.pals.snd tt,
)

check_epoch_vote_doublesign-no_panic :
    (n : ℕ) (proof : EpochVoteDoublesign) → check_epoch_vote_doublesign n proof ≢ panic
unfolding check_epoch_vote_doublesign
check_epoch_vote_doublesign-no_panic n proof =
    ground (arith, validate_ev-no_panic proof.pair.fst, validate_ev-no_panic proof.pair.snd)

check_wrong_epoch_vote-no_panic :
    (n : ℕ) (proof : WrongEpochVote) → check_wrong_epoch_vote n proof ≢ panic
unfolding check_wrong_epoch_vote
check_wrong_epoch_vote-no_panic n proof =
    ground (arith, validate_ev-no_panic proof.pals.fst, validate_ev-no_panic proof.pals.snd)

when_present-no_panic :
    {A : Type 0} (o : Option A) (check : A → Check)
    → ((a : A) → check a ≢ panic)
    → when_present o check ≢ panic
when_present-no_panic none check calm = λ h. cc
when_present-no_panic (some a) check calm = >>-no_panic (check a) (ok 1) (calm a) (λ _ _ h. cc)

-- The check of a misbehaviour proof never panics: it reads a vote only of a block that the signed
-- votes are for, whatever the proof holds.
pub validate_mp-no_panic : (n : ℕ) (mp : MisbehaviourProof) → validate_mp n mp ≢ panic
unfolding validate_mp
validate_mp-no_panic n mp = ground (
  arith,
  when_present-no_panic mp.events_doublesign (check_events_doublesign n)
      (check_events_doublesign-no_panic n),
  when_present-no_panic mp.block_vote_doublesign (check_block_vote_doublesign n)
      (check_block_vote_doublesign-no_panic n),
  when_present-no_panic mp.wrong_block_vote (check_wrong_block_vote n)
      (check_wrong_block_vote-no_panic n),
  when_present-no_panic mp.epoch_vote_doublesign (check_epoch_vote_doublesign n)
      (check_epoch_vote_doublesign-no_panic n),
  when_present-no_panic mp.wrong_epoch_vote (check_wrong_epoch_vote n)
      (check_wrong_epoch_vote-no_panic n),
)
