-- ===== src/EventCheck/Basic/Mps.antt =====
-- `validateMP` of eventcheck/basiccheck/basic_check.go: misbehaviour proofs, and the whole check.
use go_opera.Base.{ℕ, ◌+◌, ◌-◌, List, [], ◌∷◌, Bool, true, false, ◌&&◌, ◌||◌}
use go_opera.Base.{leb, ltb, nat_beq, nat_bne, not, u64, u32, length, max_int64}
use go_opera.Base.{Option, some, none, Result, ok, ◌>>=◌, ◌>>◌, Check, fail_if, Error, expect}
use go_opera.Inter.Llr.{LlrSignedBlockVotes, locator_eq, epoch_vote_eq}
use go_opera.Inter.Mps.{
  EventsDoublesign, BlockVoteDoublesign, WrongBlockVote, EpochVoteDoublesign, WrongEpochVote,
  MisbehaviourProof, get_vote,
}
use go_opera.Inter.GasPowerLeft.{max}
use go_opera.Inter.Event.{Event}
use go_opera.EventCheck.Basic.{
  GasParams, check_txs, validate_event_locator, check_bvs, check_ev, validate_bvs, validate_ev,
  max_liable_epochs,
}

-- `msgEpoch > epoch+MaxLiableEpochs`
abbrev pub is_too_late : (msg_epoch epoch : ℕ) → Bool
is_too_late msg_epoch epoch = ltb (u32 (epoch + max_liable_epochs)) msg_epoch

-- The block is not one that the votes are for.
abbrev pub is_outside : ℕ → LlrSignedBlockVotes → Bool
is_outside block bvs =
    ltb block bvs.val.start || leb (u64 (bvs.val.start + length bvs.val.votes)) block

unfoldable pub check_events_doublesign : ℕ → EventsDoublesign → Check
unfolding locator_eq
check_events_doublesign msg_epoch proof =
    let a = proof.pair.fst.locator in
    let b = proof.pair.snd.locator in
    do
      validate_event_locator a
      validate_event_locator b
      fail_if (nat_bne a.creator b.creator) Error.wrong_creator_mp
      fail_if (nat_bne a.epoch b.epoch) Error.no_crime_in_mp
      fail_if (nat_bne a.seq b.seq) Error.no_crime_in_mp
      fail_if (locator_eq a b) Error.no_crime_in_mp
      fail_if (is_too_late msg_epoch a.epoch) Error.mp_too_late

unfoldable pub check_block_vote_doublesign : ℕ → BlockVoteDoublesign → Check
unfolding get_vote
check_block_vote_doublesign msg_epoch proof =
    let a = proof.pair.fst in
    let b = proof.pair.snd in
    do
      validate_bvs a
      validate_bvs b
      fail_if (nat_bne a.signed.locator.creator b.signed.locator.creator) Error.wrong_creator_mp
      fail_if (is_outside proof.block a) Error.wrong_mp
      fail_if (is_outside proof.block b) Error.wrong_mp
      vote_a ← expect (get_vote proof.block a)
      vote_b ← expect (get_vote proof.block b)
      fail_if (nat_beq vote_a vote_b && nat_beq a.val.epoch b.val.epoch) Error.no_crime_in_mp
      fail_if (is_too_late msg_epoch a.val.epoch || is_too_late msg_epoch b.val.epoch)
          Error.mp_too_late

-- A round of the loop over `Pals`: `prev` is the pal before this one. There are two pals, so
-- `Pals[:i]` holds one at most.
unfoldable pub check_block_pal_alone : ℕ → ℕ → LlrSignedBlockVotes → Check
check_block_pal_alone msg_epoch block pal = do
  validate_bvs pal
  fail_if (is_outside block pal) Error.wrong_mp
  fail_if (is_too_late msg_epoch pal.val.epoch) Error.mp_too_late

unfoldable pub check_same_vote : Bool → ℕ → (prev pal : LlrSignedBlockVotes) → Check
unfolding get_vote
check_same_vote true block prev pal =
    fail_if (nat_bne pal.val.epoch prev.val.epoch) Error.no_crime_in_mp
check_same_vote false block prev pal = do
  vote_a ← expect (get_vote block prev)
  vote_b ← expect (get_vote block pal)
  fail_if (nat_bne vote_a vote_b) Error.no_crime_in_mp

unfoldable pub check_wrong_block_vote : ℕ → WrongBlockVote → Check
unfolding check_block_pal_alone check_same_vote
check_wrong_block_vote msg_epoch proof =
    let a = proof.pals.fst in
    let b = proof.pals.snd in
    do
      check_block_pal_alone msg_epoch proof.block a
      check_block_pal_alone msg_epoch proof.block b
      check_same_vote proof.wrong_epoch proof.block a b
      fail_if (nat_beq a.signed.locator.creator b.signed.locator.creator) Error.wrong_creator_mp

unfoldable pub check_epoch_vote_doublesign : ℕ → EpochVoteDoublesign → Check
check_epoch_vote_doublesign msg_epoch proof =
    let a = proof.pair.fst in
    let b = proof.pair.snd in
    do
      validate_ev a
      validate_ev b
      fail_if (nat_bne a.signed.locator.creator b.signed.locator.creator) Error.wrong_creator_mp
      fail_if (nat_bne a.val.epoch b.val.epoch) Error.no_crime_in_mp
      fail_if (nat_beq a.val.vote b.val.vote) Error.no_crime_in_mp
      fail_if (is_too_late msg_epoch a.val.epoch) Error.mp_too_late

unfoldable pub check_wrong_epoch_vote : ℕ → WrongEpochVote → Check
unfolding epoch_vote_eq
check_wrong_epoch_vote msg_epoch proof =
    let a = proof.pals.fst in
    let b = proof.pals.snd in
    do
      validate_ev a
      fail_if (is_too_late msg_epoch a.val.epoch) Error.mp_too_late
      validate_ev b
      fail_if (is_too_late msg_epoch b.val.epoch) Error.mp_too_late
      fail_if (not (epoch_vote_eq a.val b.val)) Error.no_crime_in_mp
      fail_if (nat_beq a.signed.locator.creator b.signed.locator.creator) Error.wrong_creator_mp

-- `if proof := …; proof != nil { count++; … }`, the number of proofs found.
abbrev pub when_present : {A : Type 0} → Option A → (A → Check) → Result ℕ
when_present none check = ok 0
when_present (some proof) check = check proof >> ok 1

unfoldable pub validate_mp : (msg_epoch : ℕ) → MisbehaviourProof → Check
validate_mp msg_epoch mp = do
  n1 ← when_present mp.events_doublesign (check_events_doublesign msg_epoch)
  n2 ← when_present mp.block_vote_doublesign (check_block_vote_doublesign msg_epoch)
  n3 ← when_present mp.wrong_block_vote (check_wrong_block_vote msg_epoch)
  n4 ← when_present mp.epoch_vote_doublesign (check_epoch_vote_doublesign msg_epoch)
  n5 ← when_present mp.wrong_epoch_vote (check_wrong_epoch_vote msg_epoch)
  fail_if (nat_bne (n1 + n2 + n3 + n4 + n5) 1) Error.malformed_mp

unfoldable pub validate_mps : (msg_epoch : ℕ) → List MisbehaviourProof → Check
validate_mps msg_epoch [] = ok tt
validate_mps msg_epoch (mp ∷ mps) = do validate_mp msg_epoch mp; validate_mps msg_epoch mps

-- `Validate`, given lachesis-base's check.
unfoldable pub validate : GasParams → (Event → Check) → Event → Check
validate g base_validate e = do
  fail_if (nat_bne e.net_fork_id 0) Error.wrong_net_fork_id
  base_validate e
  fail_if (leb (max_int64 - 1) e.gas_power_used || leb (max_int64 - 1) (max e.gas_power_left))
      Error.huge_value
  fail_if (nat_beq e.creation_time 0 || nat_beq e.median_time 0) Error.zero_time
  check_txs g e.txs
  validate_mps e.epoch e.misbehaviour_proofs
  check_ev e.epoch e.epoch_vote false
  check_bvs e.epoch e.block_votes false
